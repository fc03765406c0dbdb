-- ===== src/Ring/Inv.antt =====
-- The representation invariant of `spsc_ringbuffer`, and what its size functions count.
use real_time_library.Base.{
  ℕ, ◌+◌, ◌-◌, ◌^◌, ◌≤◌, ◌<◌, ◌≡◌, refl, sym, ap, ◌∙◌, ◌↔◌, true, List, [], ◌∷◌, ◌++◌, arith, leb,
  if◌then◌else◌, length, take, drop, length-take, length-drop, length-append,
}
use real_time_library.Ring.{
  Ring, construct, get_bytes_written, approx_size, approx_free_bytes, empty,
}

-- A capacity up to 2 ^ 31 keeps `index + size` below 2 ^ 32.
pub record IsValid (r : Ring) : Type 0 where
  pub positive : 0 < r.capacity
  pub small : r.capacity ≤ 2 ^ 31
  pub storage : length r.buf ≡ r.capacity
  pub writable : r.writable_capacity + 1 ≡ r.capacity
  pub read_in : r.read_index < r.capacity
  pub write_in : r.write_index < r.capacity

-- The number of bytes from index `rd` on to index `w`, going round at the capacity.
abbrev pub distance : ℕ → ℕ → ℕ → ℕ
distance cap rd w = if leb rd w then w - rd else cap - rd + w

-- The bytes that the ring holds, oldest first.
abbrev pub span : List ℕ → ℕ → ℕ → List ℕ
span buf rd w = if leb rd w then take (w - rd) (drop rd buf) else drop rd buf ++ take w buf

abbrev pub contents : Ring → List ℕ
contents r = span r.buf r.read_index r.write_index

abbrev pub size : Ring → ℕ
size r = distance r.capacity r.read_index r.write_index

pub length-contents : {r : Ring} → IsValid r → length (contents r) ≡ size r
length-contents {r} v = ground (
  arith,
  length-take (r.write_index - r.read_index) (drop r.read_index r.buf),
  length-drop r.read_index r.buf,
  length-take r.write_index r.buf,
  length-append (drop r.read_index r.buf) (take r.write_index r.buf),
)

pub size-lt-capacity : {r : Ring} → IsValid r → size r < r.capacity
size-lt-capacity v = ground arith

pub get_bytes_written-eq-size :
    {r : Ring} → IsValid r → get_bytes_written r r.write_index r.read_index ≡ size r
unfolding get_bytes_written
get_bytes_written-eq-size v = ground arith

-- On a valid ring `approx_size` is the number of bytes held, `approx_free_bytes` the room that is
-- left of the writable capacity, and `empty` says that no byte is held.
approx_size-contents :
    {r : Ring}
    → IsValid r
    → (approx_size r ≡ length (contents r))
      × (approx_free_bytes r + length (contents r) ≡ r.writable_capacity)
      × ((empty r ≡ true) ↔ (contents r ≡ []))
unfolding approx_size approx_free_bytes empty
approx_size-contents {r} v =
    let size = get_bytes_written-eq-size v in
    let count = length-contents v in
    (
      size ∙ sym count,
      ground (arith, size, count, size-lt-capacity v),
      ((λ e. nil (ground (arith, count))), λ e. ground (arith, count, ap length e)),
    )
  where
    nil : length (contents r) ≡ 0 → contents r ≡ []
    nil h = go (contents r) h
      where
        go : (l : List ℕ) → length l ≡ 0 → l ≡ []
        go [] e = refl
        go (x ∷ l) e = absurd (omega arith)

-- A ring over a buffer of `capacity` bytes, from 1 to 2 ^ 31, is valid and holds nothing.
construct-IsValid :
    (buf : List ℕ) (capacity : ℕ)
    → 0 < capacity
    → capacity ≤ 2 ^ 31
    → length buf ≡ capacity
    → IsValid (construct buf capacity) × (contents (construct buf capacity) ≡ [])
unfolding construct
construct-IsValid buf capacity pos small len = (ground arith, refl)
