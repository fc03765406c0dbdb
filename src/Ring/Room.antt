-- ===== src/Ring/Room.antt =====
-- The bytes that a ring holds and the blocks that `compound_alloc_contig` hands out, by index.
use real_time_library.Base.{
  Bool-cases, same_result, Option, none, ltb, ◌&&◌, ◌||◌, ℕ, ◌+◌, ◌≤◌, ◌<◌, ◌≡◌, refl, inl, inr,
  Bool, true, false, some, arith, leb, if◌then◌else◌, lt-cases,
}
use real_time_library.Ring.{Ring, compound_alloc_contig}
use real_time_library.Ring.Inv.{IsValid, size, size-lt-capacity, get_bytes_written-eq-size}

-- Whether the ring holds the byte at an index of its buffer.
abbrev pub held : Ring → ℕ → Bool
held r i =
    if leb r.read_index r.write_index
    then leb r.read_index i && ltb i r.write_index
    else leb r.read_index i || ltb i r.write_index

-- Whether the block of `n` bytes at a pointer has the byte at an index.
abbrev pub in_block : Option ℕ → ℕ → ℕ → Bool
in_block none n i = false
in_block (some p) n i = leb p i && ltb i (p + n)

pub block-bounds :
    (o : Option ℕ) (p n i : ℕ)
    → (0 < n → o ≡ some p)
    → in_block o n i ≡ true
    → (p ≤ i) × (i < p + n)
block-bounds none p n i at_p inside = cc
block-bounds (some q) p n i at_p inside =
    let from : q ≤ i = ground (arith, inside) in
    let to : i < q + n = ground (arith, inside) in
    let same : q ≡ p = same_result refl (at_p (omega arith)) in (omega arith, omega arith)

pub block-outside :
    (o : Option ℕ) (p n i : ℕ)
    → (0 < n → o ≡ some p)
    → ((p ≤ i) × (i < p + n) → ⊥)
    → in_block o n i ≡ false
block-outside o p n i at_p out = elim (Bool-cases (in_block o n i)) [
  | inl inside ↦ absurd (out (block-bounds o p n i at_p inside))
  | inr e ↦ e
]

-- The sizes and the pointers of the two blocks.
pub compound_alloc_contig-shape :
    {r : Ring}
    → IsValid r
    → let a = compound_alloc_contig r in
      (a.first_buf_sz + a.second_buf_sz + size r ≡ r.writable_capacity)
      × (r.write_index + a.first_buf_sz ≤ r.capacity)
      × (r.write_index < r.read_index
          → (r.write_index + a.first_buf_sz < r.read_index) × (a.second_buf_sz ≡ 0))
      × (0 < a.second_buf_sz → a.second_buf_sz < r.read_index)
      × (0 < a.first_buf_sz → a.first_buf ≡ some r.write_index)
      × (0 < a.second_buf_sz → a.second_buf ≡ some 0)
unfolding compound_alloc_contig
compound_alloc_contig-shape {r} v =
    rw (get_bytes_written-eq-size v) (ground (arith, size-lt-capacity v))

-- An index outside of the bytes held.
pub not_held :
    (r : Ring) (i : ℕ)
    → (r.read_index ≤ r.write_index → (r.read_index ≤ i) × (i < r.write_index) → ⊥)
    → (r.write_index < r.read_index → (i < r.read_index) × (r.write_index ≤ i))
    → held r i ≡ false
not_held r i ahead behind = elim (lt-cases r.write_index r.read_index) [
  | inl k ↦ let (a, b) = behind k in ground (arith, k)
  | inr k ↦ elim (lt-cases i r.read_index) [
    | inl below ↦ ground (arith, k)
    | inr above ↦ elim (lt-cases i r.write_index) [
      | inl within ↦ absurd (ahead k (above, within))
      | inr after ↦ ground (arith, k)
    ]
  ]
]
