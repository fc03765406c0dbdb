-- ===== src/Ring/Threads/Progress.antt =====
-- Neither thread waits for the other.
use real_time_library.Base.{
  ℕ, ◌+◌, ◌≤◌, ◌<◌, ◌≡◌, refl, ◌⊎◌, inl, inr, some, List, [], arith, ltb, length, lt-cases,
  Bool-cases,
}
use real_time_library.Ring.{Ring, priv_write, read_copy, get_bytes_written}
use real_time_library.Ring.Inv.{IsValid, distance, contents, get_bytes_written-eq-size}
use real_time_library.Ring.Write.{reach, priv_write_behind, priv_write_ahead}
use real_time_library.Ring.Consume.{spread, read_copy-Delivers}
use real_time_library.Ring.Threads.Overlap.{Behind, seen-IsValid}
use real_time_library.Ring.Threads.Fifo.{Inv, Readable, room_for, Reach-Inv}
use real_time_library.Ring.Threads.{
  idle, loaded, copied, waiting, started, fetched, System, space_left_for, amount_for, Step, refuse,
  copy_in, store_write_index, copy_out, store_read_index, Reach,
}

priv_write-late :
    {r : Ring} (v : IsValid r) (rd : ℕ) (late : Behind r rd) (input : List ℕ) (sz : ℕ)
    → sz + distance r.capacity rd r.write_index < r.capacity
    → reach (record r { read_index = rd }) sz ≤ length input
    → (buf : List ℕ) × (priv_write r input sz r.write_index rd ≡ some buf)
unfolding priv_write
priv_write-late {r} v rd late input sz fits long = elim (lt-cases r.write_index rd) [
  | inl h ↦
      (_, priv_write_behind (seen-IsValid v rd late input sz fits) input sz fits h (ground arith))
  | inr h ↦ (_, priv_write_ahead (seen-IsValid v rd late input sz fits) input sz fits h long)
]

read_copy-early :
    {r : Ring} (v : IsValid r) (max_read w : ℕ) (output : List ℕ)
    → Readable r w
    → spread (record r { write_index = w }) (amount_for r max_read w) ≤ length output
    → (out : List ℕ) × (read_copy r output (amount_for r max_read w) w r.read_index ≡ some out)
unfolding read_copy get_bytes_written
read_copy-early {r} v max_read w output inv long =
    let early-IsValid : IsValid (record r { write_index = w }) = ground (arith, inv.inside) in
    let (out, run, _) =
      read_copy-Delivers early-IsValid output (amount_for r max_read w)
        (ground (arith, get_bytes_written-eq-size early-IsValid)) long in
    (out, run)

-- In every state that two threads reach from an empty valid ring, a thread inside its call can take
-- the next step, whatever the other thread does: `write` goes on to its copy or returns, and then
-- stores its index; `read` goes on to its copy, and then stores its index. Input and output are
-- as long as the copies reach.
pub Reach-progress :
    {r : Ring} {s : System}
    → IsValid r
    → contents r ≡ []
    → Reach r s
    → ((input : List ℕ) (sz rd : ℕ)
        → s.producer ≡ loaded input sz rd
        → reach (record s.ring { read_index = rd }) sz ≤ length input
        → (t : System) × Step s t × ((t.producer ≡ copied input sz) ⊎ (t.producer ≡ idle)))
      × ((input : List ℕ) (sz : ℕ)
          → s.producer ≡ copied input sz
          → (t : System) × Step s t × (t.producer ≡ idle))
      × ((max_read w : ℕ) (output : List ℕ)
          → s.consumer ≡ started max_read w
          → spread (record s.ring { write_index = w }) (amount_for s.ring max_read w)
            ≤ length output
          → (out : List ℕ) × (t : System) × Step s t
            × (t.consumer ≡ fetched out (amount_for s.ring max_read w)))
      × ((output : List ℕ) (amt : ℕ)
          → s.consumer ≡ fetched output amt
          → (t : System) × Step s t × (t.consumer ≡ waiting))
Reach-progress {r} {s} v nothing reached = (
  λ input sz rd e long. elim (Bool-cases (ltb (space_left_for s.ring rd) sz)) [
    | inl full ↦ (_, refuse input sz rd e full, inr refl)
    | inr fits ↦
        let late : Behind s.ring rd = rw e at inv.producing in
        let (buf, run) =
          priv_write-late inv.valid rd late input sz (room_for inv.valid rd late sz fits) long in
        (_, copy_in input sz rd buf e fits long run, inl refl)
  ],
  λ input sz e. (_, store_write_index input sz e, refl),
  λ max_read w output e long.
      let (out, run) = read_copy-early inv.valid max_read w output (rw e at inv.consuming) long in
      (out, _, copy_out max_read w output out e long run, refl),
  λ output amt e. (_, store_read_index output amt e, refl),
)
  where
    inv : Inv s
    inv = Reach-Inv v nothing reached
