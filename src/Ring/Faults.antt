-- ===== src/Ring/Faults.antt =====
-- Where `write_bytes`, `write` and `read` depart from their documentation.
use real_time_library.Base.{
  ℕ, ◌+◌, ◌-◌, ◌≤◌, ◌<◌, min, ◌≡◌, inl, inr, none, some, List, arith, length, le→leb, lt→leb,
  le→ltb, ne→eqb, lt-cases,
}
use real_time_library.Ring.{
  Ring, add_u32, sub_u32, priv_write, copy_and_store, write, write_bytes, read, ◌>>=◌,
}
use real_time_library.Ring.Copy.{memcpy_outside}
use real_time_library.Ring.Inv.{IsValid, size, size-lt-capacity}
use real_time_library.Ring.Write.{reach, priv_write_behind, priv_write_ahead}
use real_time_library.Ring.Produce.{advance, advance-mod, space_left}

priv_write-some :
    {r : Ring} (v : IsValid r) (input : List ℕ) (amt : ℕ)
    → amt + size r < r.capacity
    → reach r amt ≤ length input
    → (buf : List ℕ) × (priv_write r input amt r.write_index r.read_index ≡ some buf)
priv_write-some {r} v input amt fits long = elim (lt-cases r.write_index r.read_index) [
  | inl h ↦ (_, priv_write_behind v input amt fits h (ground arith))
  | inr h ↦ (_, priv_write_ahead v input amt fits h long)
]

-- `write_bytes` of more bytes than there is room for, but no more than the writable capacity,
-- reports the room that was left and yet moves the write index on by the whole request: the ring
-- then holds a full turn less than before and the request together, so that bytes are lost.
pub write_bytes_overcommits :
    {r : Ring} (input : List ℕ) (sz : ℕ)
    → IsValid r
    → sz ≤ r.writable_capacity
    → r.capacity ≤ sz + size r
    → reach r (r.writable_capacity - size r) ≤ length input
    → (r' : Ring) × (write_bytes r (some input) sz ≡ some (r.writable_capacity - size r, r'))
      × (size r' + r.capacity ≡ size r + sz)
unfolding write_bytes copy_and_store
write_bytes_overcommits {r} input sz v small over long =
    let amt = r.writable_capacity - size r in
    let (buf, run) = priv_write-some v input amt (ground (arith, size-lt-capacity v)) long in
    let part : min sz amt ≡ amt = omega arith in
    (
      record r { buf = buf; write_index = advance r.capacity r.write_index sz },
      rw (
        le→ltb r.writable_capacity sz small,
        ne→eqb sz 0 (ground (arith, size-lt-capacity v)),
        space_left v,
        part,
        run,
        ◌>>=◌,
        advance-mod r.write_index sz v v.write_in (omega arith),
      ),
      ground arith,
    )

-- `write` reads behind its input: where the write index is not behind the read index, an input
-- buffer of the `sz` bytes that are to be written is left by the copy, if it is shorter than the
-- distance to the end of the ring's buffer.
pub write_over_reads :
    {r : Ring} (input : List ℕ) (sz : ℕ)
    → IsValid r
    → 0 < sz
    → sz + size r < r.capacity
    → r.read_index ≤ r.write_index
    → length input ≡ sz
    → r.write_index + sz < r.capacity
    → write r (some input) sz ≡ none
unfolding write copy_and_store priv_write
write_over_reads {r} input sz v pos fits ahead len short =
    let all : min sz (r.writable_capacity - size r) ≡ sz = omega arith in
    let until_end : add_u32 (sub_u32 r.writable_capacity r.write_index) 1
        ≡ r.capacity - r.write_index =
      omega arith in
    rw (
      le→ltb r.writable_capacity sz (omega arith),
      ne→eqb sz 0 (omega arith),
      space_left v,
      le→ltb (r.writable_capacity - size r) sz (omega arith),
      all,
      le→leb r.read_index r.write_index ahead,
      until_end,
      memcpy_outside r.buf r.write_index input 0 (r.capacity - r.write_index) (inr (omega arith)),
      ◌>>=◌,
    )

-- `read` writes behind its output: where the bytes held go round the end of the buffer, an output
-- buffer of `max_read` bytes is left by the copy, if it is shorter than the part up to the end.
pub read_over_writes :
    {r : Ring} (output : List ℕ) (max_read : ℕ)
    → IsValid r
    → 0 < max_read
    → r.write_index < r.read_index
    → length output ≡ max_read
    → max_read + r.read_index < r.capacity
    → read r (some output) max_read ≡ none
unfolding read
read_over_writes {r} output max_read v pos behind len short =
    let until_end : add_u32 (sub_u32 r.writable_capacity r.read_index) 1
        ≡ r.capacity - r.read_index =
      omega arith in
    rw (
      le→ltb r.writable_capacity max_read (omega arith),
      ne→eqb max_read 0 (omega arith),
      lt→leb r.read_index r.write_index behind,
      until_end,
      memcpy_outside output 0 r.buf r.read_index (r.capacity - r.read_index) (inl (omega arith)),
      ◌>>=◌,
    )
