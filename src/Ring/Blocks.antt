-- ===== src/Ring/Blocks.antt =====
-- The contiguous interface: `alloc_contig`, `compound_alloc_contig`, `commit_write`,
-- `read_contig` and `commit_read`.
use real_time_library.Base.{
  ℕ, ◌+◌, ◌-◌, ◌≤◌, ◌<◌, ◌≡◌, refl, ◌⊎◌, inl, inr, Bool, true, false, some, List, ◌++◌, arith, leb,
  ◌==◌, if◌then◌else◌, length, take, drop, list_ext, le→leb, lt→leb, lt→ltb, le→ltb, ne→eqb,
  lt-cases, eq-cases, get_elem?-beyond,
}
use real_time_library.Ring.{
  Ring, alloc_contig, compound_alloc_contig, commit_write, read_contig, commit_read,
}
use real_time_library.Ring.Inv.{IsValid, span, contents, size, size-lt-capacity}
use real_time_library.Ring.Room.{
  held, in_block, block-bounds, block-outside, compound_alloc_contig-shape, not_held,
}
use real_time_library.Ring.Write.{positions, one_chunk, span-one_chunk, length-one_chunk}
use real_time_library.Ring.Produce.{advance, advance-mod}
use real_time_library.Ring.Consume.{contents-take_read}

-- The block that `alloc_contig` hands out starts at the write index, stays inside the buffer and
-- inside the free room, and is no larger than requested. Where it is smaller, the flag says why:
-- true at the end of the buffer, false where all the room is taken.
alloc_contig_bounds :
    {r : Ring} (requested : ℕ) (flag : Bool)
    → IsValid r
    → let c = alloc_contig r requested flag in
      (c.offset ≡ r.write_index)
      × (c.size ≤ requested)
      × (c.offset + c.size ≤ r.capacity)
      × (c.size + size r < r.capacity)
      × (c.size < requested → c.end_of_buffer ≡ true → c.offset + c.size ≡ r.capacity)
      × (c.size < requested → c.end_of_buffer ≡ false → c.size + size r + 1 ≡ r.capacity)
      × (c.size ≡ requested → c.end_of_buffer ≡ flag)
unfolding alloc_contig
alloc_contig_bounds {r} requested flag v = ground arith

-- The two blocks of `compound_alloc_contig` lie in the buffer, have no byte in common with each other
-- nor with the bytes held, and together are all the room that is left. The first one starts at the
-- write index and the second one at the start of the buffer; only an empty block has a null pointer.
pub compound_alloc_contig_free :
    {r : Ring}
    → IsValid r
    → let a = compound_alloc_contig r in
      (a.first_buf_sz + a.second_buf_sz + size r ≡ r.writable_capacity)
      × ((i : ℕ)
          → in_block a.first_buf a.first_buf_sz i ≡ true
          → (i < r.capacity)
            × (held r i ≡ false)
            × (in_block a.second_buf a.second_buf_sz i ≡ false))
      × ((i : ℕ)
          → in_block a.second_buf a.second_buf_sz i ≡ true
          → (i < r.capacity) × (held r i ≡ false))
      × (0 < a.first_buf_sz → a.first_buf ≡ some r.write_index)
      × (0 < a.second_buf_sz → a.second_buf ≡ some 0)
compound_alloc_contig_free {r} v =
    let a = compound_alloc_contig r in
    let (total, fits, below, short, at_first, at_second) = compound_alloc_contig-shape v in
    (
      total,
      λ i inside.
          let (from, to) =
            block-bounds a.first_buf r.write_index a.first_buf_sz i at_first inside in
          (
            omega (arith, fits, from, to),
            not_held r i (λ k (x, y). omega (arith, from, y))
                (λ k. (omega (arith, to, (below k).0), from)),
            block-outside a.second_buf 0 a.second_buf_sz i at_second (λ (x, y).
                elim (lt-cases r.write_index r.read_index) [
                  | inl k ↦ omega (arith, y, (below k).1)
                  | inr k ↦ omega (arith, y, from, short (omega (arith, y)))
                ]),
          ),
      λ i inside.
          let (_, to) = block-bounds a.second_buf 0 a.second_buf_sz i at_second inside in
          let before = short (omega (arith, to)) in
          (
            omega (arith, to, before, v.read_in),
            not_held r i (λ k (x, y). omega (arith, to, before, x))
                (λ k. absurd (omega (arith, to, (below k).1))),
          ),
      at_first,
      at_second,
    )

-- Any part of the chunk from the read index up to the write index or the end of the buffer comes
-- first in the queue.
take-chunk :
    {r : Ring} (n : ℕ)
    → IsValid r
    → n ≤ (
        if leb r.read_index r.write_index
        then r.write_index - r.read_index
        else r.capacity - r.read_index)
    → take n (drop r.read_index r.buf) ≡ take n (contents r)
take-chunk {r} n v h = elim (lt-cases r.write_index r.read_index) [
  | inl k ↦
      let within : n ≤ r.capacity - r.read_index = ground arith in
      rw (lt→leb _ _ k) (list_ext _ _ λ i. simp positions (ground arith))
  | inr k ↦
      let within : n ≤ r.write_index - r.read_index = ground arith in
      rw (le→leb _ _ k) (list_ext _ _ λ i. simp positions (ground arith))
]

-- The block that `read_contig` hands out starts at the read index and holds the oldest bytes, at
-- most as many as requested. Where it is smaller, the flag says why: true at the end of the
-- buffer, false where no more bytes are held.
read_contig_bounds :
    {r : Ring} (requested : ℕ) (flag : Bool)
    → IsValid r
    → let c = read_contig r requested flag in
      (c.size ≤ requested)
      × (c.offset + c.size ≤ r.capacity)
      × (take c.size (drop c.offset r.buf) ≡ take c.size (contents r))
      × (c.size < requested → c.end_of_buffer ≡ true → c.offset + c.size ≡ r.capacity)
      × (c.size < requested → c.end_of_buffer ≡ false → c.size ≡ size r)
unfolding read_contig
read_contig_bounds {r} requested flag v = (
  ground arith,
  ground arith,
  ground (arith, take-chunk (read_contig r requested flag).size v),
  ground arith,
  ground arith,
)

module _ (buf input : List ℕ) (cap rd w n : ℕ) (full : length buf ≡ cap)
    (enough : n ≤ length input) where
  pub span-one_chunk_ahead :
      rd ≤ w
      → w + n < cap
      → span (one_chunk buf w input n) rd (w + n) ≡ span buf rd w ++ take n input
  span-one_chunk_ahead h k =
      rw (le→leb _ _ h, le→leb rd (w + n) (omega arith))
        (list_ext _ _ λ i. simp positions (ground (arith, get_elem?-beyond buf)))

  span-one_chunk_end :
      0 < rd
      → rd ≤ w
      → w + n ≡ cap
      → span (one_chunk buf w input n) rd (w + n - cap) ≡ span buf rd w ++ take n input
  span-one_chunk_end pos h k =
      let round : w + n - cap ≡ 0 = omega arith in
      rw (round, le→leb _ _ h, lt→leb rd 0 pos)
        (list_ext _ _ λ i. simp positions (ground (arith, get_elem?-beyond buf)))

module _ {r : Ring} (v : IsValid r) (input : List ℕ) (n : ℕ) (enough : n ≤ length input)
    (inside : r.write_index + n ≤ r.capacity) (room : n + size r < r.capacity) where
  -- The ring after a client stored `n` bytes in its block and committed them.
  abbrev committed : Ring
  committed = record r {
    buf = one_chunk r.buf r.write_index input n;
    write_index = advance r.capacity r.write_index n;
  }

  committed-IsValid : IsValid committed
  committed-IsValid =
      ground (
        arith,
        length-one_chunk r.buf input r.capacity r.read_index r.write_index n v.storage enough,
      )

  contents-committed : contents committed ≡ contents r ++ take n input
  contents-committed = elim (lt-cases r.write_index r.read_index) [
    | inl h ↦
        let short : r.write_index + n < r.read_index = ground arith in
        rw (lt→ltb (r.write_index + n) r.capacity (omega arith)) (
          span-one_chunk r.buf input r.capacity r.read_index r.write_index n v.storage enough h
            v.read_in short)
    | inr h ↦ ahead h (lt-cases (r.write_index + n) r.capacity)
  ]
    where
      ahead :
          r.read_index ≤ r.write_index
          → (r.write_index + n < r.capacity) ⊎ (r.capacity ≤ r.write_index + n)
          → contents committed ≡ contents r ++ take n input
      ahead h (inl k) = rw (lt→ltb _ _ k) (
          span-one_chunk_ahead r.buf input r.capacity r.read_index r.write_index n v.storage enough
            h k)
      ahead h (inr k) =
          let pos : 0 < r.read_index = ground arith in
          rw (le→ltb _ _ k) (
            span-one_chunk_end r.buf input r.capacity r.read_index r.write_index n v.storage enough
              pos h (omega arith))

alloc_block :
    {r : Ring} (requested : ℕ) (flag : Bool) (n : ℕ)
    → IsValid r
    → n ≤ (alloc_contig r requested flag).size
    → (r.write_index + n ≤ r.capacity) × (n + size r < r.capacity)
unfolding alloc_contig
alloc_block requested flag n v h = ground arith

commit_write-committed :
    {r : Ring} (requested : ℕ) (flag : Bool) (input : List ℕ) (n : ℕ)
    → IsValid r
    → n ≤ (alloc_contig r requested flag).size
    → n ≤ length input
    → let filled = record r { buf = one_chunk r.buf r.write_index input n } in
      IsValid (commit_write filled n)
      × (contents (commit_write filled n) ≡ contents r ++ take n input)
unfolding commit_write
commit_write-committed {r} requested flag input n v h enough = elim (eq-cases n 0) [
  | inl e ↦
      let stays : advance r.capacity r.write_index n ≡ r.write_index = ground arith in
      let test : (n == 0) ≡ true = rw e in rw test (rw stays at valid, rw stays at bytes)
  | inr ne ↦
      rw (ne→eqb n 0 ne, advance-mod r.write_index n v v.write_in (omega (arith, block.1)))
        (valid, bytes)
]
  where
    block : (r.write_index + n ≤ r.capacity) × (n + size r < r.capacity)
    block = alloc_block requested flag n v h

    valid : IsValid (committed v input n enough block.0 block.1)
    valid = committed-IsValid v input n enough block.0 block.1

    bytes : contents (committed v input n enough block.0 block.1) ≡ contents r ++ take n input
    bytes = contents-committed v input n enough block.0 block.1

-- Bytes that a client stores at the pointer that `alloc_contig` hands out, no more than its block has,
-- and commits are added at the end of the queue, in order; the invariant is kept.
pub commit_write-alloc_contig :
    {r : Ring} (requested : ℕ) (flag : Bool) (input : List ℕ) (n : ℕ)
    → IsValid r
    → n ≤ (alloc_contig r requested flag).size
    → n ≤ length input
    → let block = alloc_contig r requested flag in
      let filled = record r { buf = one_chunk r.buf block.offset input n } in
      IsValid (commit_write filled n)
      × (contents (commit_write filled n) ≡ contents r ++ take n input)
commit_write-alloc_contig {r} requested flag input n v h enough =
    rw ((alloc_contig_bounds requested flag v).0)
      (commit_write-committed requested flag input n v h enough)

-- Committing the read of `n` bytes that are held takes the `n` oldest bytes off the queue and keeps
-- the invariant.
pub contents-commit_read :
    {r : Ring} (n : ℕ)
    → IsValid r
    → n ≤ size r
    → IsValid (commit_read r n) × (contents (commit_read r n) ≡ drop n (contents r))
unfolding commit_read
contents-commit_read {r} n v h = elim (eq-cases n 0) [
  | inl e ↦ rw e (v, refl)
  | inr ne ↦
      rw
        (ne→eqb n 0 ne, advance-mod r.read_index n v v.read_in (ground (arith, size-lt-capacity v)))
        (ground arith, contents-take_read v n h)
]
