-- ===== src/Ring/Produce.antt =====
-- `write` and `write_bytes` against the queue of bytes held.
use real_time_library.Base.{
  ℕ, ◌+◌, ◌-◌, ◌%◌, ◌≤◌, ◌<◌, min, ◌≡◌, refl, sym, ap, ◌∙◌, ◌⊎◌, inl, inr, true, false, Option,
  none, some, List, ◌++◌, arith, ltb, if◌then◌else◌, length, take, lt→ltb, le→ltb, ne→eqb, lt-cases,
  eq-cases,
}
use mathlib.Core.List.{append-nil}
use native.Mathlib.Nat.{mod-eq_of_lt, mod-eq-sub-mod}
use real_time_library.Ring.{
  Ring, add_u32, sub_u32, get_bytes_written, copy_and_store, write, write_bytes, ◌>>=◌,
}
use real_time_library.Ring.Inv.{
  IsValid, contents, size, size-lt-capacity, get_bytes_written-eq-size,
}
use real_time_library.Ring.Write.{
  reach, two_chunks, one_chunk, priv_write_behind, priv_write_ahead, span-one_chunk,
  span-two_chunks_within, span-two_chunks_round, length-one_chunk, length-two_chunks,
}

-- A ring over `buf` with the write index moved on to `w`.
abbrev pub stored : Ring → List ℕ → ℕ → Ring
stored r buf w = record r { buf = buf; write_index = w }

-- The index `n` on from `i`, going round at the capacity.
abbrev pub advance : ℕ → ℕ → ℕ → ℕ
advance cap i n = if ltb (i + n) cap then i + n else i + n - cap

pub advance-mod :
    {r : Ring} (i n : ℕ)
    → IsValid r
    → i < r.capacity
    → n < r.capacity
    → add_u32 i n % r.capacity ≡ advance r.capacity i n
advance-mod {r} i n v hi hn = elim (lt-cases (i + n) r.capacity) [
  | inl h ↦ rw (lt→ltb _ _ h) (ap (λ k. k % r.capacity) small ∙ mod-eq_of_lt h)
  | inr h ↦
      rw (le→ltb _ _ h)
        (ap (λ k. k % r.capacity) small ∙ (mod-eq-sub-mod h ∙ mod-eq_of_lt (omega arith)))
]
  where
    small : add_u32 i n ≡ i + n
    small = omega arith

-- What a successful copy of the first `amt` bytes of `input` leaves.
pub record Appends (r : Ring) (input : List ℕ) (amt : ℕ) (r' : Ring) : Type 0 where
  pub valid : IsValid r'
  pub bytes : contents r' ≡ contents r ++ take amt input
  pub capacity : r'.capacity ≡ r.capacity
  pub unread : r'.read_index ≡ r.read_index

module _ {r : Ring} (v : IsValid r) (input : List ℕ) (amt : ℕ) (fits : amt + size r < r.capacity)
    (long : reach r amt ≤ length input) where
  enough : amt ≤ length input
  enough = ground arith

  -- The write index is not behind the read index: the new one may go round the end.
  ahead :
      r.read_index ≤ r.write_index
      → (r.write_index + amt < r.capacity) ⊎ (r.capacity ≤ r.write_index + amt)
      → (r' : Ring) × (copy_and_store r input amt amt ≡ some r') × Appends r input amt r'
  unfolding copy_and_store
  ahead h (inl k) = (
    stored r (two_chunks r.buf r.capacity r.write_index input amt) (r.write_index + amt),
    rw (
      priv_write_ahead v input amt fits h long,
      ◌>>=◌,
      advance-mod r.write_index amt v v.write_in (omega arith),
      lt→ltb (r.write_index + amt) r.capacity k,
    ),
    record {
      valid = ground (
        arith,
        length-two_chunks r.buf input r.capacity r.read_index r.write_index amt v.storage enough,
      );
      bytes =
          span-two_chunks_within r.buf input r.capacity r.read_index r.write_index amt v.storage
            enough h k (ground arith);
      capacity = refl;
      unread = refl;
    },
  )
  ahead h (inr k) = (
    stored r (two_chunks r.buf r.capacity r.write_index input amt)
        (r.write_index + amt - r.capacity),
    rw (
      priv_write_ahead v input amt fits h long,
      ◌>>=◌,
      advance-mod r.write_index amt v v.write_in (omega arith),
      le→ltb (r.write_index + amt) r.capacity k,
    ),
    record {
      valid = ground (
        arith,
        length-two_chunks r.buf input r.capacity r.read_index r.write_index amt v.storage enough,
      );
      bytes =
          span-two_chunks_round r.buf input r.capacity r.read_index r.write_index amt v.storage
            enough h v.write_in k (ground arith);
      capacity = refl;
      unread = refl;
    },
  )

  pub copy_and_store-Appends :
      (r' : Ring) × (copy_and_store r input amt amt ≡ some r') × Appends r input amt r'
  unfolding copy_and_store
  copy_and_store-Appends = elim (lt-cases r.write_index r.read_index) [
    | inl h ↦ (
      stored r (one_chunk r.buf r.write_index input amt) (r.write_index + amt),
      rw (
        priv_write_behind v input amt fits h enough,
        ◌>>=◌,
        advance-mod r.write_index amt v v.write_in (omega arith),
        lt→ltb (r.write_index + amt) r.capacity (ground arith),
      ),
      record {
        valid = ground (
          arith,
          length-one_chunk r.buf input r.capacity r.read_index r.write_index amt v.storage enough,
        );
        bytes =
            span-one_chunk r.buf input r.capacity r.read_index r.write_index amt v.storage enough h
              v.read_in (ground arith);
        capacity = refl;
        unread = refl;
      },
    )
    | inr h ↦ ahead h (lt-cases (r.write_index + amt) r.capacity)
  ]

-- What the code computes as the room that is left.
pub space_left :
    {r : Ring}
    → IsValid r
    → sub_u32 r.writable_capacity (get_bytes_written r r.write_index r.read_index)
      ≡ r.writable_capacity - size r
space_left {r} v = rw (get_bytes_written-eq-size v) (ground (arith, size-lt-capacity v))

nothing-Appends : {r : Ring} (input : List ℕ) (sz : ℕ) → IsValid r → sz ≡ 0 → Appends r input sz r
nothing-Appends {r} input sz v e = record {
  valid = v;
  bytes = rw e (sym (append-nil (contents r)));
  capacity = refl;
  unread = refl;
}

-- `write` of `sz` bytes into a ring with room for them succeeds, adds the first `sz` bytes of the
-- input at the end of the queue and keeps the invariant, where the input buffer is as long as
-- the copy reaches.
pub write-Appends :
    {r : Ring} (input : List ℕ) (sz : ℕ)
    → IsValid r
    → sz + size r < r.capacity
    → reach r sz ≤ length input
    → (r' : Ring) × (write r (some input) sz ≡ some (true, r')) × Appends r input sz r'
unfolding write
write-Appends {r} input sz v fits long = elim (eq-cases sz 0) [
  | inl e ↦ (r, ground arith, nothing-Appends input sz v e)
  | inr ne ↦
      let (r', run, done) = copy_and_store-Appends v input sz fits long in
      let all : min sz (r.writable_capacity - size r) ≡ sz = omega (arith) in
      (
        r',
        rw (
          le→ltb r.writable_capacity sz (omega arith),
          ne→eqb sz 0 ne,
          space_left v,
          le→ltb (r.writable_capacity - size r) sz (omega arith),
          all,
          run,
          ◌>>=◌,
        ),
        done,
      )
]

-- `write` of more bytes than there is room for returns false and changes nothing, whatever the
-- input.
write_full :
    {r : Ring} (input : Option (List ℕ)) (sz : ℕ)
    → IsValid r
    → r.capacity ≤ sz + size r
    → write r input sz ≡ some (false, r)
unfolding write
write_full {r} none sz v h = ground (arith, size-lt-capacity v)
write_full {r} (some input) sz v h = rw (space_left v) (ground (arith, size-lt-capacity v))

-- `write_bytes` of `sz` bytes into a ring with room for them returns `sz`, adds the first `sz`
-- bytes of the input at the end of the queue and keeps the invariant, where the input buffer is as
-- long as the copy reaches.
pub write_bytes-Appends :
    {r : Ring} (input : List ℕ) (sz : ℕ)
    → IsValid r
    → sz + size r < r.capacity
    → reach r sz ≤ length input
    → (r' : Ring) × (write_bytes r (some input) sz ≡ some (sz, r')) × Appends r input sz r'
unfolding write_bytes
write_bytes-Appends {r} input sz v fits long = elim (eq-cases sz 0) [
  | inl e ↦ (r, ground arith, nothing-Appends input sz v e)
  | inr ne ↦
      let (r', run, done) = copy_and_store-Appends v input sz fits long in
      let all : min sz (r.writable_capacity - size r) ≡ sz = omega (arith) in
      (
        r',
        rw (
          le→ltb r.writable_capacity sz (omega arith),
          ne→eqb sz 0 ne,
          space_left v,
          all,
          run,
          ◌>>=◌,
        ),
        done,
      )
]
