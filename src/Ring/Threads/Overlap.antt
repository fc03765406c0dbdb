-- ===== src/Ring/Threads/Overlap.antt =====
-- What a copy by an index that is out of date does to a ring.
use real_time_library.Base.{
  ℕ, ◌+◌, ◌-◌, ◌≤◌, ◌<◌, ◌≡◌, sym, ◌∙◌, inl, inr, some, List, ◌++◌, arith, length, take, list_ext,
  le→leb, lt→leb, lt→ltb, le→ltb, lt-cases, get_elem?-beyond,
}
use real_time_library.Ring.{Ring, priv_write}
use real_time_library.Ring.Inv.{IsValid, distance, span, contents, size}
use real_time_library.Ring.Write.{
  reach, positions, one_chunk, two_chunks, priv_write_behind, priv_write_ahead, span-one_chunk,
  span-two_chunks_within, span-two_chunks_round, length-one_chunk, length-two_chunks,
}
use real_time_library.Ring.Produce.{advance}
use real_time_library.Ring.Blocks.{span-one_chunk_ahead}

-- The bytes up to an earlier write index are the first ones up to a later one.
pub span-prefix :
    (buf : List ℕ) (cap rd w w' : ℕ)
    → length buf ≡ cap
    → rd < cap
    → w < cap
    → w' < cap
    → distance cap rd w ≤ distance cap rd w'
    → span buf rd w ≡ take (distance cap rd w) (span buf rd w')
span-prefix buf cap rd w w' full rd_in w_in w'_in before = elim (lt-cases w rd) [
  | inl behind ↦
      let later : w' < rd = ground arith in
      let order : w ≤ w' = ground arith in
      rw (lt→leb rd w behind, lt→leb rd w' later)
        (list_ext _ _ λ i. simp positions (ground (arith, get_elem?-beyond buf)))
  | inr ahead ↦ elim (lt-cases w' rd) [
    | inl round ↦
        rw (le→leb rd w ahead, lt→leb rd w' round)
          (list_ext _ _ λ i. simp positions (ground (arith, get_elem?-beyond buf)))
    | inr further ↦
        let order : w ≤ w' = ground arith in
        rw (le→leb rd w ahead, le→leb rd w' further)
          (list_ext _ _ λ i. simp positions (ground (arith, get_elem?-beyond buf)))
  ]
]

-- A ring and a read index that the ring has left behind.
pub record Behind (r : Ring) (rd : ℕ) : Type 0 where
  pub inside : rd < r.capacity
  pub passed : size r ≤ distance r.capacity rd r.write_index

-- What a copy of `amt` bytes into the free room leaves, before the write index moves on.
pub record Filled (r : Ring) (input : List ℕ) (amt : ℕ) (buf : List ℕ) : Type 0 where
  pub storage : length buf ≡ r.capacity
  pub room : amt + size r < r.capacity
  pub longer :
      span buf r.read_index (advance r.capacity r.write_index amt) ≡ contents r ++ take amt input

module _ {r : Ring} (v : IsValid r) (rd : ℕ) (late : Behind r rd) (input : List ℕ) (amt : ℕ)
    (fits : amt + distance r.capacity rd r.write_index < r.capacity) where
  -- The ring as the producer sees it.
  abbrev pub seen : Ring
  seen = record r { read_index = rd }

  pub seen-IsValid : IsValid seen
  seen-IsValid = record {
    positive = v.positive;
    small = v.small;
    storage = v.storage;
    writable = v.writable;
    read_in = late.inside;
    write_in = v.write_in;
  }

  module _ (long : reach seen amt ≤ length input) where
    enough : amt ≤ length input
    enough = ground arith

    Filled-behind :
        r.write_index < rd → Filled r input amt (one_chunk r.buf r.write_index input amt)
    Filled-behind h =
        let short : r.write_index + amt < rd = ground arith in
        record {
          storage =
              length-one_chunk r.buf input r.capacity r.read_index r.write_index amt v.storage
                enough (omega (arith, late.inside));
          room = omega (arith, late.passed);
          longer =
              rw (lt→ltb (r.write_index + amt) r.capacity (omega (arith, late.inside)))
                (elim (lt-cases r.write_index r.read_index) [
                  | inl k ↦
                      span-one_chunk r.buf input r.capacity r.read_index r.write_index amt v.storage
                        enough k v.read_in (ground (arith, late.passed))
                  | inr k ↦
                      span-one_chunk_ahead r.buf input r.capacity r.read_index r.write_index amt
                        v.storage enough k (omega (arith, late.inside))
                ]);
        }

    Filled-ahead :
        rd ≤ r.write_index
        → Filled r input amt (two_chunks r.buf r.capacity r.write_index input amt)
    Filled-ahead h =
        let order : r.read_index ≤ r.write_index = ground (arith, late.passed) in
        let after : rd ≤ r.read_index = ground (arith, late.passed) in
        let to_end : r.capacity - r.write_index ≤ length input = ground arith in
        record {
          storage =
              length-two_chunks r.buf input r.capacity r.read_index r.write_index amt v.storage
                enough v.write_in (ground arith) to_end;
          room = omega (arith, late.passed);
          longer = elim (lt-cases (r.write_index + amt) r.capacity) [
            | inl k ↦ rw (lt→ltb (r.write_index + amt) r.capacity k) (
                span-two_chunks_within r.buf input r.capacity r.read_index r.write_index amt
                  v.storage enough order k to_end)
            | inr k ↦
                let short : r.write_index + amt - r.capacity < r.read_index = ground arith in
                rw (le→ltb (r.write_index + amt) r.capacity k) (
                  span-two_chunks_round r.buf input r.capacity r.read_index r.write_index amt
                    v.storage enough order v.write_in k short)
          ];
        }

    -- A copy into the room that is left by an old read index does not touch the bytes held.
    pub priv_write-Filled :
        (buf : List ℕ) → priv_write r input amt r.write_index rd ≡ some buf → Filled r input amt buf
    unfolding priv_write
    priv_write-Filled buf run = elim (lt-cases r.write_index rd) [
      | inl h ↦
          let made = priv_write_behind seen-IsValid input amt fits h enough in
          let same : one_chunk r.buf r.write_index input amt ≡ buf = cc (sym made ∙ run) in
          rw same at (Filled-behind h)
      | inr h ↦
          let made = priv_write_ahead seen-IsValid input amt fits h long in
          let same : two_chunks r.buf r.capacity r.write_index input amt ≡ buf =
            cc (sym made ∙ run) in
          rw same at (Filled-ahead h)
    ]
