-- ===== src/UnorderedMap/Begin.antt =====
-- `begin_resize`: a map at rest turns into a map in transfer with the same values.
use real_time_library.Base.{
  ℕ, zero, suc, ◌+◌, ◌%◌, ◌^◌, ◌<◌, ◌≡◌, refl, sym, ◌∙◌, ◌≢◌, inl, inr, Bool, true, false, none,
  some, List, [], ◌∷◌, arith, ltb, ◌==◌, if◌then◌else◌, length, get_or, eqb→eq, Bool-cases,
  Option-cases,
}
use real_time_library.Alloc.{Alloc, size_mod}
use real_time_library.Primes.{get_prime_power_of_2, power_of_two_primes}
use real_time_library.Bucket.{Params}
use real_time_library.Table
use real_time_library.Table.{Table, new_table}
use real_time_library.Table.View.{IsValid, view, get-view}
use real_time_library.Table.Fresh.{new_table-empty}
use real_time_library.UnorderedMap.{UnorderedMap, transfer, table_of, address, begin_resize}
use real_time_library.UnorderedMap.Methods.{get_either}
use real_time_library.UnorderedMap.Keep.{InTransfer, get_either-lookup}

all_positive : List ℕ → Bool
all_positive [] = true
all_positive (n ∷ ns) = if ltb 0 n then all_positive ns else false

positive : (ns : List ℕ) (i : ℕ) → all_positive ns ≡ true → i < length ns → 0 < get_or ns i 0
unfolding all_positive
positive [] i e inside = absurd (omega arith)
positive (n ∷ ns) zero e inside = ground arith
positive (n ∷ ns) (suc i) e inside = positive ns i (ground arith) (omega arith)

-- Every power below 32 has a prime in the table.
get_prime_power_of_2-positive : (n : ℕ) → n < 32 → 0 < get_prime_power_of_2 n
unfolding get_prime_power_of_2 all_positive
get_prime_power_of_2-positive n small =
    let here : 0 < get_or power_of_two_primes n 0 = positive power_of_two_primes n refl small in
    ground arith

module _ {A : Alloc} {K V : Type 0} (P : Params A K V) where
  -- A map with one valid table, with a value in each entry.
  pub record Rests (m : UnorderedMap K V) : Type 0 where
    pub main_there : address m.main ≢ none
    pub valid : IsValid P (table_of m.main)
    pub valued : (q : K) → view P (table_of m.main) q ≢ some none
    pub room : (table_of m.main).total_entries + 1 < size_mod

  -- What `begin_resize` has made of such a map.
  pub record Begins (m : UnorderedMap K V) (r : Bool × UnorderedMap K V × A.Heap) : Type 0 where
    pub in_transfer : r.0 ≡ true → InTransfer P r.1
    pub state_transfer : r.0 ≡ true → r.1.state ≡ transfer
    pub reads : r.0 ≡ true → (q : K) → get_either P r.1 q ≡ Table.get P (table_of m.main) q
    pub starts : r.0 ≡ true → r.1.current_bucket_to_transfer ≡ 0
    pub refused : r.0 ≡ false → r.1 ≡ record m { secondary = none }

  module _ (m : UnorderedMap K V) (rests : Rests m) where
    abbrev moving_to : ℕ → Table K V → UnorderedMap K V
    moving_to a t = record m {
      secondary = some (a, t);
      state = transfer;
      current_bucket_to_transfer = 0;
    }

    blank-InTransfer :
        (a : ℕ) (t : Table K V)
        → IsValid P t
        → ((q : K) → view P t q ≡ none)
        → t.total_entries ≡ 0
        → InTransfer P (moving_to a t)
          × ((q : K) → get_either P (moving_to a t) q ≡ Table.get P (table_of m.main) q)
    blank-InTransfer a t valid blank zero_entries = (
      record {
        main_there = rests.main_there;
        secondary_there = λ e. cc;
        pair = record {
          main_valid = rests.valid;
          sec_valid = valid;
          valued = λ q e. cc (sym (blank q) ∙ e);
          covered = λ q e. absurd (rests.valued q e);
          apart = λ q there. absurd (there (blank q));
          room = omega (arith, rests.room);
        };
      },
      λ q. get_either-lookup P (moving_to a t) q ∙ rw (get-view P q valid, blank q) refl,
    )

    -- `begin_resize` to a power below 32: where it returns true, the map is in transfer to a valid
    -- table with no entries and has the same values as before; where it returns false, only the
    -- secondary table is reset.
    pub begin_resize-Begins : (n : ℕ) (h : A.Heap) → n < 32 → Begins m (begin_resize P m n h)
    unfolding begin_resize
    begin_resize-Begins n h small = elim (Option-cases (A.allocate P.table_size h).0) [
      | inl e ↦
          rw (e, begin_resize)
            (record {
              in_transfer = λ f. cc;
              state_transfer = λ f. cc;
              reads = λ f. cc;
              starts = λ f. cc;
              refused = λ f. refl;
            })
      | inr (a, e) ↦
          elim (Bool-cases (
            get_prime_power_of_2 n
            == (new_table P (n % 2 ^ 8) (A.allocate P.table_size h).1).0.num_buckets)) [
              | inr f ↦
                  rw (e, f, begin_resize)
                    (record {
                      in_transfer = λ f. cc;
                      state_transfer = λ f. cc;
                      reads = λ f. cc;
                      starts = λ f. cc;
                      refused = λ f. refl;
                    })
              | inl f ↦
                  let t = (new_table P (n % 2 ^ 8) (A.allocate P.table_size h).1).0 in
                  let wide : get_prime_power_of_2 n ≡ t.num_buckets = eqb→eq _ _ f in
                  let (valid, blank, zero_entries) =
                    new_table-empty P (n % 2 ^ 8) (A.allocate P.table_size h).1
                      (omega (arith, wide, get_prime_power_of_2-positive n small)) in
                  let (inv, reads) = blank-InTransfer a t valid blank zero_entries in
                  rw (e, f, begin_resize)
                    (record {
                      in_transfer = λ _. inv;
                      state_transfer = λ _. refl;
                      reads = λ _. reads;
                      starts = λ _. refl;
                      refused = λ f. cc;
                    })
            ]
    ]
