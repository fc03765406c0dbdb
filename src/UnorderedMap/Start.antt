-- ===== src/UnorderedMap/Start.antt =====
-- The constructor of the map and the lock of its size, on what a map stands for.
use real_time_library.Base.{ℕ, ◌<◌, refl, sym, ap, ◌∙◌, inl, inr, Option, none, arith, Option-cases}
use real_time_library.Alloc.{Alloc}
use real_time_library.Bucket.{Params}
use real_time_library.Bucket.Search.{value}
use real_time_library.Table.{new_table}
use real_time_library.Table.View.{get-view}
use real_time_library.Table.Fresh.{new_table-empty}
use real_time_library.UnorderedMap.{
  UnorderedMap, table_of, new_map, compute_state, lock_table_size, unlock_table_size,
}
use real_time_library.UnorderedMap.Methods.{get_either}
use real_time_library.UnorderedMap.Holds.{Holds, resting, moving, broken}

module _ {A : Alloc} {K V : Type 0} (P : Params A K V) where
  -- The number of buckets that the constructor of the map got.
  abbrev pub first_buckets : ℕ → A.Heap → ℕ
  first_buckets percent h = (table_of (new_map P percent h).0.main).num_buckets

  pub new_map-Holds :
      (percent : ℕ) (h : A.Heap)
      → 0 < first_buckets percent h
      → Holds P (new_map P percent h).0 (λ _. none)
  unfolding new_map compute_state
  new_map-Holds percent h wide = elim (Option-cases (A.allocate P.table_size h).0) [
    | inl e ↦ rw (e, new_map) (broken refl)
    | inr (a, e) ↦
        let wide' : 0 < (new_table P 4 (A.allocate P.table_size h).1).0.num_buckets =
          rw (e, first_buckets, new_map) at wide in
        let (valid, blank, zero_entries) =
          new_table-empty P 4 (A.allocate P.table_size h).1 wide' in
        rw (e, new_map)
          (resting refl
            (record {
              main_there = λ f. cc;
              valid = valid;
              valued = λ q f. cc (sym (blank q) ∙ f);
              room = omega (arith, zero_entries);
            })
            (λ q. get-view P q valid ∙ ap (value P) (blank q)))
  ]

  pub lock_table_size-Holds :
      {m : UnorderedMap K V} {f : K → Option V} → Holds P m f → Holds P (lock_table_size m) f
  unfolding lock_table_size get_either
  lock_table_size-Holds (resting e rests reads) =
      resting e
        (record {
          main_there = rests.main_there;
          valid = rests.valid;
          valued = rests.valued;
          room = rests.room;
        })
        reads
  lock_table_size-Holds (moving e ready reads) =
      moving e
        (record {
          in_transfer = record {
            main_there = ready.in_transfer.main_there;
            secondary_there = ready.in_transfer.secondary_there;
            pair = ready.in_transfer.pair;
          };
          empty_below = ready.empty_below;
        })
        reads
  lock_table_size-Holds (broken e) = broken e

  pub unlock_table_size-Holds :
      {m : UnorderedMap K V} {f : K → Option V} → Holds P m f → Holds P (unlock_table_size m) f
  unfolding unlock_table_size get_either
  unlock_table_size-Holds (resting e rests reads) =
      resting e
        (record {
          main_there = rests.main_there;
          valid = rests.valid;
          valued = rests.valued;
          room = rests.room;
        })
        reads
  unlock_table_size-Holds (moving e ready reads) =
      moving e
        (record {
          in_transfer = record {
            main_there = ready.in_transfer.main_there;
            secondary_there = ready.in_transfer.secondary_there;
            pair = ready.in_transfer.pair;
          };
          empty_below = ready.empty_below;
        })
        reads
  unlock_table_size-Holds (broken e) = broken e
