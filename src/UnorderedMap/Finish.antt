-- ===== src/UnorderedMap/Finish.antt =====
-- `finalize`: the transfer comes to an end, and the new table has the values of both.
use real_time_library.Base.{
  ℕ, zero, suc, ◌+◌, ◌-◌, ◌<◌, ◌≡◌, refl, sym, ap, ◌∙◌, inl, inr, Bool, true, false, Option, none,
  some, List, [], ◌∷◌, arith, if◌then◌else◌, length, ne→eqb, eq-cases, Bool-cases, Option-cases,
}
use real_time_library.Alloc.{Alloc}
use real_time_library.Bucket.{Params, Entry}
use real_time_library.Bucket.Search.{find, value}
use real_time_library.Table
use real_time_library.Table.{Table, bucket_at, get_bucket_index}
use real_time_library.Table.View.{IsValid, entries-eq-zero, length-le-entries, get-view}
use real_time_library.UnorderedMap.{
  UnorderedMap, error, stable, transfer, table_of, put_table, keys_per_step, is_transfer_complete,
  perform_partial_transfer, transfer_from, end_resize,
}
use real_time_library.UnorderedMap.Methods.{get_either, transfer_all, complete, finalize}
use real_time_library.UnorderedMap.Pair.{either, lookup}
use real_time_library.UnorderedMap.Sweep.{Swept, transfer_from-Swept}
use real_time_library.UnorderedMap.Keep.{
  InTransfer, get_either-lookup, there-put_table, get_either-perform_partial_transfer,
}

module _ {A : Alloc} {K V : Type 0} (P : Params A K V) where
  -- A map in transfer whose main table has no entries in front of the bucket to transfer next.
  pub record Ready (m : UnorderedMap K V) : Type 0 where
    pub in_transfer : InTransfer P m
    pub empty_below :
        (j : ℕ)
        → j < m.current_bucket_to_transfer
        → length (bucket_at (table_of m.main) j).items ≡ 0

  abbrev left_over : UnorderedMap K V → ℕ
  left_over m = (table_of m.main).total_entries

  pub perform_partial_transfer-Ready :
      (m : UnorderedMap K V) (h : A.Heap)
      → Ready m
      → (perform_partial_transfer P m h).0 ≡ true
      → Ready (perform_partial_transfer P m h).1
        × (0 < left_over m → left_over (perform_partial_transfer P m h).1 < left_over m)
  unfolding perform_partial_transfer
  perform_partial_transfer-Ready m h ready done = (
    record {
      in_transfer = (get_either-perform_partial_transfer P m h inv).0;
      empty_below = rw is_main (swept.empty_below done ready.empty_below);
    },
    λ some_left. elim (swept.moved_on done) [
      | inl all ↦ omega (arith, none_left all, count)
      | inr spent ↦ omega (arith, spent, count)
    ],
  )
    where
      inv : InTransfer P m
      inv = ready.in_transfer

      i : ℕ
      i = m.current_bucket_to_transfer

      left : ℕ
      left = (table_of m.main).num_buckets - i

      run : Bool × ℕ × Table K V × Table K V × A.Heap
      run = transfer_from P left (keys_per_step P) i (table_of m.main) (table_of m.secondary) h

      swept :
          Swept P
            (keys_per_step P)
            i
            left
            (table_of m.main)
            (table_of m.secondary)
            run.0
            run.1
            run.2
            run.3
      swept = transfer_from-Swept P left (keys_per_step P) i h inv.pair

      is_main : table_of (put_table m.main run.2) ≡ run.2
      is_main = there-put_table P m.main run.2 inv.main_there

      count : left_over (perform_partial_transfer P m h).1 ≡ run.2.total_entries
      count = ap (λ (t : Table K V). t.total_entries) is_main

      none_left : run.1 ≡ i + left → run.2.total_entries ≡ 0
      none_left all =
          let valid = swept.kept.pair.main_valid in
          let nothing = entries-eq-zero run.2.buckets.items (λ j k.
            swept.empty_below done ready.empty_below j
              (omega (arith, valid.width, swept.kept.same_width))) in
          omega (arith, valid.counted, nothing)

  -- What the loop over partial transfers ends with.
  pub record Ends (m : UnorderedMap K V) (r : Bool × UnorderedMap K V × A.Heap) : Type 0 where
    pub in_transfer : InTransfer P r.1
    pub reads : (q : K) → get_either P r.1 q ≡ get_either P m q
    pub nothing_left : r.0 ≡ true → left_over r.1 ≡ 0

  pub transfer_all-Ends :
      (fuel : ℕ) (m : UnorderedMap K V) (h : A.Heap)
      → Ready m
      → left_over m < fuel
      → (r : Bool × UnorderedMap K V × A.Heap) × (transfer_all P fuel m h ≡ some r) × Ends m r
  unfolding transfer_all is_transfer_complete
  transfer_all-Ends zero m h ready enough = absurd (omega arith)
  transfer_all-Ends (suc fuel) m h ready enough = elim (eq-cases (left_over m) 0) [
    | inl done ↦ (
      (true, m, h),
      rw (transfer_all, is_transfer_complete, done),
      record { in_transfer = ready.in_transfer; reads = λ q. refl; nothing_left = λ _. done },
    )
    | inr more ↦
        let (kept, reads, _) = get_either-perform_partial_transfer P m h ready.in_transfer in
        elim (Bool-cases (perform_partial_transfer P m h).0) [
          | inl moved ↦
              let (ready', fewer) = perform_partial_transfer-Ready m h ready moved in
              let (r, run, ends) =
                transfer_all-Ends fuel (perform_partial_transfer P m h).1
                  (perform_partial_transfer P m h).2 ready' (omega (arith, fewer (omega arith))) in
              (
                r,
                rw (transfer_all, is_transfer_complete, ne→eqb (left_over m) 0 more, moved) run,
                record {
                  in_transfer = ends.in_transfer;
                  reads = λ q. ends.reads q ∙ reads q;
                  nothing_left = ends.nothing_left;
                },
              )
          | inr failed ↦ (
            (false, (perform_partial_transfer P m h).1, (perform_partial_transfer P m h).2),
            rw (transfer_all, is_transfer_complete, ne→eqb (left_over m) 0 more, failed),
            record { in_transfer = kept; reads = reads; nothing_left = λ e. cc },
          )
        ]
  ]

  pub get-empty :
      {t : Table K V} (q : K) → IsValid P t → t.total_entries ≡ 0 → Table.get P t q ≡ none
  get-empty {t} q valid nothing =
      get-view P q valid
      ∙ ap (value P) (no_entry (bucket_at t (get_bucket_index P t q)).items short)
    where
      short : length (bucket_at t (get_bucket_index P t q)).items ≡ 0
      short =
          omega (arith, length-le-entries t.buckets.items (get_bucket_index P t q), valid.counted)

      no_entry : (es : List (Entry K V)) → length es ≡ 0 → find P q es ≡ none
      no_entry [] e = refl
      no_entry (x ∷ es) e = absurd (omega arith)

  pub either-none : (x y : Option V) → y ≡ none → either P x y ≡ x
  either-none none y e = e
  either-none (some v) y e = refl

  pub finalize-transfer :
      (fuel : ℕ) (m : UnorderedMap K V) (h : A.Heap)
      → m.state ≡ transfer
      → finalize P fuel m h ≡ complete P fuel m h
  unfolding finalize
  finalize-transfer fuel m h moving =
      ap
        (λ s. elim s [
          | error ↦ some (false, m, h)
          | stable ↦ some (true, m, h)
          | transfer ↦ complete P fuel m h
        ])
        moving

  -- What `complete` makes of the end of the loop.
  unfoldable pub finish :
      Option (Bool × UnorderedMap K V × A.Heap) → Option (Bool × UnorderedMap K V × A.Heap)
  finish none = none
  finish (some (moved, m', h')) =
      let (m'', h'') = end_resize P m' h' in
      if moved then some (true, m'', h'') else some (false, m', h')

  pub complete-finish :
      (fuel : ℕ) (m : UnorderedMap K V) (h : A.Heap)
      → complete P fuel m h ≡ finish (transfer_all P fuel m h)
  unfolding complete finish
  complete-finish fuel m h = elim (Option-cases (transfer_all P fuel m h)) [
    | inl e ↦ rw (e, complete)
    | inr (r, e) ↦ rw (e, complete)
  ]

  -- `finalize` of a map in transfer returns for every fuel above the number of entries of the main
  -- table, which bounds the rounds of the loop. Where it returns true, the map is stable and its
  -- table has for every key the value that the map had; where it returns false, it has run out of
  -- memory, and every lookup in both tables is as before.
  pub finalize-ends :
      (fuel : ℕ) (m : UnorderedMap K V) (h : A.Heap)
      → m.state ≡ transfer
      → Ready m
      → (table_of m.main).total_entries < fuel
      → (r : Bool × UnorderedMap K V × A.Heap) × (finalize P fuel m h ≡ some r)
        × (r.0 ≡ true
            → (r.1.state ≡ stable)
              × ((q : K) → Table.get P (table_of r.1.main) q ≡ get_either P m q))
        × (r.0 ≡ false → (q : K) → get_either P r.1 q ≡ get_either P m q)
  unfolding finish end_resize
  finalize-ends fuel m h moving ready enough =
      let ((done, m', h'), run, ends) = transfer_all-Ends fuel m h ready enough in
      go done m' h' (finalize-transfer fuel m h moving ∙ (complete-finish fuel m h ∙ ap finish run))
        ends
    where
      go :
          (done : Bool) (m' : UnorderedMap K V) (h' : A.Heap)
          → finalize P fuel m h ≡ finish (some (done, m', h'))
          → Ends m (done, m', h')
          → (r : Bool × UnorderedMap K V × A.Heap) × (finalize P fuel m h ≡ some r)
            × (r.0 ≡ true
                → (r.1.state ≡ stable)
                  × ((q : K) → Table.get P (table_of r.1.main) q ≡ get_either P m q))
            × (r.0 ≡ false → (q : K) → get_either P r.1 q ≡ get_either P m q)
      go false m' h' run ends = ((false, m', h'), run, λ e. cc, λ _. ends.reads)
      go true m' h' run ends = (
        (true, (end_resize P m' h').0, (end_resize P m' h').1),
        run,
        λ _. (refl, λ q. sym (all_there q) ∙ (sym (get_either-lookup P m' q) ∙ ends.reads q)),
        λ e. cc,
      )
        where
          all_there :
              (q : K)
              → lookup P (table_of m'.main) (table_of m'.secondary) q
                ≡ Table.get P (table_of m'.secondary) q
          all_there q =
              either-none (Table.get P (table_of m'.secondary) q) (Table.get P (table_of m'.main) q)
                (get-empty q ends.in_transfer.pair.main_valid (ends.nothing_left refl))
