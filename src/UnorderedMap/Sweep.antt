-- ===== src/UnorderedMap/Sweep.antt =====
-- A partial transfer, bucket by bucket: what it keeps, and how far it gets.
use real_time_library.Base.{
  Bool, true, List, [], ◌∷◌, length, ◌⊎◌, eq-cases, ℕ, zero, suc, ◌+◌, ◌<◌, ◌≡◌, refl, ap, ◌∙◌, inl,
  inr, none, some, arith, get_last?, Option-cases,
}
use real_time_library.Alloc.{Alloc, size_mod}
use real_time_library.Bucket.{Params, Entry}
use real_time_library.Table.{Table, bucket_at, set_entry, TableGetOrCreateResult}
use real_time_library.Table.View.{Changes}
use real_time_library.Table.Methods.{
  set_entry-Changes, old, fresh, out_of_memory, table_get_or_create_entry-Obtained,
}
use real_time_library.UnorderedMap.{
  drop_entry, move_entry, Progress, emptied, paused, failed, transfer_bucket, transfer_from,
}
use real_time_library.UnorderedMap.Transfer.{
  view-last, drop_entry-Changes, Drained, drop_entry-Drained,
}
use real_time_library.UnorderedMap.Pair.{
  Pair, Kept, Kept-refl, Kept-trans, moved-Kept, dropped-Kept,
}

module _ {A : Alloc} {K V : Type 0} (P : Params A K V) where
  -- Whatever a transfer from one bucket comes to, it keeps the lookups; unless it fails, it takes as
  -- many entries out of the bucket as it spends of its budget, and ends when either is used up.
  abbrev pub After : ℕ → ℕ → Table K V → Table K V → Progress K V A.Heap → Type 0
  After budget i main sec (emptied left main' sec' h) =
      Kept P main sec main' sec'
      × Drained i budget main left main'
      × (length (bucket_at main' i).items ≡ 0)
  After budget i main sec (paused main' sec' h) =
      Kept P main sec main' sec' × Drained i budget main 0 main'
  After budget i main sec (failed main' sec' h) = Kept P main sec main' sec'

  Drained-suc :
      {i budget left : ℕ} {m m' m'' : Table K V}
      → Drained i 1 m 0 m'
      → Drained i budget m' left m''
      → Drained i (suc budget) m left m''
  Drained-suc a b = record {
    spent = omega (arith, a.spent, b.spent);
    others = λ j ne. b.others j ne ∙ a.others j ne;
  }

  After-suc :
      (budget i : ℕ) {m s m' s' : Table K V} (r : Progress K V A.Heap)
      → Kept P m s m' s'
      → Drained i 1 m 0 m'
      → After budget i m' s' r
      → After (suc budget) i m s r
  After-suc budget i (emptied left main' sec' h) kept drained (kept', drained', nothing) =
      (Kept-trans P kept kept', Drained-suc drained drained', nothing)
  After-suc budget i (paused main' sec' h) kept drained (kept', drained') =
      (Kept-trans P kept kept', Drained-suc drained drained')
  After-suc budget i (failed main' sec' h) kept drained kept' = Kept-trans P kept kept'

  Drained-refl : {i : ℕ} (budget : ℕ) {m : Table K V} → Drained i budget m budget m
  Drained-refl budget = record { spent = refl; others = λ j ne. refl }

  length-get_last? : (xs : List (Entry K V)) → get_last? xs ≡ none → length xs ≡ 0
  length-get_last? [] e = refl
  length-get_last? (x ∷ []) e = cc
  length-get_last? (x ∷ y ∷ xs) e = absurd (omega (arith, length-get_last? (y ∷ xs) e))

  -- One round of the inner loop, with the result for the entry of the secondary table.
  move_round :
      ℕ
      → ℕ
      → Table K V
      → Entry K V
      → TableGetOrCreateResult × Table K V × A.Heap
      → Progress K V A.Heap
  move_round budget i main e (res, sec', h') =
      let (main', h'') = drop_entry P main i h' in
      elim res [
        | none ↦ failed main sec' h'
        | some r ↦ transfer_bucket P budget i main' (move_entry P sec' (some r) e) h''
      ]

  transfer_bucket-After :
      (budget i : ℕ) {main sec : Table K V} (h : A.Heap)
      → Pair P main sec
      → After budget i main sec (transfer_bucket P budget i main sec h)
  unfolding transfer_bucket move_entry move_round
  transfer_bucket-After zero i {main} {sec} h pair =
      elim (Option-cases (get_last? (bucket_at main i).items)) [
        | inl nothing ↦
            rw (nothing, transfer_bucket)
              (Kept-refl P pair, Drained-refl 0, length-get_last? (bucket_at main i).items nothing)
        | inr (e, last) ↦ rw (last, transfer_bucket) (Kept-refl P pair, Drained-refl 0)
      ]
  transfer_bucket-After (suc budget) i {main} {sec} h pair =
      elim (Option-cases (get_last? (bucket_at main i).items)) [
        | inl nothing ↦
            rw (nothing, transfer_bucket)
              (
                Kept-refl P pair,
                Drained-refl (suc budget),
                length-get_last? (bucket_at main i).items nothing,
              )
        | inr (e, last) ↦
            let small : main.total_entries < size_mod = omega (arith, pair.room) in
            let here = view-last P pair.main_valid small i e last h in
            elim (table_get_or_create_entry-Obtained P pair.sec_valid (omega (arith, pair.room))
              e.key h) [
                | old i' j' v loc there run ↦
                    let (c, less) = drop_entry-Changes P pair.main_valid small i e last h in
                    rw (last, transfer_bucket, ap (move_round budget i main e) run)
                      (After-suc budget i _ (dropped-Kept P e.key v pair there c less)
                        (drop_entry-Drained P pair.main_valid small i e last h)
                        (transfer_bucket-After budget i _
                          (dropped-Kept P e.key v pair there c less).pair))
                | fresh i' j' sec' h' missing d more loc run ↦
                    let (c, less) = drop_entry-Changes P pair.main_valid small i e last h' in
                    let (d', same) = set_entry-Changes P e.key i' j' e.val d.valid loc in
                    let both : Changes P sec e.key (some e.val) (set_entry sec' i' j' e) = record {
                      valid = d'.valid;
                      reads = λ q. ground (arith, d'.reads q, d.reads q);
                      same_width = d'.same_width ∙ d.same_width;
                    } in
                    let moved =
                      moved-Kept P e.key e.val pair here missing c both less (same ∙ more) in
                    rw (last, transfer_bucket, ap (move_round budget i main e) run)
                      (After-suc budget i _ moved
                        (drop_entry-Drained P pair.main_valid small i e last h')
                        (transfer_bucket-After budget i _ moved.pair))
                | out_of_memory h' run ↦
                    rw (last, transfer_bucket, ap (move_round budget i main e) run)
                      (Kept-refl P pair)
              ]
      ]

  -- What a transfer from the buckets from `i` on comes to: `i'` is the bucket it stops at.
  pub record Swept (budget i : ℕ) (left : ℕ) (main sec : Table K V) (done : Bool) (i' : ℕ)
      (main' sec' : Table K V) : Type 0 where
    pub kept : Kept P main sec main' sec'
    pub empty_below :
        done ≡ true
        → ((j : ℕ) → j < i → length (bucket_at main j).items ≡ 0)
        → (j : ℕ) → j < i'
        → length (bucket_at main' j).items ≡ 0
    pub moved_on :
        done ≡ true → (i' ≡ i + left) ⊎ (main'.total_entries + budget ≡ main.total_entries)

  pub transfer_from-Swept :
      (left budget i : ℕ) {main sec : Table K V} (h : A.Heap)
      → Pair P main sec
      → let (done, i', main', sec', _) = transfer_from P left budget i main sec h in
        Swept budget i left main sec done i' main' sec'
  unfolding transfer_from
  transfer_from-Swept zero budget i h pair = record {
    kept = Kept-refl P pair;
    empty_below = λ _ below. below;
    moved_on = λ _. inl (omega arith);
  }
  transfer_from-Swept (suc left) budget i {main} {sec} h pair =
      go (transfer_bucket P budget i main sec h) refl (transfer_bucket-After budget i h pair)
        (λ budget' m s h' pair'. transfer_from-Swept left budget' (i + 1) h' pair')
    where
      go :
          (r : Progress K V A.Heap)
          → transfer_bucket P budget i main sec h ≡ r
          → After budget i main sec r
          → ((budget' : ℕ) (m s : Table K V) (h' : A.Heap)
              → Pair P m s
              → let (done, i', m', s', _) = transfer_from P left budget' (i + 1) m s h' in
                Swept budget' (i + 1) left m s done i' m' s')
          → let (done, i', main', sec', _) = transfer_from P (suc left) budget i main sec h in
            Swept budget i (suc left) main sec done i' main' sec'
      go (emptied budget' m s h') run (kept, drained, nothing) others =
          let rest = others budget' m s h' kept.pair in
          rw (run, transfer_from)
            (record {
              kept = Kept-trans P kept rest.kept;
              empty_below = λ done below. rest.empty_below done λ j k. elim (eq-cases j i) [
                | inl same ↦ rw same nothing
                | inr ne ↦ rw (drained.others j ne) (below j (omega arith))
              ];
              moved_on = λ done. elim (rest.moved_on done) [
                | inl all ↦ inl (omega arith)
                | inr some_moved ↦ inr (omega (arith, drained.spent))
              ];
            })
      go (paused m s h') run (kept, drained) others =
          rw (run, transfer_from)
            (record {
              kept = kept;
              empty_below =
                  λ _ below j k. rw (drained.others j (λ e. absurd (omega arith))) (below j k);
              moved_on = λ _. inr (omega (arith, drained.spent));
            })
      go (failed m s h') run kept others =
          rw (run, transfer_from)
            (record { kept = kept; empty_below = λ e. cc; moved_on = λ e. cc })
