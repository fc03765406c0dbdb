-- ===== src/UnorderedMap/PutCall.antt =====
-- `put` on a map that stands for a function.
use real_time_library.Base.{
  ℕ, ◌+◌, ◌<◌, ◌≡◌, refl, sym, ap, ap₂, ◌∙◌, ◌≢◌, inl, inr, true, false, Option, none, some, arith,
  Bool-cases,
}
use real_time_library.Alloc.{Alloc, size_mod}
use real_time_library.Bucket.{Params}
use real_time_library.Bucket.Search.{value}
use real_time_library.Table
use real_time_library.Table.{Table, table_get_or_create_entry}
use real_time_library.Table.View.{view, get-view}
use real_time_library.UnorderedMap.{
  UnorderedMap, error, stable, transfer, table_of, set_main, set_secondary,
}
use real_time_library.UnorderedMap.Methods.{get_either, put_main, put_secondary, put}
use real_time_library.UnorderedMap.Put.{get-put_main, put_main-stores}
use real_time_library.UnorderedMap.Secondary.{put_secondary-PutBoth}
use real_time_library.UnorderedMap.Finish.{Ready}
use real_time_library.UnorderedMap.Shrink.{set_main-Below, put_secondary-Shorter}
use real_time_library.UnorderedMap.Keep.{
  InTransfer, get_either-lookup, there-put_table, address-put_table,
}
use real_time_library.UnorderedMap.Pair.{lookup}
use real_time_library.UnorderedMap.Public.{after_stable-cases, after_transfer-cases}
use real_time_library.UnorderedMap.Begin.{Rests}
use real_time_library.UnorderedMap.Holds.{
  Holds, resting, moving, broken, updated, Settled, Settled-Holds, after_stable-Settled,
  after_transfer-Settled,
}
use real_time_library.UnorderedMap.Calls.{
  Small, set_main-Rests, put_at, put-put_at, put_main-power, reads_main, same_power,
}

module _ {A : Alloc} {K V : Type 0} (P : Params A K V) where
  put-error :
      (m : UnorderedMap K V) (k : K) (x : V) (h : A.Heap)
      → m.state ≡ error
      → (put P m k x h).0 ≡ false
  unfolding put_at
  put-error m k x h e = ap (λ r. r.0) (put-put_at P m k x h error e)

  value-some : (o : Option (Option (ℕ × V))) (x : V) → value P o ≡ some x → o ≢ some none
  value-some o x e f = let nothing : value P o ≡ none = ap (value P) f in cc (sym e ∙ nothing)

  module _ (m : UnorderedMap K V) (f : K → Option V) (k : K) (small : Small P m) where
    put_resting :
        (x : V) (h : A.Heap)
        → m.state ≡ stable
        → Rests P m
        → ((q : K) → Table.get P (table_of m.main) q ≡ f q)
        → (put_main P (table_of m.main) k x h).0 ≡ true
        → Settled P (updated P f k (some x)) false true (put_at P m k x h stable)
    unfolding put_at
    put_resting x h e rests reads worked =
        let t = (put_main P (table_of m.main) k x h).1 in
        let small_main : (table_of m.main).total_entries + 1 < size_mod =
          omega (arith, rests.room) in
        let (holds, finds) = get-put_main P rests.valid small_main k x h in
        let (views, count) = put_main-stores P rests.valid small_main k x h worked in
        let finds' : (q : K) → Table.get P t q ≡ updated P f k (some x) q =
          λ q. finds q ∙ rw (worked, reads q) refl in
        let valued : (q : K) → view P t q ≢ some none = λ q e. elim (Bool-cases (P.eq k q)) [
          | inl same ↦
              let here : Table.get P t q ≡ some x = finds' q ∙ rw same refl in
              value-some (view P t q) x (sym (get-view P q (holds worked)) ∙ here) e
          | inr other ↦ rests.valued q (sym (views q other) ∙ e)
        ] in
        rw worked (
          after_stable-Settled P (set_main m t) (updated P f k (some x)) _ false true e
            (set_main-Rests P m t rests.main_there (holds worked) valued
              (omega (arith, small.count, count)))
            (reads_main P m f k small t rests.main_there (some x) finds')
            (same_power P m f k small t rests.main_there
              (put_main-power P (table_of m.main) k x h)))

    put_moving :
        (x : V) (h : A.Heap)
        → m.state ≡ transfer
        → Ready P m
        → ((q : K) → get_either P m q ≡ f q)
        → (put_secondary P (table_of m.secondary) (table_of m.main) k x h).0 ≡ true
        → Settled P (updated P f k (some x)) false true (put_at P m k x h transfer)
    unfolding put_at
    put_moving x h e ready reads worked =
        let inv = ready.in_transfer in
        let (_, sec, main, h') = put_secondary P (table_of m.secondary) (table_of m.main) k x h in
        let both = put_secondary-PutBoth P inv.pair small.count k x h in
        let m' = set_main (set_secondary m sec) main in
        let is_main = there-put_table P m.main main inv.main_there in
        let is_sec = there-put_table P m.secondary sec inv.secondary_there in
        let inv' : InTransfer P m' = record {
          main_there = λ e. inv.main_there (sym (address-put_table P m.main main) ∙ e);
          secondary_there =
              λ e. inv.secondary_there (sym (address-put_table P m.secondary sec) ∙ e);
          pair = rw (is_main, is_sec) (both.pair worked);
        } in
        let finds : (q : K) → get_either P m' q ≡ updated P f k (some x) q = λ q.
          get_either-lookup P m' q
          ∙ (ap₂ (λ t u. lookup P t u q) is_main is_sec
              ∙ (both.reads q ∙ rw (worked, ← get_either-lookup P m q, reads q) refl)) in
        rw worked (
          after_transfer-Settled P m' (updated P f k (some x)) h' false true e
            (record {
              in_transfer = inv';
              empty_below =
                  set_main-Below P m main ready
                    (put_secondary-Shorter P (table_of m.secondary) (table_of m.main) k x h);
            })
            finds)

  -- `put`, where it returns true, makes a map that stands for `f` stand for `f` with the new value
  -- under the key.
  pub put-Holds :
      (m : UnorderedMap K V) (f : K → Option V) (k : K) (x : V) (h : A.Heap)
      → Holds P m f
      → Small P m
      → (put P m k x h).0 ≡ true
      → Holds P (put P m k x h).1 (updated P f k (some x))
  unfolding put_at
  put-Holds m f k x h (resting e rests reads) small done =
      let run = put-put_at P m k x h stable e in
      elim (Bool-cases (put_main P (table_of m.main) k x h).0) [
        | inl worked ↦ rw run (Settled-Holds P (put_resting m f k small x h e rests reads worked))
        | inr refused ↦
            elim (after_stable-cases P (set_main m (put_main P (table_of m.main) k x h).1)
              (put_main P (table_of m.main) k x h).2 false (put_main P (table_of m.main) k x h).0) [
                | inl same ↦ cc (sym done ∙ (ap (λ r. r.0) run ∙ (same ∙ refused)))
                | inr (refused_too, _) ↦ cc (sym done ∙ (ap (λ r. r.0) run ∙ refused_too))
              ]
      ]
  put-Holds m f k x h (moving e inv reads) small done =
      let run = put-put_at P m k x h transfer e in
      let (worked, sec, main, h') =
        put_secondary P (table_of m.secondary) (table_of m.main) k x h in
      elim (Bool-cases (put_secondary P (table_of m.secondary) (table_of m.main) k x h).0) [
        | inl worked ↦ rw run (Settled-Holds P (put_moving m f k small x h e inv reads worked))
        | inr refused ↦
            elim (after_transfer-cases P (set_main (set_secondary m sec) main) h' false worked) [
              | inl same ↦ cc (sym done ∙ (ap (λ r. r.0) run ∙ (same ∙ refused)))
              | inr (refused_too, _) ↦ cc (sym done ∙ (ap (λ r. r.0) run ∙ refused_too))
            ]
      ]
  put-Holds m f k x h (broken e) small done = cc (sym done ∙ put-error m k x h e)
