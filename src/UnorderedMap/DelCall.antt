-- ===== src/UnorderedMap/DelCall.antt =====
-- `del` on a map that stands for a function.
use real_time_library.Base.{
  ℕ, ◌≡◌, refl, sym, ap, ◌∙◌, ◌≢◌, inl, inr, Bool, true, false, Option, none, some, arith,
  Bool-cases,
}
use real_time_library.Alloc.{Alloc}
use real_time_library.Bucket.{Params}
use real_time_library.Bucket.Search.{value}
use real_time_library.Table
use real_time_library.Table.{Table, table_get_or_create_entry}
use real_time_library.Table.Methods.{del-cases}
use real_time_library.Table.View.{view, get-view, Changes}
use real_time_library.Table.Lookup.{Changes-get}
use real_time_library.UnorderedMap.{
  UnorderedMap, error, stable, transfer, table_of, set_main, after_stable,
}
use real_time_library.UnorderedMap.Methods.{get_either, del, del_either}
use real_time_library.UnorderedMap.Delete.{Stale, Current, del_either-Deleted}
use real_time_library.UnorderedMap.Finish.{Ready}
use real_time_library.UnorderedMap.Shrink.{del_either-Ready}
use mathlib.Core.Path.{subst}
use real_time_library.UnorderedMap.Public.{is_some}
use real_time_library.UnorderedMap.Begin.{Rests}
use real_time_library.UnorderedMap.Holds.{
  Holds, resting, moving, broken, updated, Settled, after_stable-Settled, after_transfer-Settled,
}
use real_time_library.UnorderedMap.Calls.{
  Small, set_main-Rests, del_at, del-del_at, del-power, reads_main, same_power,
}

module _ {A : Alloc} {K V : Type 0} (P : Params A K V) where
  module _ (m : UnorderedMap K V) (f : K → Option V) (k : K) (small : Small P m) where
    found-is_some :
        (v : Option (ℕ × V)) → f k ≡ value P (some v) → v ≢ none → is_some P (f k) ≡ true
    found-is_some none e there = absurd (there refl)
    found-is_some (some (p, x)) e there = ap (is_some P) e

    del_resting :
        (h : A.Heap)
        → m.state ≡ stable
        → Rests P m
        → ((q : K) → Table.get P (table_of m.main) q ≡ f q)
        → Settled P (updated P f k none) false (is_some P (f k)) (del_at P m k h stable)
    unfolding del_at
    del_resting h e rests reads = elim (del-cases P rests.valid (omega (arith, rests.room)) k h) [
      | inl (missing, run) ↦
          let nothing : f k ≡ none =
            sym (reads k) ∙ (get-view P k rests.valid ∙ ap (value P) missing) in
          let finds : (q : K) → Table.get P (table_of m.main) q ≡ updated P f k none q = λ q.
            reads q ∙ (elim (Bool-cases (P.eq k q)) [
              | inl same ↦ rw same (ap f (sym ((P.eq_iff k q).0 same)) ∙ nothing)
              | inr other ↦ rw other refl
            ]) in
          rw (nothing) (
            subst (λ r. Settled P (updated P f k none) false false (finish r)) (sym run)
              (after_stable-Settled P (set_main m (table_of m.main)) (updated P f k none) h false
                false e
                (set_main-Rests P m (table_of m.main) rests.main_there rests.valid rests.valued
                  rests.room)
                (reads_main P m f k small (table_of m.main) rests.main_there none finds)
                (same_power P m f k small (table_of m.main) rests.main_there refl)))
      | inr (t, h', run, (v, here), d, fewer) ↦
          let full : f k ≡ value P (some v) =
            sym (reads k) ∙ (get-view P k rests.valid ∙ ap (value P) here) in
          let there : is_some P (f k) ≡ true =
            found-is_some v full (λ e. rests.valued k (here ∙ ap some e)) in
          let finds : (q : K) → Table.get P t q ≡ updated P f k none q = λ q.
            Changes-get P k q none rests.valid d ∙ (elim (Bool-cases (P.eq k q)) [
              | inl same ↦ rw same refl
              | inr other ↦ rw other (reads q)
            ]) in
          rw there (
            subst (λ r. Settled P (updated P f k none) false true (finish r)) (sym run)
              (after_stable-Settled P (set_main m t) (updated P f k none) h' false true e
                (set_main-Rests P m t rests.main_there d.valid (λ q e. gone v d q e)
                  (omega (arith, rests.room)))
                (reads_main P m f k small t rests.main_there none finds)
                (same_power P m f k small t rests.main_there
                  (sym (ap (λ r. r.1.power_of_2_size) run) ∙ del-power P (table_of m.main) k h))))
    ]
      where
        -- What `del` does with the table.
        finish : Bool × Table K V × A.Heap → Bool × UnorderedMap K V × A.Heap
        finish (removed, t, h') = after_stable P (set_main m t) h' false removed

        gone :
            {t : Table K V} (v : Option (ℕ × V))
            → Changes P (table_of m.main) k none t
            → (q : K) → view P t q ≢ some none
        gone v d q e = elim (Bool-cases (P.eq k q)) [
          | inl same ↦ let here : none ≡ some none = rw (d.reads q, same) at e in cc here
          | inr other ↦ rests.valued q (rw (d.reads q, other) at e)
        ]

    del_moving :
        (h : A.Heap)
        → m.state ≡ transfer
        → Ready P m
        → ((q : K) → get_either P m q ≡ f q)
        → Current P m k
        → Settled P (updated P f k none) false (is_some P (f k)) (del_at P m k h transfer)
    unfolding del_at
    del_moving h e ready reads current =
        let deleted = del_either-Deleted P ready.in_transfer k h in
        let answer : (del_either P m k h).0 ≡ is_some P (f k) =
          deleted.answers current ∙ ap (is_some P) (reads k) in
        rw answer (
          after_transfer-Settled P (del_either P m k h).1 (updated P f k none) _ false
            (is_some P (f k)) (deleted.same_state ∙ e)
            (del_either-Ready P k h ready deleted.in_transfer)
            (λ q. deleted.deletes current q ∙ rw (reads q) refl))

    del_lost :
        (h : A.Heap)
        → m.state ≡ transfer
        → Ready P m
        → ((q : K) → get_either P m q ≡ f q)
        → Stale P m k
        → Settled P f false true (del_at P m k h transfer)
    unfolding del_at
    del_lost h e ready reads stale =
        let deleted = del_either-Deleted P ready.in_transfer k h in
        rw ((deleted.claims stale).0) (
          after_transfer-Settled P (del_either P m k h).1 f _ false true (deleted.same_state ∙ e)
            (del_either-Ready P k h ready deleted.in_transfer)
            (λ q. deleted.keeps stale q ∙ reads q))

  pub del-error :
      (m : UnorderedMap K V) (k : K) (h : A.Heap) → m.state ≡ error → (del P m k h).1 ≡ m
  unfolding del_at
  del-error m k h e = ap (λ r. r.1) (del-del_at P m k h error e)

  -- In transfer, main may still have an entry under a key whose value was moved by a `put`.
  abbrev pub Deletable : UnorderedMap K V → K → Type 0
  Deletable m k = m.state ≡ transfer → Current P m k

  -- `del` of a map that stands for `f` makes it stand for `f` without the key and says whether the
  -- key was there, unless main still has an entry under the key whose value was moved.
  pub del-Settled :
      (m : UnorderedMap K V) (f : K → Option V) (k : K) (h : A.Heap)
      → Holds P m f
      → Small P m
      → m.state ≢ error
      → Deletable m k
      → Settled P (updated P f k none) false (is_some P (f k)) (del P m k h)
  del-Settled m f k h (resting e rests reads) small fine current =
      rw (del-del_at P m k h stable e) (del_resting m f k small h e rests reads)
  del-Settled m f k h (moving e inv reads) small fine current =
      rw (del-del_at P m k h transfer e) (del_moving m f k small h e inv reads (current e))
  del-Settled m f k h (broken e) small fine current = absurd (fine e)

  -- `del` where it is lost: it returns true and the map stands for the same function afterwards.
  pub del-lost :
      (m : UnorderedMap K V) (f : K → Option V) (k : K) (h : A.Heap)
      → Holds P m f
      → Small P m
      → m.state ≡ transfer
      → Stale P m k
      → Settled P f false true (del P m k h)
  del-lost m f k h (resting e rests reads) small moves stale = cc (sym e ∙ moves)
  del-lost m f k h (moving e inv reads) small moves stale =
      rw (del-del_at P m k h transfer e) (del_lost m f k small h e inv reads stale)
  del-lost m f k h (broken e) small moves stale = cc (sym e ∙ moves)
