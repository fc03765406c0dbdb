-- ===== src/UnorderedMap/Holds.antt =====
-- What a map stands for: a function from keys to values. The ends of the operations keep it.
use real_time_library.Base.{
  ◌<◌, ◌≡◌, refl, sym, ◌∙◌, ◌≢◌, inl, inr, Option, arith, if◌then◌else◌, eqb→eq, Bool-cases,
}
use real_time_library.Alloc.{Alloc}
use real_time_library.Bucket.{Params}
use real_time_library.Table
use real_time_library.Table.{Table, get_next_power_of_2}
use real_time_library.UnorderedMap.{
  UnorderedMap, MapState, error, stable, transfer, table_of, begin_resize, end_resize,
  perform_partial_transfer, is_transfer_complete, should_resize, after_stable, after_transfer,
}
use real_time_library.UnorderedMap.Methods.{get_either}
use real_time_library.UnorderedMap.Keep.{
  InTransfer, get_either-lookup, get_either-perform_partial_transfer,
}
use real_time_library.UnorderedMap.Finish.{
  Ready, perform_partial_transfer-Ready, get-empty, either-none,
}
use real_time_library.UnorderedMap.Begin.{Rests, begin_resize-Begins}

-- The two working states are not the error state.
stable-error : {s : MapState} → s ≡ stable → s ≢ error
stable-error e f = cc (sym e ∙ f)

transfer-error : {s : MapState} → s ≡ transfer → s ≢ error
transfer-error e f = cc (sym e ∙ f)

module _ {A : Alloc} {K V : Type 0} (P : Params A K V) where
  -- The map stands for the function `f` from keys to values, or is in its error state.
  pub data Holds (m : UnorderedMap K V) (f : K → Option V) : Type 0 where
    resting :
        m.state ≡ stable → Rests P m → ((q : K) → Table.get P (table_of m.main) q ≡ f q) → Holds m f
    moving : m.state ≡ transfer → Ready P m → ((q : K) → get_either P m q ≡ f q) → Holds m f
    broken : m.state ≡ error → Holds m f

  -- The function with another value, or none, for one key.
  abbrev pub updated : (K → Option V) → K → Option V → K → Option V
  updated f k o q = if P.eq k q then o else f q

  -- What the second half of an operation makes of its result and of the map.
  pub data Settled {R : Type 0} (f : K → Option V) (failure result : R)
      (r : R × UnorderedMap K V × A.Heap) : Type 0 where
    settled : r.0 ≡ result → r.1.state ≢ error → Holds r.1 f → Settled f failure result r
    failed : r.0 ≡ failure → r.1.state ≡ error → Settled f failure result r

  pub Settled-Holds :
      {R : Type 0} {f : K → Option V} {failure result : R} {r : R × UnorderedMap K V × A.Heap}
      → Settled f failure result r
      → Holds r.1 f
  Settled-Holds (settled same fine holds) = holds
  Settled-Holds (failed same e) = broken e

  -- The end of an operation in the stable state, on a table of a power below 31.
  pub after_stable-Settled :
      {R : Type 0} (m : UnorderedMap K V) (f : K → Option V) (h : A.Heap) (failure result : R)
      → m.state ≡ stable
      → Rests P m
      → ((q : K) → Table.get P (table_of m.main) q ≡ f q)
      → (table_of m.main).power_of_2_size < 31
      → Settled f failure result (after_stable P m h failure result)
  unfolding after_stable
  after_stable-Settled m f h failure result in_stable rests reads small =
      elim (Bool-cases (should_resize m)) [
        | inr not_due ↦
            rw (not_due, after_stable)
              (settled refl (stable-error in_stable) (resting in_stable rests reads))
        | inl due ↦
            let next = get_next_power_of_2 (table_of m.main) in
            let begins = begin_resize-Begins P m rests next h (omega arith) in
            elim (Bool-cases (begin_resize P m next h).0) [
              | inl begun ↦
                  let moves = begins.state_transfer begun in
                  rw (due, begun, after_stable)
                    (settled refl (transfer-error moves) (
                      moving moves
                        (record {
                          in_transfer = begins.in_transfer begun;
                          empty_below = λ j k. absurd (omega (arith, begins.starts begun));
                        })
                        (λ q. begins.reads begun q ∙ reads q)))
              | inr refused ↦ rw (due, refused, after_stable) (failed refl refl)
            ]
      ]

  -- The end of a resize, once the main table has no entries left.
  pub end_resize-Rests :
      (m : UnorderedMap K V) (h : A.Heap)
      → InTransfer P m
      → (table_of m.main).total_entries ≡ 0
      → Rests P (end_resize P m h).0
        × ((q : K) → Table.get P (table_of (end_resize P m h).0.main) q ≡ get_either P m q)
  unfolding end_resize
  end_resize-Rests m h inv nothing = (
    record {
      main_there = inv.secondary_there;
      valid = inv.pair.sec_valid;
      valued = inv.pair.valued;
      room = omega (arith, inv.pair.room);
    },
    λ q. sym (
        get_either-lookup P m q
        ∙ either-none P (Table.get P (table_of m.secondary) q) (Table.get P (table_of m.main) q)
            (get-empty P q inv.pair.main_valid nothing)),
  )

  partial-state :
      (m : UnorderedMap K V) (h : A.Heap) → (perform_partial_transfer P m h).1.state ≡ m.state
  unfolding perform_partial_transfer
  partial-state m h = refl

  -- The end of an operation in the state of transfer.
  pub after_transfer-Settled :
      {R : Type 0} (m : UnorderedMap K V) (f : K → Option V) (h : A.Heap) (failure result : R)
      → m.state ≡ transfer
      → Ready P m
      → ((q : K) → get_either P m q ≡ f q)
      → Settled f failure result (after_transfer P m h failure result)
  unfolding after_transfer is_transfer_complete end_resize
  after_transfer-Settled m f h failure result moves ready reads =
      let (inv', same, _) = get_either-perform_partial_transfer P m h ready.in_transfer in
      let still : (perform_partial_transfer P m h).1.state ≡ transfer = partial-state m h ∙ moves in
      elim (Bool-cases (perform_partial_transfer P m h).0) [
        | inr refused ↦ rw (refused, after_transfer) (failed refl refl)
        | inl moved ↦ elim (Bool-cases (is_transfer_complete (perform_partial_transfer P m h).1)) [
          | inr more ↦
              rw (moved, more, after_transfer)
                (settled refl (transfer-error still) (
                  moving still (perform_partial_transfer-Ready P m h ready moved).0
                    (λ q. same q ∙ reads q)))
          | inl complete ↦
              let (rests, kept) =
                end_resize-Rests _ (perform_partial_transfer P m h).2 inv' (eqb→eq _ _ complete) in
              rw (moved, complete, after_transfer)
                (settled refl (λ e. cc) (resting refl rests (λ q. kept q ∙ (same q ∙ reads q))))
        ]
      ]
