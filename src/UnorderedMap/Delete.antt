-- ===== src/UnorderedMap/Delete.antt =====
-- `del` in the state of transfer: in main, or else in the secondary table.
use real_time_library.Base.{
  ℕ, ◌+◌, ◌≤◌, ◌≡◌, refl, sym, ap, ap₂, ◌∙◌, ◌≢◌, inl, inr, Bool, true, Option, none, some, arith,
  if◌then◌else◌, Bool-cases, Option-cases,
}
use mathlib.Core.Path.{subst}
use real_time_library.Alloc.{Alloc}
use real_time_library.Bucket.{Params}
use real_time_library.Bucket.Search.{value, eq_self}
use real_time_library.Table
use real_time_library.Table.{Table}
use real_time_library.Table.View.{view, Changes}
use real_time_library.Table.Methods.{del-cases}
use real_time_library.UnorderedMap.{UnorderedMap, table_of, set_main, set_secondary, put_table}
use real_time_library.UnorderedMap.Methods.{get_either, del_either}
use real_time_library.UnorderedMap.Pair.{either, lookup, lookup-view, Pair}
use real_time_library.UnorderedMap.Keep.{
  InTransfer, get_either-lookup, there-put_table, address-put_table,
}
use real_time_library.UnorderedMap.Public.{is_some}

module _ {A : Alloc} {K V : Type 0} (P : Params A K V) where
  -- Main has an entry under the key whose value was moved away by a `put`.
  abbrev pub Stale : UnorderedMap K V → K → Type 0
  Stale m k = view P (table_of m.main) k ≡ some none

  abbrev pub Current : UnorderedMap K V → K → Type 0
  Current m k = view P (table_of m.main) k ≢ some none

  without_main :
      {main sec main' : Table K V} (k : K)
      → Pair P main sec
      → Changes P main k none main'
      → main'.total_entries ≤ main.total_entries
      → Pair P main' sec
  without_main k pair c fewer = record {
    main_valid = c.valid;
    sec_valid = pair.sec_valid;
    valued = pair.valued;
    covered = λ q e. ground (arith, c.reads q, pair.covered q);
    apart = λ q there. elim (Bool-cases (P.eq k q)) [
      | inl e ↦ rw (c.reads q, e)
      | inr e ↦ rw (c.reads q, e) (pair.apart q there)
    ];
    room = omega (arith, pair.room);
  }

  without_secondary :
      {main sec sec' : Table K V} (k : K)
      → Pair P main sec
      → view P main k ≡ none
      → Changes P sec k none sec'
      → sec'.total_entries ≤ sec.total_entries
      → Pair P main sec'
  without_secondary {main} k pair missing d fewer = record {
    main_valid = pair.main_valid;
    sec_valid = d.valid;
    valued = λ q e. ground (arith, d.reads q, pair.valued q);
    covered = λ q e f. elim (Bool-cases (P.eq k q)) [
      | inl same ↦
          let here : view P main k ≡ some none = rw ((P.eq_iff k q).0 same) e in
          cc (sym missing ∙ here)
      | inr other ↦ pair.covered q e (rw (d.reads q, other) at f)
    ];
    apart = λ q there. elim (Bool-cases (P.eq k q)) [
      | inl e ↦ absurd (there (rw (d.reads q, e)))
      | inr e ↦ pair.apart q (λ f. there (rw (d.reads q, e) f))
    ];
    room = omega (arith, pair.room);
  }

  module _ {main sec : Table K V} (pair : Pair P main sec) (k : K) where
    same_key : (q : K) → P.eq k q ≡ true → k ≡ q
    same_key q e = (P.eq_iff k q).0 e

    -- The secondary table has no entry under a key that main has a value for.
    missing_secondary : (p : ℕ) (x : V) → view P main k ≡ some (some (p, x)) → view P sec k ≡ none
    missing_secondary p x here = elim (Option-cases (view P sec k)) [
      | inl e ↦ e
      | inr (w, e) ↦
          let empty = pair.apart k (λ f. cc (sym e ∙ f)) in
          let full : value P (view P main k) ≡ some x = rw here in cc (sym empty ∙ full)
    ]

    gone_main :
        {main' : Table K V} (p : ℕ) (x : V)
        → view P main k ≡ some (some (p, x))
        → Changes P main k none main'
        → (q : K) → lookup P main' sec q ≡ (if P.eq k q then none else lookup P main sec q)
    gone_main {main'} p x here c q =
        lookup-view P c.valid pair.sec_valid q ∙ elim (Bool-cases (P.eq k q)) [
          | inl e ↦ rw (c.reads q, e, ← same_key q e, missing_secondary p x here)
          | inr e ↦ rw (c.reads q, e) (sym (lookup-view P pair.main_valid pair.sec_valid q))
        ]

    gone_secondary :
        {sec' : Table K V}
        → view P main k ≡ none
        → Changes P sec k none sec'
        → (q : K) → lookup P main sec' q ≡ (if P.eq k q then none else lookup P main sec q)
    gone_secondary {sec'} missing d q =
        lookup-view P pair.main_valid d.valid q ∙ elim (Bool-cases (P.eq k q)) [
          | inl e ↦ rw (d.reads q, e, ← same_key q e, missing)
          | inr e ↦ rw (d.reads q, e) (sym (lookup-view P pair.main_valid pair.sec_valid q))
        ]

    nothing_found :
        view P main k ≡ none
        → view P sec k ≡ none
        → (q : K) → lookup P main sec q ≡ (if P.eq k q then none else lookup P main sec q)
    nothing_found no_main no_sec q = elim (Bool-cases (P.eq k q)) [
      | inl e ↦
          rw e
            (lookup-view P pair.main_valid pair.sec_valid q ∙ rw (← same_key q e, no_main, no_sec))
      | inr e ↦ rw e
    ]

    -- The entry that is left of main under a key of the secondary table does not count.
    stale_main :
        {main' : Table K V}
        → view P main k ≡ some none
        → Changes P main k none main'
        → (q : K) → lookup P main' sec q ≡ lookup P main sec q
    stale_main {main'} here c q =
        lookup-view P c.valid pair.sec_valid q
        ∙ (elim (Bool-cases (P.eq k q)) [
          | inl e ↦ rw (c.reads q, e, ← same_key q e, here)
          | inr e ↦ rw (c.reads q, e)
        ]
            ∙ sym (lookup-view P pair.main_valid pair.sec_valid q))

    still_there : view P main k ≡ some none → is_some P (lookup P main sec k) ≡ true
    still_there here = elim (Option-cases (view P sec k)) [
      | inl e ↦ absurd (pair.covered k here e)
      | inr (none, e) ↦ absurd (pair.valued k e)
      | inr (some (p, x), e) ↦
          let found : lookup P main sec k ≡ some x =
            lookup-view P pair.main_valid pair.sec_valid k ∙ rw e in
          rw found
    ]

  -- What `del_either` has made of a map: its result and the map.
  pub record Deleted (m : UnorderedMap K V) (k : K) (removed : Bool) (m' : UnorderedMap K V)
      : Type 0 where
    pub in_transfer : InTransfer P m'
    pub same_state : m'.state ≡ m.state
    pub deletes :
        Current m k → (q : K) → get_either P m' q ≡ (if P.eq k q then none else get_either P m q)
    pub answers : Current m k → removed ≡ is_some P (get_either P m k)
    pub keeps : Stale m k → (q : K) → get_either P m' q ≡ get_either P m q
    pub claims : Stale m k → (removed ≡ true) × (is_some P (get_either P m k) ≡ true)

  module _ {m : UnorderedMap K V} (inv : InTransfer P m) (k : K) where
    abbrev main : Table K V
    main = table_of m.main

    abbrev sec : Table K V
    sec = table_of m.secondary

    same_main : (t : Table K V) → table_of (put_table m.main t) ≡ t
    same_main t = there-put_table P m.main t inv.main_there

    same_secondary : (t : Table K V) → table_of (put_table m.secondary t) ≡ t
    same_secondary t = there-put_table P m.secondary t inv.secondary_there

    main-InTransfer : (main' : Table K V) → Pair P main' sec → InTransfer P (set_main m main')
    main-InTransfer main' pair = record {
      main_there = λ e. inv.main_there (sym (address-put_table P m.main main') ∙ e);
      secondary_there = inv.secondary_there;
      pair = rw (same_main main') pair;
    }

    main-reads :
        (main' : Table K V) (q : K) → get_either P (set_main m main') q ≡ lookup P main' sec q
    main-reads main' q =
        get_either-lookup P (set_main m main') q ∙ ap (λ t. lookup P t sec q) (same_main main')

    both-InTransfer :
        (sec' : Table K V) → Pair P main sec' → InTransfer P (set_secondary (set_main m main) sec')
    both-InTransfer sec' pair = record {
      main_there = λ e. inv.main_there (sym (address-put_table P m.main main) ∙ e);
      secondary_there = λ e. inv.secondary_there (sym (address-put_table P m.secondary sec') ∙ e);
      pair = rw (same_main main, same_secondary sec') pair;
    }

    both-reads :
        (sec' : Table K V) (q : K)
        → get_either P (set_secondary (set_main m main) sec') q ≡ lookup P main sec' q
    both-reads sec' q =
        get_either-lookup P (set_secondary (set_main m main) sec') q
        ∙ ap₂ (λ t u. lookup P t u q) (same_main main) (same_secondary sec')

    -- The lookups of the map without the key, from those of its tables.
    without :
        {o : Option V} (q : K)
        → o ≡ (if P.eq k q then none else lookup P main sec q)
        → o ≡ (if P.eq k q then none else get_either P m q)
    without q e = e ∙ ap (λ o. if P.eq k q then none else o) (sym (get_either-lookup P m q))

    -- What the code does with the result for main, and with the one for the secondary table.
    settle : Bool × Table K V × A.Heap → Bool × UnorderedMap K V × A.Heap
    settle (removed, main', h') =
        let (removed', sec', h'') = Table.del P sec k h' in
        if removed
        then (true, set_main m main', h')
        else (removed', set_secondary (set_main m main') sec', h'')

    settle_secondary : Bool × Table K V × A.Heap → Bool × UnorderedMap K V × A.Heap
    settle_secondary (removed', sec', h'') = (removed', set_secondary (set_main m main) sec', h'')

    secondary-Deleted :
        (h : A.Heap)
        → view P main k ≡ none
        → let (removed, m', _) = settle_secondary (Table.del P sec k h) in Deleted m k removed m'
    unfolding settle_secondary
    secondary-Deleted h missing =
        elim (del-cases P inv.pair.sec_valid (omega (arith, inv.pair.room)) k h) [
          | inl (no_sec, run) ↦
              let reads = λ (q : K). nothing_found inv.pair k missing no_sec q in
              let nothing : get_either P m k ≡ none =
                get_either-lookup P m k ∙ (reads k ∙ rw (eq_self P k)) in
              subst (λ r. Deleted m k r.0 r.1) (sym (ap settle_secondary run))
                (record {
                  in_transfer = both-InTransfer sec inv.pair;
                  same_state = refl;
                  deletes = λ _ q. without q (both-reads sec q ∙ reads q);
                  answers = λ _. rw nothing;
                  keeps = λ f. cc (sym missing ∙ f);
                  claims = λ f. cc (sym missing ∙ f);
                })
          | inr (sec', h', run, (v, there), d, fewer) ↦
              subst (λ r. Deleted m k r.0 r.1) (sym (ap settle_secondary run))
                (record {
                  in_transfer =
                      both-InTransfer sec' (without_secondary k inv.pair missing d (omega arith));
                  same_state = refl;
                  deletes =
                      λ _ q. without q (both-reads sec' q ∙ gone_secondary inv.pair k missing d q);
                  answers = λ _. sym (ap (is_some P) (get_either-lookup P m k) ∙ present v there);
                  keeps = λ f. cc (sym missing ∙ f);
                  claims = λ f. cc (sym missing ∙ f);
                })
        ]
      where
        present :
            (v : Option (ℕ × V)) → view P sec k ≡ some v → is_some P (lookup P main sec k) ≡ true
        present none there = absurd (inv.pair.valued k there)
        present (some (p, x)) there =
            let found : lookup P main sec k ≡ either P (some x) none =
              lookup-view P inv.pair.main_valid inv.pair.sec_valid k ∙ rw there in
            rw found

    main-Deleted :
        (main' : Table K V) (v : Option (ℕ × V))
        → view P main k ≡ some v
        → Changes P main k none main'
        → main'.total_entries + 1 ≡ main.total_entries
        → Deleted m k true (set_main m main')
    main-Deleted main' none here c fewer = record {
      in_transfer = main-InTransfer main' (without_main k inv.pair c (omega arith));
      same_state = refl;
      deletes = λ current. absurd (current here);
      answers = λ current. absurd (current here);
      keeps = λ _ q.
          main-reads main' q ∙ (stale_main inv.pair k here c q ∙ sym (get_either-lookup P m q));
      claims = λ _. (refl, ap (is_some P) (get_either-lookup P m k) ∙ still_there inv.pair k here);
    }
    main-Deleted main' (some (p, x)) here c fewer = record {
      in_transfer = main-InTransfer main' (without_main k inv.pair c (omega arith));
      same_state = refl;
      deletes = λ _ q. without q (main-reads main' q ∙ gone_main inv.pair k p x here c q);
      answers = λ _. sym (ap (is_some P) (get_either-lookup P m k) ∙ present);
      keeps = λ f. cc (sym here ∙ f);
      claims = λ f. cc (sym here ∙ f);
    }
      where
        present : is_some P (lookup P main sec k) ≡ true
        present =
            let found = lookup-view P inv.pair.main_valid inv.pair.sec_valid k in
            let absent = missing_secondary inv.pair k p x here in
            let value_here : lookup P main sec k ≡ some x = found ∙ rw (absent, here) in
            rw value_here

    -- `del` on the two tables of a map in transfer keeps the invariant. Where main has no entry under
    -- the key that a `put` has moved the value of, the key is gone afterwards and all other lookups
    -- are as before, and the result says whether the key was there. But where main still has such an
    -- entry, `del` removes that one, returns true, and leaves the value of the key in the secondary
    -- table: every lookup, that of the key included, finds what it found before.
    pub del_either-Deleted :
        (h : A.Heap) → let (removed, m', _) = del_either P m k h in Deleted m k removed m'
    unfolding del_either settle settle_secondary
    del_either-Deleted h =
        elim (del-cases P inv.pair.main_valid (omega (arith, inv.pair.room)) k h) [
          | inl (missing, run) ↦ rw (ap settle run) (secondary-Deleted h missing)
          | inr (main', h', run, (v, here), c, fewer) ↦
              rw (ap settle run) (main-Deleted main' v here c fewer)
        ]
