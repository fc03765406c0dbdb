-- ===== src/UnorderedMap/Secondary.antt =====
-- `put` in the state of transfer: the work on the two tables.
use real_time_library.Base.{
  ℕ, ◌+◌, ◌≤◌, ◌<◌, ◌≡◌, refl, sym, ap, ◌∙◌, inl, inr, Bool, true, false, ◌&&◌, Option, none, some,
  List, [], ◌∷◌, arith, if◌then◌else◌, length, set, ne→eqb, Bool-cases, Option-cases,
  get_or-set_self,
}
use real_time_library.Alloc.{Alloc, size_mod}
use real_time_library.Vector.{new}
use real_time_library.Bucket.{Params, Entry, find_index}
use real_time_library.Bucket.Search.{value, eq_self, find_index-Hit, find_index-cases, find-none}
use real_time_library.Table
use real_time_library.Table.{
  Table, bucket_at, set_entry, get_bucket_index, table_get_entry, TableGetOrCreateResult,
  table_get_or_create_entry,
}
use real_time_library.Table.View.{IsValid, view, get-view, home-inside, Changes}
use real_time_library.Table.Methods.{
  Located, set_entry-Changes, old, fresh, out_of_memory, table_get_or_create_entry-Obtained,
}
use real_time_library.UnorderedMap.{entry_at}
use real_time_library.UnorderedMap.Methods.{construct_at, take_over, put_secondary}
use real_time_library.UnorderedMap.Store.{stored, kept, rolled_back, construct_at-Constructed}
use real_time_library.UnorderedMap.Put.{get-recount}
use real_time_library.Table.Lookup.{Changes-get}
use real_time_library.UnorderedMap.Pair.{either, lookup, lookup-view, Pair}

module _ {A : Alloc} {K V : Type 0} (P : Params A K V) where
  Changes-refl :
      {t : Table K V} (k : K) (v : Option (Option (ℕ × V)))
      → IsValid P t
      → view P t k ≡ v
      → Changes P t k v t
  Changes-refl {t} k v valid here = record {
    valid = valid;
    reads = λ q. elim (Bool-cases (P.eq k q)) [
      | inl e ↦ rw (e, ← (P.eq_iff k q).0 e, here)
      | inr e ↦ rw e
    ];
    same_width = refl;
  }

  Changes-trans :
      {t t' t'' : Table K V} (k : K) (v w : Option (Option (ℕ × V)))
      → Changes P t k v t'
      → Changes P t' k w t''
      → Changes P t k w t''
  Changes-trans k v w c d = record {
    valid = d.valid;
    reads = λ q. ground (arith, d.reads q, c.reads q);
    same_width = d.same_width ∙ c.same_width;
  }

  -- A value that is stored in the secondary table, while main has none left under the key.
  stored-Pair :
      {main sec main' sec' : Table K V} (k : K) (w : Option (Option (ℕ × V))) (p : ℕ) (x : V)
      → Pair P main sec
      → Changes P main k w main'
      → value P w ≡ none
      → Changes P sec k (some (some (p, x))) sec'
      → main'.total_entries ≡ main.total_entries
      → sec'.total_entries ≤ sec.total_entries + 1
      → main.total_entries + sec.total_entries + 2 < size_mod
      → Pair P main' sec'
        × ((q : K) → lookup P main' sec' q ≡ (if P.eq k q then some x else lookup P main sec q))
  stored-Pair {main} {sec} {main'} {sec'} k w p x pair c empty d same more room = (
    record {
      main_valid = c.valid;
      sec_valid = d.valid;
      valued = λ q e. ground (arith, d.reads q, pair.valued q);
      covered = λ q e f. ground (arith, d.reads q, c.reads q, pair.covered q);
      apart = λ q there. elim (Bool-cases (P.eq k q)) [
        | inl e ↦ rw (c.reads q, e) empty
        | inr e ↦ rw (c.reads q, e) (pair.apart q (λ f. there (rw (d.reads q, e) f)))
      ];
      room = omega arith;
    },
    λ q. lookup-view P c.valid d.valid q ∙ elim (Bool-cases (P.eq k q)) [
      | inl e ↦ rw (d.reads q, e)
      | inr e ↦ rw (d.reads q, c.reads q, e) (sym (lookup-view P pair.main_valid pair.sec_valid q))
    ],
  )

  find_index-set :
      (k : K) (es : List (Entry K V)) (j : ℕ) (v : Option (ℕ × V))
      → find_index P es k ≡ some j
      → find_index P (set es j (record { key = k; val = v })) k ≡ some j
  unfolding find_index
  find_index-set k [] j v h = cc
  find_index-set k (e ∷ es) j v h = elim (find_index-cases P k e es j h) [
    | inl (first, same) ↦ rw (first, eq_self P k)
    | inr (i, later, other, here) ↦ rw later (ground (arith, find_index-set k es i v here, other))
  ]

  -- The entry of the search is found again after a new value is stored in it.
  set_entry-Located :
      {t : Table K V} (k : K) (i j : ℕ) (v : Option (ℕ × V))
      → IsValid P t
      → Located P t k i j
      → Located P (set_entry t i j (record { key = k; val = v })) k i j
  unfolding get_bucket_index
  set_entry-Located {t} k i j v valid loc = record {
    home = loc.home;
    index =
        let inside : i < length t.buckets.items = rw (sym loc.home) at (home-inside P k valid) in
        rw (get_or-set_self t.buckets.items i _ new inside)
          (find_index-set k (bucket_at t i).items j v loc.index);
  }

  -- The value of main's entry under a key, with main without it.
  module _ {main : Table K V} (valid : IsValid P main) (k : K) where
    home : ℕ
    home = get_bucket_index P main k

    look_up : table_get_entry P main k ≡ elim (find_index P (bucket_at main home).items k) [
      | none ↦ none
      | some j ↦ some (home, j)
    ]
    unfolding table_get_entry home
    look_up = rw (table_get_entry, ne→eqb main.num_buckets 0 (omega (arith, valid.nonempty)))

    -- What `take_over` makes of a new entry of the secondary table and of main.
    data TakenOver (sec : Table K V) (i j : ℕ) (r : Table K V × Table K V) : Type 0 where
      nothing_there : view P main k ≡ none → r ≡ (sec, main) → TakenOver sec i j r
      moved :
          (v : Option (ℕ × V)) (main' : Table K V)
          → view P main k ≡ some v
          → Changes P main k (some none) main'
          → main'.total_entries ≡ main.total_entries
          → r ≡ (set_entry sec i j (record { key = k; val = v }), main')
          → TakenOver sec i j r

    take_over-TakenOver :
        (sec : Table K V) (i j : ℕ) → TakenOver sec i j (take_over P sec main (i, j, true) k)
    unfolding take_over home get_bucket_index
    take_over-TakenOver sec i j = elim (Option-cases (find_index P (bucket_at main home).items k)) [
      | inl missing ↦
          let none_found : table_get_entry P main k ≡ none = look_up ∙ rw missing in
          nothing_there (find-none P k (bucket_at main home).items missing).0
            (rw (take_over, none_found))
      | inr (mj, here) ↦
          let (e, hit) = find_index-Hit P k (bucket_at main home).items mj here in
          let found : table_get_entry P main k ≡ some (home, mj) = look_up ∙ rw here in
          let at_entry : entry_at main home mj ≡ some e = hit.at_index in
          let (c, same) =
            set_entry-Changes P k home mj none valid (record { home = refl; index = here }) in
          moved e.val (set_entry main home mj (record { key = k; val = none })) hit.finds c same (
            rw (take_over, found, at_entry)
              (ap
                (λ x. (
                  set_entry sec i j (record { key = x; val = e.val }),
                  set_entry main home mj (record { key = x; val = none }),
                ))
                hit.same_key))
    ]

  -- What `put_secondary` has made of the tables: `done`, the secondary table and main.
  pub record PutBoth (main sec : Table K V) (k : K) (x : V)
      (r : Bool × Table K V × Table K V × A.Heap) : Type 0 where
    pub pair : r.0 ≡ true → Pair P r.2 r.1
    pub reads :
        (q : K) → lookup P r.2 r.1 q ≡ (if r.0 && P.eq k q then some x else lookup P main sec q)
    pub main_count : r.2.total_entries ≡ main.total_entries

  module _ {main sec : Table K V} (pair : Pair P main sec)
      (room : main.total_entries + sec.total_entries + 2 < size_mod) (k : K) (x : V) where
    -- What the code does with the result for the entry of the secondary table.
    settle : TableGetOrCreateResult × Table K V × A.Heap → Bool × Table K V × Table K V × A.Heap
    settle (res, sec', h') = elim res [
      | none ↦ (false, sec', main, h')
      | some r ↦
          let (seeded, main') = take_over P sec' main r k in
          let (done, sec'', h'') = construct_at P seeded r x h' in (done, sec'', main', h'')
    ]

    -- The same from the two tables on, with an entry that is new or not.
    finish : ℕ → ℕ → Bool → A.Heap → Table K V × Table K V → Bool × Table K V × Table K V × A.Heap
    finish i j created h (seeded, main') =
        let (done, sec', h') = construct_at P seeded (i, j, created) x h in (done, sec', main', h')

    found-PutBoth :
        (i j : ℕ) (v : Option (ℕ × V)) (h : A.Heap)
        → Located P sec k i j
        → view P sec k ≡ some v
        → PutBoth main sec k x (finish i j false h (sec, main))
    unfolding finish
    found-PutBoth i j v h loc there =
        elim (construct_at-Constructed P pair.sec_valid k i j loc x h false) [
          | stored p sec' h' d same run ↦
              let gone : value P (view P main k) ≡ none = pair.apart k (λ f. cc (sym there ∙ f)) in
              let (pair', reads) =
                stored-Pair k (view P main k) p x pair
                  (Changes-refl k (view P main k) pair.main_valid refl) gone d refl (omega arith)
                  room in
              rw run (record { pair = λ _. pair'; reads = reads; main_count = refl })
          | kept h' _ empty run ↦ absurd (pair.valued k empty)
          | rolled_back sec' h' is_new _ d fewer run ↦ cc
        ]

    fresh-PutBoth :
        (i j : ℕ) (sec₁ : Table K V) (h : A.Heap)
        → view P sec k ≡ none
        → Changes P sec k (some none) sec₁
        → sec₁.total_entries ≡ sec.total_entries + 1
        → Located P sec₁ k i j
        → PutBoth main sec k x (finish i j true h (take_over P sec₁ main (i, j, true) k))
    unfolding finish
    fresh-PutBoth i j sec₁ h missing c more loc =
        elim (take_over-TakenOver pair.main_valid k sec₁ i j) [
          | nothing_there absent taken ↦
              elim (construct_at-Constructed P c.valid k i j loc x h true) [
                | stored p sec' h' d same run ↦
                    let (pair', reads) =
                      stored-Pair k none p x pair (Changes-refl k none pair.main_valid absent) refl
                        (Changes-trans k _ _ c d) refl (omega arith) room in
                    rw (taken, run) (record { pair = λ _. pair'; reads = reads; main_count = refl })
                | kept h' was_old _ run ↦ cc
                | rolled_back sec' h' _ _ d fewer run ↦
                    let e = Changes-trans k _ _ c d in
                    rw (taken, run)
                      (record {
                        pair = λ f. cc;
                        reads = λ q.
                            ap (λ o. either P o (Table.get P main q))
                              (get-recount P sec₁.total_entries sec' q ∙ unchanged sec' e q);
                        main_count = refl;
                      })
              ]
          | moved v main' here c' same taken ↦
              let (d₀, _) = set_entry-Changes P k i j v c.valid loc in
              let loc' = set_entry-Located k i j v c.valid loc in
              elim (construct_at-Constructed P d₀.valid k i j loc' x h true) [
                | stored p sec' h' d same' run ↦
                    let (pair', reads) =
                      stored-Pair k (some none) p x pair c' refl
                        (Changes-trans k _ _ (Changes-trans k _ _ c d₀) d) same (omega arith)
                        room in
                    rw (taken, run) (record { pair = λ _. pair'; reads = reads; main_count = same })
                | kept h' was_old _ run ↦ cc
                | rolled_back sec' h' _ empty d fewer run ↦
                    let none_here : some v ≡ some none = rw (d₀.reads k, eq_self P k) at empty in
                    absurd (pair.covered k (here ∙ none_here) missing)
              ]
        ]
      where
        unchanged :
            (sec' : Table K V)
            → Changes P sec k none sec'
            → (q : K) → Table.get P sec' q ≡ Table.get P sec q
        unchanged sec' e q =
            Changes-get P k q none pair.sec_valid e ∙ elim (Bool-cases (P.eq k q)) [
              | inl f ↦ rw (f, get-view P q pair.sec_valid, ← (P.eq_iff k q).0 f, missing)
              | inr f ↦ rw f
            ]

    -- `put` on the two tables of a map in transfer, with fewer than 2 ^ 64 - 2 entries in all: where
    -- it returns true, the tables are a pair as before, a lookup of the key finds the new value and
    -- every other lookup what it found before; where it returns false, every lookup finds what it
    -- found before.
    pub put_secondary-PutBoth : (h : A.Heap) → PutBoth main sec k x (put_secondary P sec main k x h)
    unfolding put_secondary settle finish take_over
    put_secondary-PutBoth h =
        elim (table_get_or_create_entry-Obtained P pair.sec_valid (omega arith) k h) [
          | old i j v loc there run ↦ rw (ap settle run) (found-PutBoth i j v h loc there)
          | fresh i j sec₁ h' missing c more loc run ↦
              rw (ap settle run) (fresh-PutBoth i j sec₁ h' missing c more loc)
          | out_of_memory h' run ↦
              rw (ap settle run) (record { pair = λ e. cc; reads = λ q. refl; main_count = refl })
        ]
