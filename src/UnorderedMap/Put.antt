-- ===== src/UnorderedMap/Put.antt =====
-- `put` in the stable state: the work on the main table.
use real_time_library.Base.{
  ℕ, ◌+◌, ◌≤◌, ◌-◌, ◌<◌, ◌≡◌, refl, sym, ap, ◌∙◌, Bool, true, false, ◌&&◌, none, some, arith,
  if◌then◌else◌,
}
use real_time_library.Alloc.{Alloc, size_mod}
use real_time_library.Bucket.{Params}
use real_time_library.Bucket.Search.{value, eq_self}
use real_time_library.Table
use real_time_library.Table.{Table, TableGetOrCreateResult, table_get_or_create_entry}
use real_time_library.Table.View.{IsValid, entries, view, get-view, Changes}
use real_time_library.Table.Methods.{
  old, fresh, out_of_memory, Located, table_get_or_create_entry-Obtained,
}
use real_time_library.Table.Lookup.{Changes-get, get-table_get_or_create_entry}
use real_time_library.UnorderedMap.Methods.{construct_at, put_main}
use real_time_library.UnorderedMap.Store.{stored, kept, rolled_back, construct_at-Constructed}

module _ {A : Alloc} {K V : Type 0} (P : Params A K V) where
  -- The table with its count of entries put to `n`.
  abbrev pub recount : ℕ → Table K V → Table K V
  recount n t = record t { total_entries = n }

  pub get-recount : (n : ℕ) (t : Table K V) (q : K) → Table.get P (recount n t) q ≡ Table.get P t q
  unfolding Table.get Table.get_bucket_index
  get-recount n t q = refl

  -- What `construct_at` means for the lookups.
  pub record Puts (t : Table K V) (k : K) (x : V) (created : Bool) (r : Bool × Table K V × A.Heap)
      : Type 0 where
    pub reads : (q : K) → Table.get P r.1 q ≡ (if r.0 && P.eq k q then some x else Table.get P t q)
    pub valid : r.0 ≡ true → IsValid P r.1
    pub views : r.0 ≡ true → (q : K) → P.eq k q ≡ false → view P r.1 q ≡ view P t q
    pub size : r.1.total_entries ≡ t.total_entries
    pub undone :
        r.0 ≡ false
        → created ≡ true
        → IsValid P (recount (t.total_entries - 1) r.1)
          × (t.total_entries - 1 + 1 ≡ t.total_entries)
    pub unchanged : r.0 ≡ false → created ≡ false → r.1 ≡ t

  construct_at-Puts :
      {t : Table K V} (k : K) (i j : ℕ) (x : V) (h : A.Heap) (created : Bool)
      → IsValid P t
      → Located P t k i j
      → (created ≡ true → view P t k ≡ some none)
      → Puts t k x created (construct_at P t (i, j, created) x h)
  construct_at-Puts {t} k i j x h created valid loc empty =
      elim (construct_at-Constructed P valid k i j loc x h created) [
        | stored p t' h' c same run ↦ rw run (record {
          reads = λ q. Changes-get P k q (some (some (p, x))) valid c;
          valid = λ _. c.valid;
          views = λ _ q e. rw (c.reads q, e);
          size = same;
          undone = λ e. cc;
          unchanged = λ e. cc;
        })
        | kept h' was_old _ run ↦ rw run (record {
          reads = λ q. refl;
          valid = λ e. cc;
          views = λ e. cc;
          size = refl;
          undone = λ _ e. cc;
          unchanged = λ _ _. refl;
        })
        | rolled_back t' h' is_new _ c fewer run ↦
            let less : t'.total_entries ≡ t.total_entries - 1 = omega arith in
            rw run (record {
              reads = λ q.
                  get-recount t.total_entries t' q
                  ∙ (Changes-get P k q none valid c
                      ∙ ground (arith, get-view P q valid, nothing (empty is_new) q));
              valid = λ e. cc;
              views = λ e. cc;
              size = refl;
              undone = λ _ _. (rw (← less) c.valid, omega arith);
              unchanged = λ _ e. cc;
            })
      ]
    where
      nothing : view P t k ≡ some none → (q : K) → P.eq k q ≡ true → value P (view P t q) ≡ none
      nothing none_there q same = rw (← (P.eq_iff k q).0 same, none_there)

  module _ {t : Table K V} (valid : IsValid P t) (small : t.total_entries + 1 < size_mod) (k : K)
      (x : V) (h : A.Heap) where
    -- What `put_main` does with the result for the entry.
    settle : TableGetOrCreateResult × Table K V × A.Heap → Bool × Table K V × A.Heap
    settle (res, t', h') = elim res [ none ↦ (false, t', h') | some r ↦ construct_at P t' r x h' ]

    put_main-old :
        (i j : ℕ)
        → Located P t k i j
        → table_get_or_create_entry P t k h ≡ (some (i, j, false), t, h)
        → Puts t k x false (put_main P t k x h)
    unfolding put_main settle
    put_main-old i j loc run =
        rw (ap settle run) (construct_at-Puts k i j x h false valid loc (λ e. cc))

    -- A failure of `put_main` for a new entry leaves the table valid but for the count of entries.
    pub record Fresh (r : Bool × Table K V × A.Heap) : Type 0 where
      pub reads :
          (q : K) → Table.get P r.1 q ≡ (if r.0 && P.eq k q then some x else Table.get P t q)
      pub holds : r.0 ≡ true → IsValid P r.1
      pub views : r.0 ≡ true → (q : K) → P.eq k q ≡ false → view P r.1 q ≡ view P t q
      pub size : r.1.total_entries ≡ t.total_entries + 1
      pub undone : r.0 ≡ false → IsValid P (recount t.total_entries r.1)

    put_main-Fresh :
        (i j : ℕ) (t' : Table K V) (h' : A.Heap)
        → view P t k ≡ none
        → Changes P t k (some none) t'
        → t'.total_entries ≡ t.total_entries + 1
        → Located P t' k i j
        → table_get_or_create_entry P t k h ≡ (some (i, j, true), t', h')
        → Fresh (put_main P t k x h)
    unfolding put_main settle
    put_main-Fresh i j t' h' missing c more loc run =
        let puts =
          construct_at-Puts k i j x h' true c.valid loc (λ _. c.reads k ∙ rw (eq_self P k)) in
        let same : (q : K) → Table.get P t' q ≡ Table.get P t q =
          rw run at ((get-table_get_or_create_entry P k h valid small).1) in
        let count : t'.total_entries - 1 ≡ t.total_entries = omega arith in
        rw (ap settle run) (record {
          reads = λ q. puts.reads q ∙ rw (same q);
          holds = puts.valid;
          views = λ done q e. puts.views done q e ∙ rw (c.reads q, e);
          size = puts.size ∙ more;
          undone = λ e. rw count at ((puts.undone e refl).0);
        })

    -- `put` on the main table, valid and with fewer than 2 ^ 64 - 1 entries: where it returns true,
    -- the table is valid again, a lookup of the key finds the new value and every other lookup finds
    -- what it found before; where it returns false, every lookup finds what it found before.
    pub get-put_main :
        let (done, t', _) = put_main P t k x h in
        (done ≡ true → IsValid P t')
        × ((q : K) → Table.get P t' q ≡ (if done && P.eq k q then some x else Table.get P t q))
    unfolding put_main settle
    get-put_main = elim (table_get_or_create_entry-Obtained P valid small k h) [
      | old i j v loc there run ↦ let puts = put_main-old i j loc run in (puts.valid, puts.reads)
      | fresh i j t' h' missing c more loc run ↦
          let puts = put_main-Fresh i j t' h' missing c more loc run in (puts.holds, puts.reads)
      | out_of_memory h' run ↦ rw (ap settle run) ((λ e. cc), λ q. refl)
    ]

    -- A `put` on the main table that makes a new entry and then fails to allocate its value takes the
    -- entry away again, but leaves `m_total_entries` one higher than before: one higher than the
    -- number of entries.
    pub put_main_overcounts :
        (i j : ℕ)
        → (table_get_or_create_entry P t k h).0 ≡ some (i, j, true)
        → (put_main P t k x h).0 ≡ false
        → let (_, t', _) = put_main P t k x h in
          (t'.total_entries ≡ t.total_entries + 1) × (entries t'.buckets.items ≡ t.total_entries)
    put_main_overcounts i j made failed =
        elim (table_get_or_create_entry-Obtained P valid small k h) [
          | old i' j' v loc there run ↦ cc (sym made ∙ ap (λ r. r.0) run)
          | fresh i' j' t' h' missing c more loc run ↦
              let puts = put_main-Fresh i' j' t' h' missing c more loc run in
              (puts.size, sym (puts.undone failed).counted)
          | out_of_memory h' run ↦ cc (sym made ∙ ap (λ r. r.0) run)
        ]

    -- What a `put` that returns true leaves of the entries.
    pub put_main-stores :
        (put_main P t k x h).0 ≡ true
        → let (_, t', _) = put_main P t k x h in
          ((q : K) → P.eq k q ≡ false → view P t' q ≡ view P t q)
          × (t'.total_entries ≤ t.total_entries + 1)
    unfolding put_main settle
    put_main-stores done = elim (table_get_or_create_entry-Obtained P valid small k h) [
      | old i j v loc there run ↦
          let puts = put_main-old i j loc run in (puts.views done, omega (arith, puts.size))
      | fresh i j t' h' missing c more loc run ↦
          let puts = put_main-Fresh i j t' h' missing c more loc run in
          (puts.views done, omega (arith, puts.size))
      | out_of_memory h' run ↦ cc (sym done ∙ ap (λ r. r.0) (ap settle run))
    ]
