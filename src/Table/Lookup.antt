-- ===== src/Table/Lookup.antt =====
-- What the lookups of a table are after `del` and `table_get_or_create_entry`.
use real_time_library.Base.{
  ℕ, ◌+◌, ◌<◌, ◌≡◌, refl, ap, ◌∙◌, inl, inr, true, false, Option, none, some, arith, if◌then◌else◌,
}
use real_time_library.Alloc.{Alloc, size_mod}
use real_time_library.Bucket.{Params}
use real_time_library.Bucket.Search.{value}
use real_time_library.Table
use real_time_library.Table.{Table, del, table_get_or_create_entry}
use real_time_library.Table.View.{IsValid, view, get-view, Changes}
use real_time_library.Table.Methods.{
  old, fresh, out_of_memory, del-cases, table_get_or_create_entry-Obtained,
}

module _ {A : Alloc} {K V : Type 0} (P : Params A K V) where
  pub Changes-get :
      {t t' : Table K V} (k q : K) (v : Option (Option (ℕ × V)))
      → IsValid P t
      → Changes P t k v t'
      → Table.get P t' q ≡ (if P.eq k q then value P v else Table.get P t q)
  Changes-get {t} {t'} k q v valid c =
      rw (get-view P q c.valid, get-view P q valid) (ground (arith, c.reads q, ap (value P)))

  -- `Table::del` on a valid table keeps the invariant; afterwards a lookup of the key finds nothing
  -- and every other lookup finds what it found before. The count of entries falls by one where it
  -- returns true, and the table and the heap are the same as before where it returns false.
  pub get-del :
      {t : Table K V} (k : K) (h : A.Heap)
      → IsValid P t
      → t.total_entries + 1 < size_mod
      → let (removed, t', h') = del P t k h in
        IsValid P t'
        × ((q : K) → Table.get P t' q ≡ (if P.eq k q then none else Table.get P t q))
        × (removed ≡ true → t'.total_entries + 1 ≡ t.total_entries)
        × (removed ≡ false → (t' ≡ t) × (h' ≡ h))
  get-del {t} k h valid small = elim (del-cases P valid small k h) [
    | inl (missing, run) ↦ rw run (
      valid,
      λ q. ground (arith, get-view P q valid, absent missing q),
      λ e. cc,
      λ _. (refl, refl),
    )
    | inr (t', h', run, _, c, fewer) ↦
        rw run (c.valid, λ q. Changes-get k q none valid c, λ _. fewer, λ e. cc)
  ]
    where
      absent : view P t k ≡ none → (q : K) → P.eq k q ≡ true → value P (view P t q) ≡ none
      absent missing q same = rw (← (P.eq_iff k q).0 same, missing)

  -- `table_get_or_create_entry` on a valid table keeps the invariant and the result of every lookup:
  -- an entry that it adds has no value yet. The count of entries rises by one exactly where it
  -- reports a new entry, and where it returns no entry the table is the same as before.
  pub get-table_get_or_create_entry :
      {t : Table K V} (k : K) (h : A.Heap)
      → IsValid P t
      → t.total_entries + 1 < size_mod
      → let (res, t', _) = table_get_or_create_entry P t k h in
        IsValid P t'
        × ((q : K) → Table.get P t' q ≡ Table.get P t q)
        × (t'.total_entries ≡ elim res [
          | none ↦ t.total_entries
          | some (_, _, created) ↦ if created then t.total_entries + 1 else t.total_entries
        ])
        × (res ≡ none → t' ≡ t)
  get-table_get_or_create_entry {t} k h valid small =
      elim (table_get_or_create_entry-Obtained P valid small k h) [
        | old i j v loc there run ↦ rw run (valid, λ q. refl, refl, λ _. refl)
        | fresh i j t' h' missing c more loc run ↦ rw run (
          c.valid,
          λ q.
              Changes-get k q (some none) valid c
              ∙ ground (arith, get-view P q valid, absent missing q),
          more,
          λ e. cc,
        )
        | out_of_memory h' run ↦ rw run (valid, λ q. refl, refl, λ _. refl)
      ]
    where
      absent : view P t k ≡ none → (q : K) → P.eq k q ≡ true → value P (view P t q) ≡ none
      absent missing q same = rw (← (P.eq_iff k q).0 same, missing)
