-- ===== src/Table/Methods.antt =====
-- `table_get_or_create_entry` and `del` on a valid table.
use real_time_library.Base.{
  ℕ, zero, suc, ◌+◌, ◌<◌, ◌≡◌, refl, ap, ◌∙◌, ◌⊎◌, inl, inr, true, false, Option, none, some, List,
  [], ◌∷◌, ◌++◌, arith, ◌==◌, if◌then◌else◌, length, get_or, set, length-append, ne→eqb, Bool-cases,
  Option-cases, length-set, get_or-set_self,
}
use real_time_library.Alloc.{Alloc, size_mod}
use real_time_library.Vector.{new, push_back}
use real_time_library.Vector.Growth.{push_back-append}
use real_time_library.Bucket.{
  Params, Bucket, find_index, bucket_get_or_create_entry, new_entry, entry_element,
  BucketGetOrCreateResult, found, created, failed,
}
use real_time_library.Bucket.Search.{
  count, find_index-Hit, find-none, find-set, find-append, find_index-append,
}
use real_time_library.Bucket.Removal.{Removed, bucket_remove-cases}
use real_time_library.Table.{
  Table, bucket_at, set_bucket, set_entry, get_bucket_index, TableGetOrCreateResult, del,
  table_get_or_create_entry, increment, decrement,
}
use real_time_library.Table.View.{
  IsValid, view, length-le-entries, home-inside, Changes, set_bucket-Changes,
}

set-get_or {ℓ} : {T : Type ℓ} (xs : List T) (i : ℕ) (d : T) → set xs i (get_or xs i d) ≡ xs
set-get_or [] i d = refl
set-get_or (x ∷ xs) zero d = refl
set-get_or (x ∷ xs) (suc i) d = ap (λ l. x ∷ l) (set-get_or xs i d)

module _ {A : Alloc} {K V : Type 0} (P : Params A K V) where
  -- Where the search finds the entry under a key.
  pub record Located (t : Table K V) (k : K) (i j : ℕ) : Type 0 where
    pub home : i ≡ get_bucket_index P t k
    pub index : find_index P (bucket_at t i).items k ≡ some j

  -- A new value in the entry under a key.
  pub set_entry-Changes :
      {t : Table K V} (k : K) (i j : ℕ) (v : Option (ℕ × V))
      → IsValid P t
      → Located t k i j
      → Changes P t k (some v) (set_entry t i j (record { key = k; val = v }))
        × ((set_entry t i j (record { key = k; val = v })).total_entries ≡ t.total_entries)
  set_entry-Changes {t} k i j v valid loc = (
    rw loc.home (
        set_bucket-Changes P valid k (some v) _ t.total_entries
          (λ q. (find-set P k _ j v q index).0)
          (λ q.
            ground (arith, (find-set P k _ j v q index).1, valid.placed q (get_bucket_index P t k)))
          (omega (
            arith,
            length-set (bucket_at t (get_bucket_index P t k)).items j (record { key = k; val = v }),
          ))),
    refl,
  )
    where
      index : find_index P (bucket_at t (get_bucket_index P t k)).items k ≡ some j
      index = rw loc.home at loc.index

  module _ {t : Table K V} (valid : IsValid P t) (small : t.total_entries + 1 < size_mod) (k : K)
      (h : A.Heap) where
    abbrev bucket : Bucket K V
    bucket = bucket_at t (get_bucket_index P t k)

    test : (t.num_buckets == 0) ≡ false
    test = ne→eqb t.num_buckets 0 (omega (arith, valid.nonempty))

    same_bucket : set_bucket t (get_bucket_index P t k) bucket ≡ t
    same_bucket =
        ap (λ bs. record t { buckets = record t.buckets { items = bs } })
          (set-get_or t.buckets.items (get_bucket_index P t k) new)

    -- `Table::del` finds no entry under the key and changes nothing, or removes the one there.
    pub del-cases :
        ((view P t k ≡ none) × (del P t k h ≡ (false, t, h)))
        ⊎ ((t' : Table K V) × (h' : A.Heap) × (del P t k h ≡ (true, t', h'))
            × ((v : Option (ℕ × V)) × (view P t k ≡ some v))
            × Changes P t k none t'
            × (t'.total_entries + 1 ≡ t.total_entries))
    unfolding del
    del-cases =
        elim (bucket_remove-cases P bucket k h (λ q. (valid.placed q (get_bucket_index P t k)).0)) [
          | inl (missing, run) ↦ inl (missing, rw (test, run) (ap (λ u. (false, u, h)) same_bucket))
          | inr (b', h', run, gone) ↦ inr (
            _,
            h',
            rw (test, run),
            gone.was_there,
            set_bucket-Changes P valid k none b' (decrement t.total_entries) gone.reads
                (λ q. ground (arith, gone.counts q))
                (omega (arith, some_entry b' gone, gone.shorter)),
            omega (arith, some_entry b' gone),
          )
        ]
      where
        some_entry : (b' : Bucket K V) → Removed P k bucket b' → 0 < t.total_entries
        some_entry b' gone = omega (
          arith,
          gone.shorter,
          valid.counted,
          length-le-entries t.buckets.items (get_bucket_index P t k),
        )

    -- What `table_get_or_create_entry` has returned: the entry that was there, a new one without a
    -- value, or nothing, where there was no memory.
    pub data Obtained (r : TableGetOrCreateResult × Table K V × A.Heap) : Type 0 where
      old :
          (i j : ℕ) (v : Option (ℕ × V))
          → Located t k i j
          → view P t k ≡ some v
          → r ≡ (some (i, j, false), t, h)
          → Obtained r
      fresh :
          (i j : ℕ) (t' : Table K V) (h' : A.Heap)
          → view P t k ≡ none
          → Changes P t k (some none) t'
          → t'.total_entries ≡ t.total_entries + 1
          → Located t' k i j
          → r ≡ (some (i, j, true), t', h')
          → Obtained r
      out_of_memory : (h' : A.Heap) → r ≡ (none, t, h') → Obtained r

    -- What the code does with the result of the bucket.
    settle :
        BucketGetOrCreateResult × Bucket K V × A.Heap → TableGetOrCreateResult × Table K V × A.Heap
    settle (res, b, h') =
        let i = get_bucket_index P t k in
        if t.num_buckets == 0 then (none, t, h) else elim res [
          | found j ↦ (some (i, j, false), set_bucket t i b, h')
          | created j ↦ (
            some (i, j, true),
            record (set_bucket t i b) { total_entries = increment t.total_entries },
            h',
          )
          | failed ↦ (none, set_bucket t i b, h')
        ]

    pushed_bucket : Bucket K V
    pushed_bucket = (push_back (entry_element P) bucket (new_entry k) h).1

    -- The table with the new entry.
    abbrev grown : Table K V
    grown = record (set_bucket t (get_bucket_index P t k) pushed_bucket) {
      total_entries = increment t.total_entries;
    }

    fresh-Changes :
        find_index P bucket.items k ≡ none
        → pushed_bucket.items ≡ bucket.items ++ new_entry k ∷ []
        → Changes P t k (some none) grown
    fresh-Changes missing items =
        let absent = find-none P k bucket.items missing in
        set_bucket-Changes P valid k (some none) pushed_bucket (increment t.total_entries)
          (λ q. rw items (find-append P bucket.items (new_entry k) q absent.0).0)
          (λ q. rw items (
            ground (
              arith,
              (find-append P bucket.items (new_entry k) q absent.0).1,
              (P.eq_iff k q).0,
              ap (λ x. count P x bucket.items),
              absent.1,
            )))
          (rw items (omega (arith, length-append bucket.items (new_entry k ∷ []))))

    fresh-Located :
        find_index P bucket.items k ≡ none
        → pushed_bucket.items ≡ bucket.items ++ new_entry k ∷ []
        → Located grown k (get_bucket_index P t k) (length bucket.items)
    unfolding get_bucket_index
    fresh-Located missing items = record {
      home = refl;
      index =
          rw
            (
              get_or-set_self t.buckets.items (get_bucket_index P t k) pushed_bucket new
                  (home-inside P k valid),
              items,
            )
            (find_index-append P k bucket.items none missing);
    }

    refused_heap : A.Heap
    refused_heap = (push_back (entry_element P) bucket (new_entry k) h).2

    found_there :
        (j : ℕ)
        → find_index P bucket.items k ≡ some j
        → bucket_get_or_create_entry P bucket k h ≡ (found j, bucket, h)
    unfolding bucket_get_or_create_entry
    found_there j here = rw (here, bucket_get_or_create_entry)

    created_there :
        find_index P bucket.items k ≡ none
        → (push_back (entry_element P) bucket (new_entry k) h).0 ≡ true
        → bucket_get_or_create_entry P bucket k h
          ≡ (created (length bucket.items), pushed_bucket, refused_heap)
    unfolding bucket_get_or_create_entry pushed_bucket refused_heap
    created_there missing pushed = rw (missing, bucket_get_or_create_entry, pushed)

    failed_there :
        find_index P bucket.items k ≡ none
        → (push_back (entry_element P) bucket (new_entry k) h).0 ≡ false
        → bucket_get_or_create_entry P bucket k h ≡ (failed, pushed_bucket, refused_heap)
    unfolding bucket_get_or_create_entry pushed_bucket refused_heap
    failed_there missing refused = rw (missing, bucket_get_or_create_entry, refused)

    pub table_get_or_create_entry-Obtained : Obtained (table_get_or_create_entry P t k h)
    unfolding table_get_or_create_entry settle pushed_bucket
    table_get_or_create_entry-Obtained = elim (Option-cases (find_index P bucket.items k)) [
      | inr (j, here) ↦
          let (e, hit) = find_index-Hit P k bucket.items j here in
          old (get_bucket_index P t k) j e.val (record { home = refl; index = here }) hit.finds
            (ap settle (found_there j here)
              ∙ rw test (ap (λ u. (some (get_bucket_index P t k, j, false), u, h)) same_bucket))
      | inl missing ↦ elim (Bool-cases (push_back (entry_element P) bucket (new_entry k) h).0) [
        | inl pushed ↦
            let items = (push_back-append (entry_element P) bucket (new_entry k) h).0 pushed in
            fresh (get_bucket_index P t k) (length bucket.items) grown refused_heap
              (find-none P k bucket.items missing).0 (fresh-Changes missing items) (omega arith)
              (fresh-Located missing items) (ap settle (created_there missing pushed) ∙ rw test)
        | inr refused ↦ out_of_memory refused_heap (
            ap settle (failed_there missing refused)
            ∙ rw (test, kept refused) (ap (λ u. (none, u, refused_heap)) same_bucket))
      ]
    ]
      where
        kept :
            (push_back (entry_element P) bucket (new_entry k) h).0 ≡ false → pushed_bucket ≡ bucket
        kept refused = (push_back-append (entry_element P) bucket (new_entry k) h).1 refused
