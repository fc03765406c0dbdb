-- ===== src/UnorderedMap/Store.antt =====
-- How `put` stores a value in a table, and how it rolls back.
use real_time_library.Base.{
  ℕ, ◌+◌, ◌-◌, ◌<◌, ◌≡◌, refl, sym, ◌∙◌, ◌⊎◌, inl, inr, Bool, true, false, none, some, arith,
  get_elem?, Bool-cases, Option-cases,
}
use real_time_library.Alloc.{Alloc}
use real_time_library.Bucket.{Params, Entry, Bucket, construct, bucket_remove}
use real_time_library.Bucket.Search.{find, find_index-Hit, eq_self}
use real_time_library.Bucket.Removal.{Removed, bucket_remove-cases}
use real_time_library.Table.{Table, bucket_at, set_bucket, set_entry, get_bucket_index}
use real_time_library.Table.View.{IsValid, view, Changes, set_bucket-Changes, length-le-entries}
use real_time_library.Table.Methods.{Located, set_entry-Changes}
use real_time_library.UnorderedMap.Methods.{construct_at}

module _ {A : Alloc} {K V : Type 0} (P : Params A K V) where
  -- What `construct` has made of an entry: a value in it, or nothing where it had none and there was
  -- no memory.
  construct-cases :
      (e : Entry K V) (x : V) (h : A.Heap)
      → ((p : ℕ) × (h' : A.Heap) × (construct P e x h
            ≡ (true, record { key = e.key; val = some (p, x) }, h')))
        ⊎ ((h' : A.Heap) × (e.val ≡ none) × (construct P e x h ≡ (false, e, h')))
  unfolding construct
  construct-cases e x h = elim (Option-cases e.val) [
    | inr ((p, y), there) ↦ inl (p, h, ground arith)
    | inl missing ↦ elim (Option-cases (A.allocate P.value.size_of h).0) [
      | inr (p, got) ↦ inl (p, (A.allocate P.value.size_of h).1, ground arith)
      | inl none_left ↦ inr ((A.allocate P.value.size_of h).1, missing, ground arith)
    ]
  ]

  module _ {t : Table K V} (valid : IsValid P t) (k : K) (i j : ℕ) (loc : Located P t k i j) (x : V)
      (h : A.Heap) where
    -- What `construct_at` has made of a table with an entry under the key.
    pub data Constructed (created : Bool) (r : Bool × Table K V × A.Heap) : Type 0 where
      stored :
          (p : ℕ) (t' : Table K V) (h' : A.Heap)
          → Changes P t k (some (some (p, x))) t'
          → t'.total_entries ≡ t.total_entries
          → r ≡ (true, t', h')
          → Constructed created r
      kept :
          (h' : A.Heap)
          → created ≡ false
          → view P t k ≡ some none
          → r ≡ (false, t, h')
          → Constructed created r
      rolled_back :
          (t' : Table K V) (h' : A.Heap)
          → created ≡ true
          → view P t k ≡ some none
          → Changes P t k none t'
          → t'.total_entries + 1 ≡ t.total_entries
          → r ≡ (false, record t' { total_entries = t.total_entries }, h')
          → Constructed created r

    -- The table with the entry's value set to null, as the roll-back leaves it before it removes it.
    abbrev cleared : Table K V
    cleared = set_entry t i j (record { key = k; val = none })

    cleared-Changes : Changes P t k (some none) cleared
    cleared-Changes = (set_entry-Changes P k i j none valid loc).0

    success :
        (created : Bool) (e : Entry K V) (p : ℕ) (h' : A.Heap)
        → get_elem? (bucket_at t i).items j ≡ some e
        → e.key ≡ k
        → construct P e x h ≡ (true, record { key = e.key; val = some (p, x) }, h')
        → construct_at P t (i, j, created) x h
          ≡ (true, set_entry t i j (record { key = k; val = some (p, x) }), h')
    unfolding construct_at
    success created e p h' found same run = rw (found, construct_at, run, same)

    failure :
        (e : Entry K V) (h' : A.Heap)
        → get_elem? (bucket_at t i).items j ≡ some e
        → construct P e x h ≡ (false, e, h')
        → construct_at P t (i, j, false) x h ≡ (false, t, h')
    unfolding construct_at
    failure e h' found run = rw (found, construct_at, run)

    roll_back :
        (e : Entry K V) (h' h'' : A.Heap) (b : Bucket K V)
        → get_elem? (bucket_at t i).items j ≡ some e
        → e.key ≡ k
        → construct P e x h ≡ (false, e, h')
        → bucket_remove P (bucket_at cleared i) k h' ≡ (true, b, h'')
        → construct_at P t (i, j, true) x h ≡ (false, set_bucket cleared i b, h'')
    unfolding construct_at
    roll_back e h' h'' b found same run gone = rw (found, construct_at, run, same, gone)

    present : view P cleared k ≡ some none
    present = rw (cleared-Changes.reads k, eq_self P k)

    same_home : get_bucket_index P cleared k ≡ i
    unfolding get_bucket_index
    same_home = sym loc.home

    -- The entry that was created for nothing is found again and removed.
    removal :
        (h' : A.Heap)
        → (b : Bucket K V) × (h'' : A.Heap) × (bucket_remove P (bucket_at cleared i) k h'
            ≡ (true, b, h''))
          × Removed P k (bucket_at cleared (get_bucket_index P cleared k)) b
    removal h' =
        elim (bucket_remove-cases P (bucket_at cleared (get_bucket_index P cleared k)) k h'
          (λ q. (cleared-Changes.valid.placed q _).0)) [
            | inl (missing, _) ↦ cc (sym missing ∙ present)
            | inr (b, h'', run, gone) ↦ (b, h'', rw same_home at run, gone)
          ]

    Removed-Changes :
        (b : Bucket K V)
        → Removed P k (bucket_at cleared (get_bucket_index P cleared k)) b
        → Changes P t k none
            (record (set_bucket cleared i b) { total_entries = t.total_entries - 1 })
          × (t.total_entries - 1 + 1 ≡ t.total_entries)
    Removed-Changes b gone =
        let c =
          set_bucket-Changes P cleared-Changes.valid k none b (t.total_entries - 1) gone.reads
            (λ q. ground (arith, gone.counts q)) (omega (arith, gone.shorter, some_entry)) in
        let d : Changes P t k none (record (set_bucket cleared (get_bucket_index P cleared k) b) {
          total_entries = t.total_entries - 1;
        }) =
          record {
            valid = c.valid;
            reads = λ q. ground (arith, c.reads q, cleared-Changes.reads q);
            same_width = refl;
          } in
        (rw same_home at d, omega (arith, some_entry))
      where
        some_entry : 0 < t.total_entries
        some_entry = omega (
          arith,
          gone.shorter,
          cleared-Changes.valid.counted,
          length-le-entries cleared.buckets.items (get_bucket_index P cleared k),
        )

    no_value :
        (e : Entry K V)
        → e.val ≡ none
        → find P k (bucket_at t i).items ≡ some e.val
        → view P t k ≡ some none
    no_value e missing finds = rw (← loc.home, finds, missing)

    pub construct_at-Constructed :
        (created : Bool) → Constructed created (construct_at P t (i, j, created) x h)
    construct_at-Constructed created =
        let (e, hit) = find_index-Hit P k (bucket_at t i).items j loc.index in
        elim (construct-cases e x h) [
          | inl (p, h', run) ↦
              let (c, same_count) = set_entry-Changes P k i j (some (p, x)) valid loc in
              stored p _ h' c same_count (success created e p h' hit.at_index hit.same_key run)
          | inr (h', missing, run) ↦ elim (Bool-cases created) [
            | inl is_new ↦
                let (b, h'', gone_run, gone) = removal h' in
                let (c, fewer) = Removed-Changes b gone in
                rolled_back _ h'' is_new (no_value e missing hit.finds) c fewer
                  (rw is_new (roll_back e h' h'' b hit.at_index hit.same_key run gone_run))
            | inr was_old ↦
                kept h' was_old (no_value e missing hit.finds)
                  (rw was_old (failure e h' hit.at_index run))
          ]
        ]
