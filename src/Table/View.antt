-- ===== src/Table/View.antt =====
-- What a table holds under each key, and what a change to the home bucket of a key means for it.
use real_time_library.Base.{
  ℕ, zero, suc, ◌+◌, ◌≤◌, ◌<◌, ◌≡◌, refl, sym, ap, ◌∙◌, ◌≢◌, inl, inr, true, Option, List, [], ◌∷◌,
  arith, ◌==◌, if◌then◌else◌, length, get_or, set, eqb_refl, ne→eqb, eq-cases, Option-cases,
  length-set, get_or-set_self, get_or-set_ne,
}
use real_time_library.Alloc.{Alloc}
use real_time_library.Vector.{new}
use real_time_library.Bucket.{Params, Entry, Bucket, pointee}
use real_time_library.Bucket
use real_time_library.Bucket.Search.{find, count, value, find_index-Hit, find-none}
use real_time_library.Table
use real_time_library.Table.{Table, bucket_at, set_bucket, get_bucket_index}

-- The number of entries in all buckets.
abbrev pub entries : {K V : Type 0} → List (Bucket K V) → ℕ
entries [] = 0
entries (b ∷ bs) = length b.items + entries bs

entries-set :
    {K V : Type 0} (bs : List (Bucket K V)) (i : ℕ) (b : Bucket K V)
    → i < length bs
    → entries (set bs i b) + length (get_or bs i new).items ≡ entries bs + length b.items
entries-set [] i b h = absurd (omega arith)
entries-set (x ∷ bs) zero b h = omega arith
entries-set (x ∷ bs) (suc i) b h = omega (arith, entries-set bs i b (omega arith))

pub length-le-entries :
    {K V : Type 0} (bs : List (Bucket K V)) (i : ℕ) → length (get_or bs i new).items ≤ entries bs
length-le-entries [] i = omega arith
length-le-entries (x ∷ bs) zero = omega arith
length-le-entries (x ∷ bs) (suc i) = omega (arith, length-le-entries bs i)

pub entries-eq-zero :
    {K V : Type 0} (bs : List (Bucket K V))
    → ((j : ℕ) → j < length bs → length (get_or bs j new).items ≡ 0)
    → entries bs ≡ 0
entries-eq-zero [] h = refl
entries-eq-zero (b ∷ bs) h =
    omega (arith, h 0 (omega arith), entries-eq-zero bs (λ j k. h (suc j) (omega arith)))

module _ {A : Alloc} {K V : Type 0} (P : Params A K V) where
  -- A table with buckets, counted right, in which each key has at most one entry, in its own bucket.
  pub record IsValid (t : Table K V) : Type 0 where
    pub width : t.num_buckets ≡ length t.buckets.items
    pub nonempty : 0 < t.num_buckets
    pub counted : t.total_entries ≡ entries t.buckets.items
    pub placed :
        (q : K) (i : ℕ)
        → (count P q (bucket_at t i).items ≤ 1)
          × (get_bucket_index P t q ≢ i → count P q (bucket_at t i).items ≡ 0)

  -- What the search for a key finds.
  abbrev pub view : Table K V → K → Option (Option (ℕ × V))
  view t q = find P q (bucket_at t (get_bucket_index P t q)).items

  pub home-inside :
      {t : Table K V} (k : K) → IsValid t → get_bucket_index P t k < length t.buckets.items
  unfolding get_bucket_index
  home-inside {t} k valid = omega (arith, valid.width, valid.nonempty)

  bucket-get : (b : Bucket K V) (k : K) → Bucket.get P b k ≡ value P (find P k b.items)
  unfolding Bucket.get
  bucket-get b k = elim (Option-cases (Bucket.find_index P b.items k)) [
    | inl e ↦ rw (e, Bucket.get, (find-none P k b.items e).0)
    | inr (i, here) ↦
        let (e, hit) = find_index-Hit P k b.items i here in
        rw (here, Bucket.get, hit.at_index, hit.finds)
  ]

  -- `Table::get` reads the view.
  pub get-view : {t : Table K V} (k : K) → IsValid t → Table.get P t k ≡ value P (view t k)
  unfolding Table.get
  get-view {t} k valid =
      rw (ne→eqb t.num_buckets 0 (omega (arith, valid.nonempty))) (bucket-get _ k)

  -- A valid table that differs from a valid one only under one key.
  pub record Changes (t : Table K V) (k : K) (v : Option (Option (ℕ × V))) (t' : Table K V)
      : Type 0 where
    pub valid : IsValid t'
    pub reads : (q : K) → view t' q ≡ (if P.eq k q then v else view t q)
    pub same_width : t'.num_buckets ≡ t.num_buckets

  module _ {t : Table K V} (valid : IsValid t) (k : K) (v : Option (Option (ℕ × V))) where
    home_congr : (q : K) → P.eq k q ≡ true → get_bucket_index P t k ≡ get_bucket_index P t q
    home_congr q e = ap (λ x. get_bucket_index P t x) ((P.eq_iff k q).0 e)

    -- The table with another bucket and another count.
    abbrev changed : Bucket K V → ℕ → Table K V
    changed b total = record (set_bucket t (get_bucket_index P t k) b) { total_entries = total }

    home-changed :
        (b : Bucket K V) (total : ℕ) (q : K)
        → get_bucket_index P (changed b total) q ≡ get_bucket_index P t q
    unfolding get_bucket_index
    home-changed b total q = refl

    bucket-changed :
        (b : Bucket K V) (total j : ℕ)
        → bucket_at (changed b total) j ≡ (if j == get_bucket_index P t k then b else bucket_at t j)
    bucket-changed b total j = elim (eq-cases j (get_bucket_index P t k)) [
      | inl e ↦
          rw (e, eqb_refl (get_bucket_index P t k))
            (get_or-set_self t.buckets.items _ b new (home-inside k valid))
      | inr ne ↦ rw (ne→eqb j _ ne) (get_or-set_ne t.buckets.items _ j b new (λ e. ne (sym e)))
    ]

    pub set_bucket-Changes :
        (b : Bucket K V) (total : ℕ)
        → ((q : K)
            → find P q b.items
              ≡ (if P.eq k q then v else find P q (bucket_at t (get_bucket_index P t k)).items))
        → ((q : K)
            → count P q b.items
              ≤ (if P.eq k q then 1 else count P q (bucket_at t (get_bucket_index P t k)).items))
        → total + length (bucket_at t (get_bucket_index P t k)).items
          ≡ t.total_entries + length b.items
        → Changes t k v (changed b total)
    set_bucket-Changes b total finds counts size = record {
      valid = record {
        width = valid.width ∙ sym (length-set t.buckets.items _ b);
        nonempty = valid.nonempty;
        counted = omega (
          arith,
          entries-set t.buckets.items (get_bucket_index P t k) b (home-inside k valid),
          valid.counted,
        );
        placed = λ q j.
            rw (home-changed b total q, bucket-changed b total j)
              (ground (arith, valid.placed q j, counts q, home_congr q));
      };
      reads = λ q.
          rw (home-changed b total q, bucket-changed b total (get_bucket_index P t q))
            (ground (arith, finds q, home_congr q));
      same_width = refl;
    }
