-- ===== src/UnorderedMap/Pair.antt =====
-- The two tables of a map in transfer, and what a move of one key means for the lookups.
use real_time_library.Base.{
  ℕ, ◌+◌, ◌≤◌, ◌<◌, ◌≡◌, refl, sym, ◌∙◌, ◌≢◌, inl, inr, true, Option, none, some, arith, Bool-cases,
}
use real_time_library.Alloc.{Alloc, size_mod}
use real_time_library.Bucket.{Params}
use real_time_library.Bucket.Search.{value}
use real_time_library.Table
use real_time_library.Table.{
  Table, bucket_at, set_entry, TableGetOrCreateResult, table_get_or_create_entry,
}
use real_time_library.Table.View.{IsValid, view, get-view, Changes}

module _ {A : Alloc} {K V : Type 0} (P : Params A K V) where
  -- The first value that is there.
  abbrev pub either : Option V → Option V → Option V
  either none b = b
  either (some x) b = some x

  -- A lookup in both tables, the secondary one first.
  abbrev pub lookup : Table K V → Table K V → K → Option V
  lookup main sec q = either (Table.get P sec q) (Table.get P main q)

  -- Two tables in transfer: both valid, with a value in each entry of the secondary table, and in
  -- those entries of main, and no others, whose key the secondary table does not have.
  pub record Pair (main sec : Table K V) : Type 0 where
    pub main_valid : IsValid P main
    pub sec_valid : IsValid P sec
    pub valued : (q : K) → view P sec q ≢ some none
    pub covered : (q : K) → view P main q ≡ some none → view P sec q ≢ none
    pub apart : (q : K) → view P sec q ≢ none → value P (view P main q) ≡ none
    pub room : main.total_entries + sec.total_entries + 1 < size_mod

  -- Tables after a transfer of any number of keys: a pair as before with the same lookups.
  pub record Kept (main sec main' sec' : Table K V) : Type 0 where
    pub pair : Pair main' sec'
    pub reads : (q : K) → lookup main' sec' q ≡ lookup main sec q
    pub fewer : main'.total_entries ≤ main.total_entries
    pub same_width : main'.num_buckets ≡ main.num_buckets

  pub Kept-refl : {main sec : Table K V} → Pair main sec → Kept main sec main sec
  Kept-refl pair = record { pair = pair; reads = λ q. refl; fewer = omega arith; same_width = refl }

  pub Kept-trans :
      {m s m' s' m'' s'' : Table K V} → Kept m s m' s' → Kept m' s' m'' s'' → Kept m s m'' s''
  Kept-trans a b = record {
    pair = b.pair;
    reads = λ q. b.reads q ∙ a.reads q;
    fewer = omega (arith, a.fewer, b.fewer);
    same_width = b.same_width ∙ a.same_width;
  }

  -- The lookup in terms of what the searches find.
  pub lookup-view :
      {main sec : Table K V}
      → IsValid P main
      → IsValid P sec
      → (q : K) → lookup main sec q ≡ either (value P (view P sec q)) (value P (view P main q))
  lookup-view v w q = rw (get-view P q v, get-view P q w)

  -- Changes to both tables under one key, from main to the secondary table.
  pub moved-Kept :
      {main sec main' sec' : Table K V} (k : K) (v : Option (ℕ × V))
      → Pair main sec
      → view P main k ≡ some v
      → view P sec k ≡ none
      → Changes P main k none main'
      → Changes P sec k (some v) sec'
      → main'.total_entries + 1 ≡ main.total_entries
      → sec'.total_entries ≡ sec.total_entries + 1
      → Kept main sec main' sec'
  moved-Kept {main} {sec} {main'} {sec'} k v pair here missing c d less more = record {
    pair = record {
      main_valid = c.valid;
      sec_valid = d.valid;
      valued = λ q e. ground (arith, d.reads q, pair.valued q, pair.covered k, here, missing);
      covered = λ q e f. ground (arith, d.reads q, c.reads q, pair.covered q);
      apart = λ q there. elim (Bool-cases (P.eq k q)) [
        | inl e ↦ rw (c.reads q, e)
        | inr e ↦ rw (c.reads q, e) (pair.apart q (λ f. there (rw (d.reads q, e) f)))
      ];
      room = omega (arith, pair.room);
    };
    reads = λ q.
        lookup-view c.valid d.valid q
        ∙ (same q ∙ sym (lookup-view pair.main_valid pair.sec_valid q));
    fewer = omega arith;
    same_width = c.same_width;
  }
    where
      key : (q : K) → P.eq k q ≡ true → k ≡ q
      key q e = (P.eq_iff k q).0 e

      same :
          (q : K)
          → either (value P (view P sec' q)) (value P (view P main' q))
            ≡ either (value P (view P sec q)) (value P (view P main q))
      same q = elim (Bool-cases (P.eq k q)) [
        | inl e ↦ rw (d.reads q, c.reads q, e, ← key q e, here, missing) (full v)
        | inr e ↦ rw (d.reads q, c.reads q, e)
      ]
        where
          full :
              (v : Option (ℕ × V))
              → either (value P (some v)) (value P none) ≡ either (value P none) (value P (some v))
          full none = refl
          full (some (p, x)) = refl

  -- A key of main that the secondary table has too is dropped.
  pub dropped-Kept :
      {main sec main' : Table K V} (k : K) (v : Option (ℕ × V))
      → Pair main sec
      → view P sec k ≡ some v
      → Changes P main k none main'
      → main'.total_entries + 1 ≡ main.total_entries
      → Kept main sec main' sec
  dropped-Kept {main} {sec} {main'} k v pair there c less = record {
    pair = record {
      main_valid = c.valid;
      sec_valid = pair.sec_valid;
      valued = pair.valued;
      covered = λ q e. ground (arith, c.reads q, pair.covered q);
      apart = λ q there. elim (Bool-cases (P.eq k q)) [
        | inl e ↦ rw (c.reads q, e)
        | inr e ↦ rw (c.reads q, e) (pair.apart q there)
      ];
      room = omega (arith, pair.room);
    };
    reads = λ q.
        lookup-view c.valid pair.sec_valid q
        ∙ (same q ∙ sym (lookup-view pair.main_valid pair.sec_valid q));
    fewer = omega arith;
    same_width = c.same_width;
  }
    where
      key : (q : K) → P.eq k q ≡ true → k ≡ q
      key q e = (P.eq_iff k q).0 e

      full :
          (v : Option (ℕ × V)) (a b : Option V)
          → some v ≢ some none
          → either (value P (some v)) (a) ≡ either (value P (some v)) (b)
      full none a b ne = absurd (ne refl)
      full (some (p, x)) a b ne = refl

      same :
          (q : K)
          → either (value P (view P sec q)) (value P (view P main' q))
            ≡ either (value P (view P sec q)) (value P (view P main q))
      same q = elim (Bool-cases (P.eq k q)) [
        | inl e ↦
            rw (c.reads q, e, ← key q e, there)
              (full v none (value P (view P main k)) (λ f. pair.valued k (there ∙ f)))
        | inr e ↦ rw (c.reads q, e)
      ]
