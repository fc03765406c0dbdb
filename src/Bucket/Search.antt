-- ===== src/Bucket/Search.antt =====
-- The entries of a bucket as an association list: what the search finds, and what the changes of
-- the bucket operations mean for it.
use real_time_library.Base.{
  ℕ, suc, ◌<◌, ◌≡◌, refl, ap, ◌⊎◌, inl, inr, true, false, Option, none, some, List, [], ◌∷◌, ◌++◌,
  arith, if◌then◌else◌, length, get_elem?, set, Bool-cases, Option-cases,
}
use real_time_library.Alloc.{Alloc}
use real_time_library.Bucket.{Params, Entry, pointee, find_index}

module _ {A : Alloc} {K V : Type 0} (P : Params A K V) where
  -- The value of the first entry under a key: `none` where there is no entry, `some none` for an
  -- entry with no value.
  abbrev pub find : K → List (Entry K V) → Option (Option (ℕ × V))
  find q [] = none
  find q (e ∷ es) = if P.eq e.key q then some e.val else find q es

  -- How many entries stand under a key.
  abbrev pub count : K → List (Entry K V) → ℕ
  count q [] = 0
  count q (e ∷ es) = if P.eq e.key q then suc (count q es) else count q es

  -- The value that a search result points to.
  abbrev pub value : Option (Option (ℕ × V)) → Option V
  value none = none
  value (some v) = pointee v

  pub eq_self : (k : K) → P.eq k k ≡ true
  eq_self k = (P.eq_iff k k).1 refl

  pub find-none :
      (k : K) (es : List (Entry K V))
      → find_index P es k ≡ none
      → (find k es ≡ none) × (count k es ≡ 0)
  unfolding find_index
  find-none k [] h = (refl, refl)
  find-none k (e ∷ es) h = ground (arith, find-none k es)

  -- The search in a bucket with a first entry ends there, or in the rest.
  pub find_index-cases :
      (k : K) (e : Entry K V) (es : List (Entry K V)) (i : ℕ)
      → find_index P (e ∷ es) k ≡ some i
      → ((i ≡ 0) × (P.eq e.key k ≡ true))
        ⊎ ((j : ℕ) × (i ≡ suc j) × (P.eq e.key k ≡ false) × (find_index P es k ≡ some j))
  unfolding find_index
  find_index-cases k e es i h = elim (Bool-cases (P.eq e.key k)) [
    | inl same ↦ inl (ground arith, same)
    | inr other ↦ elim (Option-cases (find_index P es k)) [
      | inl missing ↦ cc (rest-none other missing)
      | inr (j, here) ↦ inr (j, ground arith, other, here)
    ]
  ]
    where
      rest-none : P.eq e.key k ≡ false → find_index P es k ≡ none → some i ≡ none
      rest-none other missing = ground arith

  -- What the search has found.
  pub record Hit (k : K) (es : List (Entry K V)) (i : ℕ) (e : Entry K V) : Type 0 where
    pub at_index : get_elem? es i ≡ some e
    pub same_key : e.key ≡ k
    pub finds : find k es ≡ some e.val
    pub inside : i < length es

  pub find_index-Hit :
      (k : K) (es : List (Entry K V)) (i : ℕ)
      → find_index P es k ≡ some i
      → (e : Entry K V) × Hit k es i e
  unfolding find_index
  find_index-Hit k [] i h = cc
  find_index-Hit k (e ∷ es) i h = elim (find_index-cases k e es i h) [
    | inl (first, same) ↦ (
      e,
      record {
        at_index = rw first;
        same_key = (P.eq_iff e.key k).0 same;
        finds = rw same;
        inside = omega arith;
      },
    )
    | inr (j, later, other, here) ↦
        let (e', hit) = find_index-Hit k es j here in
        (
          e',
          record {
            at_index = rw later hit.at_index;
            same_key = hit.same_key;
            finds = rw other hit.finds;
            inside = omega arith;
          },
        )
  ]

  -- A new value in the entry that the search has found.
  pub find-set :
      (k : K) (es : List (Entry K V)) (i : ℕ) (v : Option (ℕ × V)) (q : K)
      → find_index P es k ≡ some i
      → (find q (set es i (record { key = k; val = v })) ≡ (if P.eq k q then some v else find q es))
        × (count q (set es i (record { key = k; val = v })) ≡ count q es)
  unfolding find_index
  find-set k [] i v q h = cc
  find-set k (e ∷ es) i v q h = elim (find_index-cases k e es i h) [
    | inl (first, same) ↦
        let e_is_k = (P.eq_iff e.key k).0 same in
        rw first (ground (arith, ap (λ x. P.eq x q) e_is_k))
    | inr (j, later, other, here) ↦ rw later (
        ground (
          arith,
          find-set k es j v q here,
          (P.eq_iff e.key q).0,
          (P.eq_iff k q).0,
          ap (λ x. P.eq x k),
          (P.eq_iff e.key k).1,
        ))
  ]

  -- A new entry under a key that is not there yet.
  pub find-append :
      (es : List (Entry K V)) (e : Entry K V) (q : K)
      → find e.key es ≡ none
      → (find q (es ++ e ∷ []) ≡ (if P.eq e.key q then some e.val else find q es))
        × (count q (es ++ e ∷ []) ≡ (if P.eq e.key q then suc (count q es) else count q es))
  find-append [] e q h = (refl, refl)
  find-append (e' ∷ es) e q h = ground (
    arith,
    find-append es e q,
    (P.eq_iff e'.key q).0,
    (P.eq_iff e.key q).0,
    (P.eq_iff e'.key e.key).1,
  )

  -- The search for the key of a new last entry ends there.
  pub find_index-append :
      (k : K) (es : List (Entry K V)) (v : Option (ℕ × V))
      → find_index P es k ≡ none
      → find_index P (es ++ record { key = k; val = v } ∷ []) k ≡ some (length es)
  unfolding find_index
  find_index-append k [] v h = rw (eq_self k)
  find_index-append k (e ∷ es) v h = ground (arith, find_index-append k es v)
