-- ===== src/Bucket/Removal.antt =====
-- `bucket_remove`: the entry under the key goes, and the last one takes its place.
use real_time_library.Base.{
  ℕ, suc, ◌+◌, ◌-◌, ◌≤◌, ◌<◌, ◌≡◌, refl, sym, ap, ◌∙◌, ◌⊎◌, inl, inr, true, false, Option, none,
  some, List, [], ◌∷◌, ◌++◌, arith, if◌then◌else◌, length, get_elem?, set, drop_last, get_last?,
  Option-cases, length-set, length-drop_last, append-drop_last,
}
use real_time_library.Alloc.{Alloc}
use real_time_library.Vector.Removal.{replaced, remove_fast-inside}
use real_time_library.Bucket.{
  Params, Entry, Bucket, find_index, bucket_remove, deconstruct, entry_element,
}
use real_time_library.Bucket.Search.{
  find, count, find_index-Hit, find_index-cases, find-set, find-none, eq_self,
}

get_last?-eq-get_elem? {ℓ} :
    {T : Type ℓ} (xs : List T) → get_last? xs ≡ get_elem? xs (length xs - 1)
get_last?-eq-get_elem? [] = refl
get_last?-eq-get_elem? (x ∷ []) = ground arith
get_last?-eq-get_elem? (x ∷ y ∷ xs) = ground (arith, get_last?-eq-get_elem? (y ∷ xs))

get_last?-cons {ℓ} : {T : Type ℓ} (x : T) (xs : List T) → (y : T) × (get_last? (x ∷ xs) ≡ some y)
get_last?-cons x [] = (x, refl)
get_last?-cons x (x' ∷ xs) = get_last?-cons x' xs

module _ {A : Alloc} {K V : Type 0} (P : Params A K V) where
  pub find-count_zero : (q : K) (es : List (Entry K V)) → count P q es ≡ 0 → find P q es ≡ none
  find-count_zero q [] h = refl
  find-count_zero q (e ∷ es) h = ground (arith, find-count_zero q es)

  pub find-snoc :
      (q : K) (es : List (Entry K V)) (y : Entry K V)
      → count P q (es ++ y ∷ []) ≤ 1
      → (find P q (es ++ y ∷ []) ≡ (if P.eq y.key q then some y.val else find P q es))
        × (count P q (es ++ y ∷ []) ≡ (if P.eq y.key q then suc (count P q es) else count P q es))
  find-snoc q [] y h = (refl, refl)
  find-snoc q (e ∷ es) y h = ground (arith, find-snoc q es y)

  -- The first entry goes and the last one takes its place.
  find-rotate :
      (k : K) (e : Entry K V) (ys : List (Entry K V)) (y : Entry K V) (q : K)
      → P.eq e.key k ≡ true
      → count P q (e ∷ (ys ++ y ∷ [])) ≤ 1
      → (find P q (y ∷ ys) ≡ (if P.eq k q then none else find P q (e ∷ (ys ++ y ∷ []))))
        × (count P q (y ∷ ys) ≡ (if P.eq k q then 0 else count P q (e ∷ (ys ++ y ∷ []))))
  find-rotate k e ys y q same once =
      let same_test : P.eq e.key q ≡ P.eq k q = ap (λ x. P.eq x q) ((P.eq_iff e.key k).0 same) in
      ground (arith, same_test, find-snoc q ys y, find-count_zero q ys)

  pub find-replaced :
      (k : K) (es : List (Entry K V)) (i : ℕ) (y : Entry K V) (q : K)
      → find_index P es k ≡ some i
      → get_last? es ≡ some y
      → count P q es ≤ 1
      → (find P q (replaced es i y) ≡ (if P.eq k q then none else find P q es))
        × (count P q (replaced es i y) ≡ (if P.eq k q then 0 else count P q es))
  unfolding find_index
  find-replaced k [] i y q h last once = cc
  find-replaced k (e ∷ []) i y q h last once = elim (find_index-cases P k e [] i h) [
    | inl (first, same) ↦ ground (arith, (P.eq_iff e.key k).0, ap (λ x. P.eq x q))
    | inr (j, later, other, here) ↦ cc
  ]
  find-replaced k (e ∷ e' ∷ es) i y q h last once = elim (find_index-cases P k e (e' ∷ es) i h) [
    | inl (first, same) ↦
        let rest : drop_last (e' ∷ es) ++ y ∷ [] ≡ e' ∷ es = append-drop_last (e' ∷ es) y last in
        let turned = find-rotate k e (drop_last (e' ∷ es)) y q same (rw rest once) in
        rw first (rw rest at turned)
    | inr (j, later, other, here) ↦
        let (finds, counts) = find-replaced k (e' ∷ es) j y q here last (ground arith) in
        rw later (
          ground (
            arith,
            finds,
            counts,
            (P.eq_iff e.key q).0,
            (P.eq_iff k q).0,
            (P.eq_iff e.key k).1,
            find-count_zero q (e' ∷ es),
          ))
  ]

  find_index-set :
      (k : K) (es : List (Entry K V)) (i : ℕ) (v : Option (ℕ × V))
      → find_index P es k ≡ some i
      → find_index P (set es i (record { key = k; val = v })) k ≡ some i
  unfolding find_index
  find_index-set k [] i v h = cc
  find_index-set k (e ∷ es) i v h = elim (find_index-cases P k e es i h) [
    | inl (first, same) ↦ rw (first, eq_self P k)
    | inr (j, later, other, here) ↦
        rw (later, other, find_index-set k es j v here) (ap some (omega arith))
  ]

  -- What a bucket without the entry under `k` reads as.
  pub record Removed (k : K) (b b' : Bucket K V) : Type 0 where
    pub was_there : (v : Option (ℕ × V)) × (find P k b.items ≡ some v)
    pub shorter : length b'.items + 1 ≡ length b.items
    pub reads : (q : K) → find P q b'.items ≡ (if P.eq k q then none else find P q b.items)
    pub counts : (q : K) → count P q b'.items ≡ (if P.eq k q then 0 else count P q b.items)

  module _ (b : Bucket K V) (k : K) (h : A.Heap) (once : (q : K) → count P q b.items ≤ 1) where
    remove-missing : find_index P b.items k ≡ none → bucket_remove P b k h ≡ (false, b, h)
    unfolding bucket_remove
    remove-missing e = rw (e, bucket_remove)

    deconstruct-key :
        (e : Entry K V) → e.key ≡ k → (deconstruct P e h).0 ≡ record { key = k; val = none }
    unfolding deconstruct
    deconstruct-key e same = elim (Option-cases e.val) [
      | inl none_there ↦ ground arith
      | inr (x, there) ↦ ground arith
    ]

    remove-present :
        (i : ℕ)
        → find_index P b.items k ≡ some i
        → (b' : Bucket K V) × (h' : A.Heap) × (bucket_remove P b k h ≡ (true, b', h'))
          × Removed k b b'
    unfolding bucket_remove
    remove-present i here =
        let (e, hit) = find_index-Hit P k b.items i here in
        let es = set b.items i (record { key = k; val = none }) in
        let len = length-set b.items i (record { key = k; val = none }) in
        let (y, last) = last_of es (omega (arith, len, hit.inside)) in
        let here' = find_index-set k b.items i none here in
        let cleared = λ (q : K). find-set P k b.items i none q here in
        let gone = λ (q : K). find-replaced k es i y q here' last (rw (cleared q).1 (once q)) in
        let hit' = (find_index-Hit P k es i here').1 in
        let removal =
          remove_fast-inside (entry_element P) (record b { items = es }) i _ y (deconstruct P e h).1
            hit'.inside hit'.at_index (sym (get_last?-eq-get_elem? es) ∙ last) in
        (
          record b { items = replaced es i y },
          (deconstruct P e h).1,
          simp (here, hit.at_index, bucket_remove, deconstruct-key e hit.same_key)
              (ap (λ (r : Bucket K V × A.Heap). (true, r.0, r.1)) removal),
          record {
            was_there = (e.val, hit.finds);
            shorter =
                omega (arith, length-set (drop_last es) i y, length-drop_last es, len, hit.inside);
            reads = λ q. ground (arith, gone q, cleared q);
            counts = λ q. ground (arith, gone q, cleared q);
          },
        )
      where
        last_of :
            (es : List (Entry K V)) → 0 < length es → (y : Entry K V) × (get_last? es ≡ some y)
        last_of [] pos = absurd (omega arith)
        last_of (x ∷ es) pos = get_last?-cons x es

    -- `bucket_remove` finds nothing and changes nothing, or takes the entry under the key away.
    pub bucket_remove-cases :
        ((find P k b.items ≡ none) × (bucket_remove P b k h ≡ (false, b, h)))
        ⊎ ((b' : Bucket K V) × (h' : A.Heap) × (bucket_remove P b k h ≡ (true, b', h'))
            × Removed k b b')
    bucket_remove-cases = elim (Option-cases (find_index P b.items k)) [
      | inl e ↦ inl ((find-none P k b.items e).0, remove-missing e)
      | inr (i, here) ↦ inr (remove-present i here)
    ]
