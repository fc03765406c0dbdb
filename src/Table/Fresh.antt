-- ===== src/Table/Fresh.antt =====
-- The table of the constructor: it has no entries.
use real_time_library.Base.{
  ℕ, zero, suc, ◌+◌, ◌<◌, ◌≡◌, refl, sym, ap, ◌∙◌, inl, inr, none, List, [], ◌∷◌, ◌++◌, arith,
  length, get_or, length-append, Bool-cases,
}
use real_time_library.Alloc.{Alloc}
use real_time_library.Primes.{get_prime_power_of_2}
use real_time_library.Vector.{Vector, new, push_back}
use real_time_library.Vector.Growth.{push_back-append, reserve_lem}
use real_time_library.Bucket.{Params, Bucket, bucket_element}
use real_time_library.Table.{push_buckets, expand, clamp_power, new_table, get_bucket_index}
use real_time_library.Table.View.{IsValid, view, entries-eq-zero}

module _ {K V : Type 0} where
  -- Every bucket is empty, whatever the index.
  abbrev pub Blank : List (Bucket K V) → Type 0
  Blank bs = (i : ℕ) → get_or bs i new ≡ new

  append-Blank : (bs : List (Bucket K V)) → Blank bs → Blank (bs ++ new ∷ [])
  append-Blank [] blank zero = refl
  append-Blank [] blank (suc i) = refl
  append-Blank (b ∷ bs) blank zero = blank 0
  append-Blank (b ∷ bs) blank (suc i) = append-Blank bs (λ j. blank (suc j)) i

module _ {A : Alloc} {K V : Type 0} (P : Params A K V) where
  push_buckets-Blank :
      (left i : ℕ) (bs : Vector (Bucket K V)) (h : A.Heap)
      → length bs.items ≡ i
      → Blank bs.items
      → let (n, bs', _) = push_buckets P left i bs h in (n ≡ length bs'.items) × Blank bs'.items
  unfolding push_buckets
  push_buckets-Blank zero i bs h size blank = (sym size, blank)
  push_buckets-Blank (suc left) i bs h size blank =
      let (added, kept) = push_back-append (bucket_element P) bs new h in
      elim (Bool-cases (push_back (bucket_element P) bs new h).0) [
        | inl pushed ↦
            rw (pushed, push_buckets)
              (push_buckets-Blank left (i + 1) _ _
                (ap length (added pushed) ∙ (length-append bs.items (new ∷ []) ∙ omega arith))
                (rw (added pushed) (append-Blank bs.items blank)))
        | inr refused ↦ rw (refused, push_buckets) (rw (kept refused) (sym size, blank))
      ]

  expand-Blank :
      (num : ℕ) (h : A.Heap)
      → let (n, bs, _) = expand P num h in (n ≡ length bs.items) × Blank bs.items
  unfolding expand
  expand-Blank num h =
      let (same, _, _, _) = reserve_lem (bucket_element P) new num h in
      push_buckets-Blank num 0 _ _ (ap length same) (rw same (λ i. refl))

  -- A new table, if it got any buckets at all, is valid and holds nothing.
  pub new_table-empty :
      (n : ℕ) (h : A.Heap)
      → let (t, _) = new_table P n h in
        0 < t.num_buckets → IsValid P t × ((q : K) → view P t q ≡ none) × (t.total_entries ≡ 0)
  unfolding new_table
  new_table-empty n h some_buckets =
      let (size, blank) = expand-Blank (get_prime_power_of_2 (clamp_power P n)) h in
      (
        record {
          width = size;
          nonempty = some_buckets;
          counted =
              sym (entries-eq-zero _ (λ j _. ap (λ (b : Bucket K V). length b.items) (blank j)));
          placed = λ q i. rw (blank i) (omega arith, λ _. refl);
        },
        λ q. rw (blank (get_bucket_index P (new_table P n h).0 q)) refl,
        refl,
      )
