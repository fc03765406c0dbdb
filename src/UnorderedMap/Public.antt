-- ===== src/UnorderedMap/Public.antt =====
-- The public lookups of the map.
use real_time_library.Base.{
  ℕ, ◌≡◌, refl, ◌⊎◌, inl, inr, Bool, true, false, Option, none, some, arith, Bool-cases,
  Option-cases,
}
use real_time_library.Alloc.{Alloc}
use real_time_library.Bucket.{Params}
use real_time_library.Table
use real_time_library.Table.{Table, get_next_power_of_2}
use real_time_library.UnorderedMap.{
  UnorderedMap, MapState, error, stable, transfer, table_of, should_resize, is_transfer_complete,
  begin_resize, perform_partial_transfer, after_stable, after_transfer,
}
use real_time_library.UnorderedMap.Methods.{contains, get_either}

module _ {A : Alloc} {K V : Type 0} (P : Params A K V) where
  -- The value that a map has for a key, by its state.
  abbrev pub find_by_state : MapState → UnorderedMap K V → K → Option V
  find_by_state error m k = none
  find_by_state stable m k = Table.get P (table_of m.main) k
  find_by_state transfer m k = get_either P m k

  abbrev pub is_some : Option V → Bool
  is_some none = false
  is_some (some x) = true

  pub after_stable-cases :
      {R : Type 0} (m : UnorderedMap K V) (h : A.Heap) (failure result : R)
      → let (r, m', _) = after_stable P m h failure result in
        (r ≡ result) ⊎ ((r ≡ failure) × (m'.state ≡ error))
  unfolding after_stable
  after_stable-cases m h failure result = elim (Bool-cases (should_resize m)) [
    | inr not_due ↦ rw not_due (inl refl)
    | inl due ↦ elim (Bool-cases (begin_resize P m (get_next_power_of_2 (table_of m.main)) h).0) [
      | inl begun ↦ rw (due, begun) (inl refl)
      | inr refused ↦ rw (due, refused) (inr (refl, refl))
    ]
  ]

  pub after_transfer-cases :
      {R : Type 0} (m : UnorderedMap K V) (h : A.Heap) (failure result : R)
      → let (r, m', _) = after_transfer P m h failure result in
        (r ≡ result) ⊎ ((r ≡ failure) × (m'.state ≡ error))
  unfolding after_transfer
  after_transfer-cases m h failure result = elim (Bool-cases (perform_partial_transfer P m h).0) [
    | inr refused ↦ rw refused (inr (refl, refl))
    | inl moved ↦ elim (Bool-cases (is_transfer_complete (perform_partial_transfer P m h).1)) [
      | inl done ↦ rw (moved, done) (inl refl)
      | inr more ↦ rw (moved, more) (inl refl)
    ]
  ]

  -- `contains` says in every state whether the map has a value for the key.
  pub contains-find :
      (m : UnorderedMap K V) (k : K) → contains P m k ≡ is_some (find_by_state m.state m k)
  unfolding contains get_either
  contains-find m k = go m.state refl
    where
      main_case :
          elim (Table.get P (table_of m.main) k) [ none ↦ false | some _ ↦ true ]
          ≡ is_some (Table.get P (table_of m.main) k)
      main_case = elim (Option-cases (Table.get P (table_of m.main) k)) [
        | inl e ↦ ground (arith, e)
        | inr (x, e) ↦ ground (arith, e)
      ]

      go : (s : MapState) → m.state ≡ s → contains P m k ≡ is_some (find_by_state m.state m k)
      go error e = ground (arith, e)
      go stable e = ground (arith, e, main_case)
      go transfer e = ground (arith, e, main_case)

  begin_resize-main :
      (m : UnorderedMap K V) (n : ℕ) (h : A.Heap) → (begin_resize P m n h).1.main ≡ m.main
  unfolding begin_resize
  begin_resize-main m n h = ground arith

  after_stable-main :
      {R : Type 0} (m : UnorderedMap K V) (h : A.Heap) (failure result : R)
      → (after_stable P m h failure result).1.main ≡ m.main
  unfolding after_stable
  after_stable-main m h failure result =
      ground (arith, begin_resize-main m (get_next_power_of_2 (table_of m.main)) h)
