-- ===== src/Vector/Copying.antt =====
-- `copy` and `operator==`.
use real_time_library.Base.{
  sym, ◌==◌, ◌||◌, leb, ◌+◌, ◌≤◌, ◌≡◌, refl, ap, ◌∙◌, inl, inr, ◌↔◌, Bool, true, false, List, [],
  ◌∷◌, ◌++◌, arith, length, length-append, eqb_refl, ne→eqb, eq-cases, Bool-cases,
}
use mathlib.Core.List.{append-nil, append_assoc}
use real_time_library.Alloc.{Alloc, Element, mul_size, granted}
use real_time_library.Vector.{Vector, new, reserve, push_all, copy, equal, equal_cells}
use real_time_library.Vector.Growth.{reserve_lem, reserve-granted, push_back_spare}

module _ {T : Type 0} (eq : T → T → Bool) (eq_iff : (x y : T) → (eq x y ≡ true) ↔ (x ≡ y)) where
  equal_cells_iff :
      (xs ys : List T) → length xs ≡ length ys → (equal_cells eq xs ys ≡ true) ↔ (xs ≡ ys)
  unfolding equal_cells
  equal_cells_iff [] [] h = ground arith
  equal_cells_iff [] (y ∷ ys) h = absurd (omega arith)
  equal_cells_iff (x ∷ xs) [] h = absurd (omega arith)
  equal_cells_iff (x ∷ xs) (y ∷ ys) h =
      let (here, back) = eq_iff x y in
      let (rest, whole) = equal_cells_iff xs ys (omega arith) in
      (λ e. ground arith, λ e. ground arith)

  -- `operator==` with an element equality that decides `≡` is equality of the elements in order.
  equal_iff : (v w : Vector T) → (equal eq v w ≡ true) ↔ (v.items ≡ w.items)
  unfolding equal
  equal_iff v w = elim (eq-cases (length v.items) (length w.items)) [
    | inl e ↦ rw (e, eqb_refl (length w.items)) (equal_cells_iff v.items w.items e)
    | inr ne ↦ rw (ne→eqb _ _ ne) (λ e. cc, λ e. absurd (ne (ap length e)))
  ]

module _ {A : Alloc} {T : Type 0} (E : Element A T) where
  pub push_all_spare :
      (v : Vector T) (xs : List T) (h : A.Heap)
      → length v.items + length xs ≤ v.capacity
      → push_all E v xs h ≡ (true, record v { items = v.items ++ xs }, h)
  unfolding push_all
  push_all_spare v [] h room = rw append-nil
  push_all_spare v (x ∷ xs) h room =
      ap step (push_back_spare E v x h (omega arith))
      ∙ (push_all_spare (record v { items = v.items ++ x ∷ [] }) xs h
            (omega (arith, length-append v.items (x ∷ [])))
          ∙ ap (λ l. (true, record v { items = l }, h)) (append_assoc v.items (x ∷ []) xs))
    where
      step : Bool × Vector T × A.Heap → Bool × Vector T × A.Heap
      step (pushed, v', h') = elim pushed [ true ↦ push_all E v' xs h' | false ↦ (false, v', h') ]

  -- `copy` from a vector whose elements fit its capacity returns true exactly where that capacity is
  -- 0 or its one request for memory is granted; the target holds the same elements then, and else is
  -- as it was.
  pub copy_lem :
      (v o : Vector T) (h : A.Heap)
      → length o.items ≤ o.capacity
      → let (done, v', _) = copy E v o h in
        (done ≡ (o.capacity == 0 || granted (A.allocate (mul_size o.capacity E.size_of) h).0))
        × (done ≡ true → v'.items ≡ o.items)
        × (done ≡ false → v' ≡ v)
  unfolding copy
  copy_lem v o h fits =
      let (kept, _, enough, _) = reserve_lem E new o.capacity h in
      let none_asked : leb o.capacity 0 ≡ (o.capacity == 0) = ground arith in
      let answer =
        reserve-granted E new o.capacity h
        ∙ ap (λ b. b || granted (A.allocate (mul_size o.capacity E.size_of) h).0) none_asked in
      elim (Bool-cases (reserve E new o.capacity h).0) [
        | inl e ↦
            let spare : length (reserve E new o.capacity h).1.items + length o.items
                ≤ (reserve E new o.capacity h).1.capacity =
              omega (arith, ap length kept, enough.0 e) in
            rw
              (
                push_all_spare (reserve E new o.capacity h).1 o.items (reserve E new o.capacity h).2
                    spare,
                e,
                kept,
              )
              (sym e ∙ answer, λ _. refl, λ f. cc)
        | inr e ↦ rw e (sym e ∙ answer, λ f. cc, λ _. refl)
      ]
