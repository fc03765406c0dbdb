-- ===== src/Vector/Removal.antt =====
-- `pop_back`, `remove_fast` and `remove_stable`: which elements stay, and which is destroyed.
use real_time_library.Base.{
  ℕ, zero, suc, ◌+◌, ◌-◌, ◌<◌, ◌≡◌, refl, sym, ap, ◌∙◌, inl, inr, true, none, some, List, [], ◌∷◌,
  ◌++◌, arith, ltb, ◌==◌, if◌then◌else◌, length, get_elem?, set, take, drop, drop_last, list_ext,
  get_elem?-take, get_elem?-drop, get_elem?-append, length-take, length-drop, length-append, lt→leb,
  eqb_refl, ne→eqb, lt-cases, eq-cases, Option-cases, length-set, length-drop_last,
  drop_last-append, get_last?-append, get_elem?-beyond, get_elem?-set, get_elem?-drop_last,
  set-beyond,
}
use real_time_library.Alloc.{Alloc, Element}
use real_time_library.Vector.{Vector, swap, shift, pop_back, remove_fast, remove_stable}

module _ {T : Type 0} where
  pub get_elem?-swap :
      (l : List T) (i j : ℕ) (x y : T) (k : ℕ)
      → get_elem? l i ≡ some x
      → get_elem? l j ≡ some y
      → i < length l
      → j < length l
      → get_elem? (swap l i j) k
        ≡ (if k == j then some x else if k == i then some y else get_elem? l k)
  unfolding swap
  get_elem?-swap l i j x y k e f p q =
      ground (arith, get_elem?-set l i y k, get_elem?-set (set l i y) j x k, length-set l i y)

  pub length-swap : (l : List T) (i j : ℕ) → length (swap l i j) ≡ length l
  unfolding swap
  length-swap l i j = elim (Option-cases (get_elem? l i)) [
    | inl e ↦ rw (e, swap)
    | inr (x, e) ↦ elim (Option-cases (get_elem? l j)) [
      | inl f ↦ rw (e, f, swap)
      | inr (y, f) ↦ rw (e, f, swap) (length-set (set l i y) j x ∙ length-set l i y)
    ]
  ]

  get_elem?-inside : (l : List T) (i : ℕ) → i < length l → (x : T) × (get_elem? l i ≡ some x)
  get_elem?-inside [] i h = absurd (omega arith)
  get_elem?-inside (x ∷ l) zero h = (x, refl)
  get_elem?-inside (x ∷ l) (suc i) h = get_elem?-inside l i (omega arith)

  length-shift : (k cur : ℕ) (l : List T) → length (shift k cur l) ≡ length l
  unfolding shift
  length-shift zero cur l = refl
  length-shift (suc k) cur l =
      length-shift k (cur + 1) (swap l cur (cur + 1)) ∙ length-swap l cur (cur + 1)

  -- The loop moves the element at `cur` to the end and the later ones one cell down.
  get_elem?-shift :
      (k cur : ℕ) (l : List T) (i : ℕ)
      → cur + k + 1 ≡ length l
      → get_elem? (shift k cur l) i ≡ (
          if ltb i cur
          then get_elem? l i
          else if ltb i (cur + k)
          then get_elem? l (i + 1)
          else if i == cur + k
          then get_elem? l cur
          else none)
  unfolding shift
  get_elem?-shift zero cur l i h = ground (arith, get_elem?-beyond l i)
  get_elem?-shift (suc k) cur l i h =
      let (x, at_cur) = get_elem?-inside l cur (omega arith) in
      let (y, at_next) = get_elem?-inside l (cur + 1) (omega arith) in
      let swapped = λ (j : ℕ).
        get_elem?-swap l cur (cur + 1) x y j at_cur at_next (omega arith) (omega arith) in
      ground (
        arith,
        get_elem?-shift k (cur + 1) (swap l cur (cur + 1)) i,
        length-swap l cur (cur + 1),
        swapped i,
        swapped (i + 1),
        swapped (cur + 1),
      )

  shift-append :
      (l : List T) (i : ℕ) (x : T)
      → i < length l
      → get_elem? l i ≡ some x
      → shift (length l - 1 - i) i l ≡ (take i l ++ drop (i + 1) l) ++ x ∷ []
  shift-append l i x h e = list_ext _ _ λ j.
      simp
        (get_elem?-append, get_elem?-take, get_elem?-drop, length-append, length-take, length-drop)
        (ground (
          arith,
          get_elem?-shift (length l - 1 - i) i l j,
          get_elem?-beyond l (i + 1 + (j - i)),
          get_elem?-beyond (x ∷ []) (j - (length l - 1)),
        ))

  -- `remove_fast` on the list: the last element takes the place of the one removed.
  abbrev pub replaced : List T → ℕ → T → List T
  replaced l i y = set (drop_last l) i y

  swap-append :
      (l : List T) (i : ℕ) (x y : T)
      → i < length l
      → get_elem? l i ≡ some x
      → get_elem? l (length l - 1) ≡ some y
      → swap l i (length l - 1) ≡ replaced l i y ++ x ∷ []
  swap-append l i x y h e f = list_ext _ _ λ j. elim (lt-cases (i + 1) (length l)) [
    | inl k ↦
        simp (get_elem?-append, length-set, length-drop_last)
          (ground (
            arith,
            get_elem?-swap l i (length l - 1) x y j,
            get_elem?-set (drop_last l) i y j,
            length-drop_last l,
            get_elem?-drop_last l j,
            get_elem?-beyond l j,
            get_elem?-beyond (x ∷ []) (j - (length l - 1)),
          ))
    | inr k ↦
        simp (get_elem?-append, length-set, length-drop_last)
          (ground (
            arith,
            get_elem?-swap l i (length l - 1) x y j,
            set-beyond (drop_last l) i y,
            length-drop_last l,
            get_elem?-drop_last l j,
            get_elem?-beyond l j,
            get_elem?-beyond (x ∷ []) (j - (length l - 1)),
          ))
  ]

module _ {A : Alloc} {T : Type 0} (E : Element A T) where
  pub pop_back-append :
      (v : Vector T) (ys : List T) (x : T) (h : A.Heap)
      → v.items ≡ ys ++ x ∷ []
      → pop_back E v h ≡ (record v { items = ys }, E.destroy x h)
  unfolding pop_back
  pop_back-append v ys x h e = simp (e, pop_back, get_last?-append, drop_last-append)

  -- `remove_stable` at an index inside the vector destroys exactly the element there and keeps the
  -- others in their order.
  pub remove_stable-inside :
      (v : Vector T) (i : ℕ) (x : T) (h : A.Heap)
      → i < length v.items
      → get_elem? v.items i ≡ some x
      → remove_stable E v i h
        ≡ (record v { items = take i v.items ++ drop (i + 1) v.items }, E.destroy x h)
  unfolding remove_stable shift
  remove_stable-inside v i x h inside e = elim (eq-cases i (length v.items - 1)) [
    | inl last ↦
        rw (lt→leb (length v.items) i inside, test last)
          (pop_back-append v (take i v.items ++ drop (i + 1) v.items) x h (whole last))
    | inr ne ↦
        rw (lt→leb (length v.items) i inside, ne→eqb i (length v.items - 1) ne)
          (pop_back-append (record v { items = shift (length v.items - 1 - i) i v.items }) _ x h
            (shift-append v.items i x inside e))
  ]
    where
      test : i ≡ length v.items - 1 → (i == length v.items - 1) ≡ true
      test last = rw (← last) (eqb_refl i)

      whole : i ≡ length v.items - 1 → v.items ≡ (take i v.items ++ drop (i + 1) v.items) ++ x ∷ []
      whole last =
          let none_left : length v.items - 1 - i ≡ 0 = omega arith in
          sym (ap (λ k. shift k i v.items) none_left) ∙ shift-append v.items i x inside e

  -- `remove_fast` at an index inside the vector destroys exactly the element there; the last
  -- element takes its place and the others stay where they are.
  pub remove_fast-inside :
      (v : Vector T) (i : ℕ) (x y : T) (h : A.Heap)
      → i < length v.items
      → get_elem? v.items i ≡ some x
      → get_elem? v.items (length v.items - 1) ≡ some y
      → remove_fast E v i h ≡ (record v { items = replaced v.items i y }, E.destroy x h)
  unfolding remove_fast
  remove_fast-inside v i x y h inside e f = rw (lt→leb (length v.items) i inside) (
      pop_back-append (record v { items = swap v.items i (length v.items - 1) }) _ x h
        (swap-append v.items i x y inside e f))
