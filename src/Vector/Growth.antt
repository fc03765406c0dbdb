-- ===== src/Vector/Growth.antt =====
-- `reserve` and `push_back`: the elements survive a reallocation, and a failure changes nothing.
use real_time_library.Base.{
  ℕ, zero, suc, ◌^◌, ◌≤◌, ◌<◌, ◌≡◌, refl, sym, ap, ◌∙◌, inl, inr, ◌↔◌, true, false, none, some,
  List, [], ◌∷◌, ◌++◌, arith, ◌==◌, if◌then◌else◌, length, get_elem?, take, Bool-cases, ◌||◌, leb,
  Option-cases, take-all,
}
use mathlib.Core.List.{append-nil}
use real_time_library.Alloc.{Alloc, Element, mul_size, granted, Later, now, allocated, freed}
use real_time_library.Vector.{Vector, relocate, reserve, grow, push_back}

-- The buffer is there exactly when the capacity is not 0, and holds all elements.
pub record IsValid {T : Type 0} (v : Vector T) : Type 0 where
  pub fits : length v.items ≤ v.capacity
  pub no_buffer : v.capacity ≡ 0 → v.buf ≡ none
  pub buffer : v.buf ≡ none → v.capacity ≡ 0

module _ {T : Type 0} where
  length-get_elem? : (xs : List T) (k : ℕ) → get_elem? xs k ≡ none → length xs ≤ k
  length-get_elem? [] k e = omega arith
  length-get_elem? (x ∷ xs) zero e = cc
  length-get_elem? (x ∷ xs) (suc k) e = omega (arith, length-get_elem? xs k e)

  take-suc :
      (k : ℕ) (xs ys : List T) (x : T)
      → get_elem? xs k ≡ some x
      → take (suc k) xs ++ ys ≡ take k xs ++ x ∷ ys
  take-suc k [] ys x e = cc
  take-suc zero (z ∷ xs) ys x e = ground arith
  take-suc (suc k) (z ∷ xs) ys x e = ap (λ l. z ∷ l) (take-suc k xs ys x e)

  relocate-take :
      (k : ℕ) (old moved : List T) → k ≤ length old → relocate k old moved ≡ take k old ++ moved
  unfolding relocate
  relocate-take zero old moved h = refl
  relocate-take (suc k) old moved h = elim (Option-cases (get_elem? old k)) [
    | inl e ↦ absurd (omega (arith, length-get_elem? old k e))
    | inr (x, e) ↦
        rw (e, relocate)
          (rw (relocate-take k old (x ∷ moved) (omega arith)) (sym (take-suc k old moved x e)))
  ]

  pub relocate-length : (old : List T) → relocate (length old) old [] ≡ old
  relocate-length old =
      relocate-take (length old) old [] (omega arith)
      ∙ (append-nil _ ∙ take-all (length old) old (omega arith))

module _ {A : Alloc} {T : Type 0} (E : Element A T) where
  -- `reserve` on any vector: the elements stay as they are and the capacity does not fall. It
  -- returns true exactly when the capacity is at least the requested one afterwards, and on false
  -- nothing changes.
  pub reserve_lem :
      (v : Vector T) (n : ℕ) (h : A.Heap)
      → let (done, v', _) = reserve E v n h in
        (v'.items ≡ v.items)
        × (v.capacity ≤ v'.capacity)
        × ((done ≡ true) ↔ (n ≤ v'.capacity))
        × (done ≡ false → v' ≡ v)
  unfolding reserve
  reserve_lem v n h = ground (arith, relocate-length v.items)

  -- `reserve` returns true exactly where the capacity is enough already or its one request for memory
  -- is granted.
  pub reserve-granted :
      (v : Vector T) (n : ℕ) (h : A.Heap)
      → (reserve E v n h).0 ≡ (leb n v.capacity || granted (A.allocate (mul_size n E.size_of) h).0)
  unfolding reserve
  reserve-granted v n h = ground arith

  -- Where it returns false, the heap is the one after that request.
  pub reserve-refused :
      (v : Vector T) (n : ℕ) (h : A.Heap)
      → v.capacity < n
      → (A.allocate (mul_size n E.size_of) h).0 ≡ none
      → reserve E v n h ≡ (false, v, (A.allocate (mul_size n E.size_of) h).1)
  unfolding reserve
  reserve-refused v n h more e = ground (arith, e)

  pub reserve-Later : (v : Vector T) (n : ℕ) (h : A.Heap) → Later A h (reserve E v n h).2
  unfolding reserve
  reserve-Later v n h = elim (Bool-cases (leb n v.capacity)) [
    | inl enough ↦ rw (enough, reserve) now
    | inr more ↦ elim (Option-cases (A.allocate (mul_size n E.size_of) h).0) [
      | inl e ↦ rw (more, e, reserve) (allocated (mul_size n E.size_of) now)
      | inr (p, e) ↦ rw (more, e, reserve) (freed v.buf (allocated (mul_size n E.size_of) now))
    ]
  ]

  pub reserve-IsValid :
      {v : Vector T} (n : ℕ) (h : A.Heap) → IsValid v → IsValid (reserve E v n h).1
  unfolding reserve
  reserve-IsValid {v} n h valid = ground (arith, relocate-length v.items)

  pub grow_room :
      (v : Vector T) (h : A.Heap)
      → IsValid v
      → v.capacity < 2 ^ 63
      → (grow E v h).0 ≡ true
      → length v.items < (grow E v h).1.capacity
  unfolding grow
  grow_room v h valid small e =
      ground (arith, reserve_lem v (if v.capacity == 0 then 1 else mul_size 2 v.capacity) h)

  pub grow_keeps :
      (v : Vector T) (h : A.Heap)
      → ((grow E v h).1.items ≡ v.items) × ((grow E v h).0 ≡ false → (grow E v h).1 ≡ v)
  unfolding grow
  grow_keeps v h =
      ground (arith, reserve_lem v (if v.capacity == 0 then 1 else mul_size 2 v.capacity) h)

  pub grow-IsValid : {v : Vector T} (h : A.Heap) → IsValid v → IsValid (grow E v h).1
  unfolding grow
  grow-IsValid {v} h valid =
      ground (arith, reserve-IsValid (if v.capacity == 0 then 1 else mul_size 2 v.capacity) h valid)

  -- `push_back` adds the value behind the elements or, where no memory is to be had, returns false
  -- and leaves the vector as it was.
  pub push_back-append :
      (v : Vector T) (x : T) (h : A.Heap)
      → let (done, v', _) = push_back E v x h in
        (done ≡ true → v'.items ≡ v.items ++ x ∷ []) × (done ≡ false → v' ≡ v)
  unfolding push_back
  push_back-append v x h = ground (arith, grow_keeps v h)

  -- While the capacity is not used up, `push_back` succeeds and does not touch the allocator.
  pub push_back_spare :
      (v : Vector T) (x : T) (h : A.Heap)
      → length v.items < v.capacity
      → push_back E v x h ≡ (true, record v { items = v.items ++ x ∷ [] }, h)
  unfolding push_back grow
  push_back_spare v x h room = ground arith
