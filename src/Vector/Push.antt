-- ===== src/Vector/Push.antt =====
-- `push_back`: when it grows, when it fails, and where it stores.
use real_time_library.Base.{
  ℕ, ◌*◌, ◌%◌, ◌^◌, ◌<◌, ◌≡◌, refl, sym, ap, ◌∙◌, inl, inr, Bool, true, false, ◌||◌, Option, none,
  some, [], ◌∷◌, ◌++◌, arith, leb, ◌==◌, if◌then◌else◌, length, eqb_refl, Bool-cases,
}
use real_time_library.Alloc.{Alloc, Element, mul_size, granted, Later, now, OutOfMemory}
use real_time_library.Vector.{Vector, reserve, grow, push_back}
use real_time_library.Vector.Growth.{reserve-granted, reserve-refused, reserve-Later, grow_keeps}

module _ {A : Alloc} {T : Type 0} (E : Element A T) where
  -- The bytes that a full vector asks for.
  abbrev pub next_bytes : Vector T → ℕ
  next_bytes v = (if v.capacity == 0 then 1 else 2 * v.capacity) * E.size_of % 2 ^ 64

  next :
      (v : Vector T)
      → v.capacity < 2 ^ 63
      → mul_size (if v.capacity == 0 then 1 else mul_size 2 v.capacity) E.size_of ≡ next_bytes v
  next v small = ap (λ n. mul_size n E.size_of) (ground arith)

  push_back-grow :
      (v : Vector T) (x : T) (h : A.Heap)
      → ((push_back E v x h).0 ≡ (grow E v h).0)
        × ((push_back E v x h).0 ≡ false → (push_back E v x h).1 ≡ v)
        × ((push_back E v x h).0 ≡ true → (push_back E v x h).1.items ≡ v.items ++ x ∷ [])
  unfolding push_back
  push_back-grow v x h = ground (arith, grow_keeps E v h)

  grow-Later : (v : Vector T) (h : A.Heap) → Later A h (grow E v h).2
  unfolding grow
  grow-Later v h = elim (Bool-cases (length v.items == v.capacity)) [
    | inl full ↦ rw (full, grow) (reserve-Later E v _ h)
    | inr room ↦ rw (room, grow) now
  ]

  pub push_back-Later : (v : Vector T) (x : T) (h : A.Heap) → Later A h (push_back E v x h).2
  unfolding push_back
  push_back-Later v x h = elim (Bool-cases (grow E v h).0) [
    | inl fits ↦ rw (fits, push_back) (grow-Later v h)
    | inr refused ↦ rw (refused, push_back) (grow-Later v h)
  ]

  refused-none : (o : Option ℕ) (b : Bool) → (b || granted o) ≡ false → o ≡ none
  refused-none none b e = refl
  refused-none (some p) true e = cc
  refused-none (some p) false e = cc

  -- A `push_back` that returns false has had a request for memory refused.
  pub push_back-OutOfMemory :
      (v : Vector T) (x : T) (h : A.Heap) → (push_back E v x h).0 ≡ false → OutOfMemory A h
  unfolding grow
  push_back-OutOfMemory v x h failed =
      let n = if v.capacity == 0 then 1 else mul_size 2 v.capacity in
      let stuck : (grow E v h).0 ≡ false = sym (push_back-grow v x h).0 ∙ failed in
      elim (Bool-cases (length v.items == v.capacity)) [
        | inl full ↦
            let no_room : (reserve E v n h).0 ≡ false = rw (full, grow) at stuck in
            record {
              bytes = mul_size n E.size_of;
              heap = h;
              later = now;
              refused = refused-none _ (leb n v.capacity) (sym (reserve-granted E v n h) ∙ no_room);
            }
        | inr room ↦ let fine : true ≡ false = rw (room, grow) at stuck in cc fine
      ]

  -- Where the vector is full and the request is refused, the heap is the one after that request.
  pub push_back-refused :
      (v : Vector T) (x : T) (h : A.Heap)
      → length v.items ≡ v.capacity
      → v.capacity < 2 ^ 63
      → (A.allocate (next_bytes v) h).0 ≡ none
      → push_back E v x h ≡ (false, v, (A.allocate (next_bytes v) h).1)
  unfolding push_back grow
  push_back-refused v x h full small e =
      let n = if v.capacity == 0 then 1 else mul_size 2 v.capacity in
      let test : (length v.items == v.capacity) ≡ true = rw full (eqb_refl v.capacity) in
      let run : reserve E v n h ≡ (false, v, (A.allocate (next_bytes v) h).1) =
        reserve-refused E v n h (ground arith) (ap (λ b. (A.allocate b h).0) (next v small) ∙ e)
        ∙ ap (λ b. (false, v, (A.allocate b h).1)) (next v small) in
      let grown : grow E v h ≡ (false, v, (A.allocate (next_bytes v) h).1) = rw (test, grow) run in
      ap push grown
    where
      push : Bool × Vector T × A.Heap → Bool × Vector T × A.Heap
      push (fits, v', h') =
          if fits then (true, record v' { items = v'.items ++ x ∷ [] }, h') else (false, v', h')
