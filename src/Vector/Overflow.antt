-- ===== src/Vector/Overflow.antt =====
-- `reserve` of more bytes than `size_t` has, and what the vector stores then.
use real_time_library.Base.{
  ℕ, ◌+◌, ◌*◌, ◌≤◌, ◌<◌, ◌≡◌, ap, ◌∙◌, true, some, List, ◌++◌, arith, length, length-append,
}
use real_time_library.Alloc.{Alloc, Element, size_mod, mul_size}
use real_time_library.Vector.{Vector, reserve, push_all}
use real_time_library.Vector.Growth.{relocate-length}
use real_time_library.Vector.Copying.{push_all_spare}

module _ {A : Alloc} {T : Type 0} (E : Element A T) where
  -- The vector after a `reserve` whose request was granted.
  abbrev moved : Vector T → ℕ → ℕ → Vector T
  moved v n p = record { buf = some p; items = v.items; capacity = n }

  reserve-moved :
      (v : Vector T) (n p : ℕ) (h h' : A.Heap)
      → v.capacity < n
      → A.allocate (mul_size n E.size_of) h ≡ (some p, h')
      → reserve E v n h ≡ (true, moved v n p, A.deallocate v.buf h')
  unfolding reserve
  reserve-moved v n p h h' more e = ground (arith, e, relocate-length v.items)

  -- `reserve` of a number of elements whose bytes do not fit `size_t` asks for that number of bytes
  -- wrapped. Where that request is granted, all these elements can be pushed without another one: the
  -- vector then holds them in the one block that was asked for, which is smaller than they are.
  pub reserve_overflows :
      (v : Vector T) (xs : List T) (n p : ℕ) (h h' : A.Heap)
      → v.capacity < n
      → length v.items + length xs ≡ n
      → size_mod ≤ n * E.size_of
      → A.allocate (mul_size n E.size_of) h ≡ (some p, h')
      → let (_, v₁, h₁) = reserve E v n h in
        let (done, v₂, h₂) = push_all E v₁ xs h₁ in
        (done ≡ true)
        × (v₂.buf ≡ some p)
        × (v₂.items ≡ v.items ++ xs)
        × (h₂ ≡ A.deallocate v.buf h')
        × (mul_size n E.size_of < length v₂.items * E.size_of)
  reserve_overflows v xs n p h h' more count wide e =
      let run : push_all E (reserve E v n h).1 xs (reserve E v n h).2
          ≡ (true, record (moved v n p) { items = v.items ++ xs }, A.deallocate v.buf h') =
        ap (λ r. push_all E r.1 xs r.2) (reserve-moved v n p h h' more e)
        ∙ push_all_spare E (moved v n p) xs (A.deallocate v.buf h') (omega (arith, count)) in
      let all : length (v.items ++ xs) ≡ n = length-append v.items xs ∙ count in
      (
        ap (λ r. r.0) run,
        ap (λ r. r.1.buf) run,
        ap (λ r. r.1.items) run,
        ap (λ r. r.2) run,
        rw (ap (λ r. length r.1.items) run, all) (omega (arith, wide)),
      )
