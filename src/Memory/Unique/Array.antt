-- ===== src/Memory/Unique/Array.antt =====
-- librtlcpp/include/rtlcpp/memory.hpp: `unique_ptr` to an array, and its `make_unique`.
use real_time_library.Base.{
  ap, ℕ, zero, suc, ◌<◌, ◌≡◌, Bool, true, false, Option, none, some, arith, if◌then◌else◌,
}
use real_time_library.Alloc.{Alloc, mul_size}
use real_time_library.ObjectPool.{Class}
use real_time_library.Memory.{create_from, destroy_from}

-- `m_alloc` is not null, `m_array` and `m_array_count`
pub record UniqueArray : Type 0 where
  pub has_alloc : Bool
  pub array : Option ℕ
  pub array_count : ℕ

abbrev pub null : UniqueArray
null = record { has_alloc = false; array = none; array_count = 0 }

-- `release`: the array, which the pointer has no more; the allocator and the count stay.
abbrev pub release : UniqueArray → Option ℕ × UniqueArray
release u = (u.array, record u { array = none })

-- `unique_ptr(unique_ptr&&)`: the new pointer, and what is left of the other one
abbrev pub move_construct : UniqueArray → UniqueArray × UniqueArray
move_construct o = (o, null)

module _ {A : Alloc} (C : Class A) where
  -- The part of `reset` for an array that is there
  unfoldable pub end_array : Bool → Option ℕ → ℕ → A.Heap → A.Heap
  unfolding destroy_from
  end_array has_alloc none n h = h
  end_array has_alloc (some p) n h =
      let ended = destroy_from C 0 n p h in if has_alloc then A.deallocate (some p) ended else ended

  -- `reset`, and `~unique_ptr`
  unfoldable pub reset : UniqueArray → A.Heap → UniqueArray × A.Heap
  unfolding end_array
  reset u h =
      let (to_del, u') = release u in
      (
        record u' { has_alloc = false; array_count = 0 },
        end_array u.has_alloc to_del u.array_count h,
      )

  -- `operator=(unique_ptr&&)` between two pointers: the target, and what is left of the other one
  unfoldable pub move_assign :
      UniqueArray → UniqueArray → A.Heap → UniqueArray × UniqueArray × A.Heap
  unfolding reset
  move_assign u o h = let (_, h') = reset u h in (o, null, h')

  -- `make_unique` of `count` objects
  unfoldable pub make_unique : ℕ → A.Heap → UniqueArray × A.Heap
  unfolding create_from
  make_unique zero h = (null, h)
  make_unique (suc n) h =
      let (tmp, h') = A.allocate (mul_size C.size_of (suc n)) h in
      elim tmp [
        | none ↦ (null, h')
        | some p ↦ (
          record { has_alloc = true; array = some p; array_count = suc n },
          create_from C 0 (suc n) p h',
        )
      ]

  -- `make_unique` of an array that is there
  unfoldable pub adopt : ℕ → Option ℕ → UniqueArray
  adopt zero p = null
  adopt (suc n) p = record { has_alloc = true; array = p; array_count = suc n }

  make_unique-some :
      (n p : ℕ) (h h' : A.Heap)
      → A.allocate (mul_size C.size_of (suc n)) h ≡ (some p, h')
      → make_unique (suc n) h ≡ (
        record { has_alloc = true; array = some p; array_count = suc n },
        create_from C 0 (suc n) p h',
      )
  unfolding make_unique
  make_unique-some n p h h' got =
      let address : (A.allocate (mul_size C.size_of (suc n)) h).0 ≡ some p = ap (λ r. r.0) got in
      let heap : (A.allocate (mul_size C.size_of (suc n)) h).1 ≡ h' = ap (λ r. r.1) got in
      rw (make_unique, address, heap)

  -- An array that `make_unique` returns is destroyed and given back as a whole: each of the
  -- objects that it constructs is destroyed by the end of the pointer, and no other one.
  pub make_unique-reset :
      (n p : ℕ) (h h' : A.Heap)
      → 0 < n
      → A.allocate (mul_size C.size_of n) h ≡ (some p, h')
      → let (u, h'') = make_unique n h in
        reset u h'' ≡ (null, A.deallocate (some p) (destroy_from C 0 n p (create_from C 0 n p h')))
  unfolding reset end_array
  make_unique-reset zero p h h' some_objects got = absurd (omega arith)
  make_unique-reset (suc n) p h h' some_objects got =
      ap (λ r. reset r.0 r.1) (make_unique-some n p h h' got)
