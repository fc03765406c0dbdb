-- ===== src/Memory/Unique.antt =====
-- librtlcpp/include/rtlcpp/memory.hpp: `unique_ptr` to one object, and `make_unique`.
-- A program runs with one allocator, so that `m_alloc` is this one or null.
pub mod Array
use real_time_library.Base.{
  ℕ, zero, suc, ◌+◌, ◌-◌, ◌*◌, ◌/◌, ◌%◌, ◌^◌, ◌≤◌, ◌<◌, min, ◌≡◌, refl, sym, ap, ap₂, ◌∙◌, ◌≢◌, ◌⊎◌,
  inl, inr, ◌↔◌, Bool, true, false, not, ◌&&◌, ◌||◌, Option, none, some, List, [], ◌∷◌, ◌++◌, arith,
  ltb, leb, ◌==◌, if◌then◌else◌, length, get_elem?, get_or, set, take, drop, replicate, drop_last,
  get_last?, list_ext, get_elem?-take, get_elem?-drop, get_elem?-append, length-take, length-drop,
  length-append, le→leb, lt→leb, leb→le, ltb→lt, lt→ltb, le→ltb, ltb→le, eqb→eq, eqb→ne, eqb_refl,
  ne→eqb, lt-cases, eq-cases, Bool-cases, Option-cases, length-set, length-replicate,
  length-drop_last, drop_last-append, get_last?-append, append-drop_last, take-all, get_or-set_self,
  get_or-set_ne, get_elem?-eq-get_or, get_elem?-beyond, get_elem?-set, get_elem?-drop_last,
  set-beyond,
}
use real_time_library.Alloc.{Alloc}
use real_time_library.ObjectPool.{Class}

-- `m_alloc` is not null, and `m_data`
pub record UniquePtr : Type 0 where
  pub has_alloc : Bool
  pub object : Option ℕ

abbrev pub null : UniquePtr
null = record { has_alloc = false; object = none }

-- `release`: the object, which the pointer has no more; the allocator stays.
abbrev pub release : UniquePtr → Option ℕ × UniquePtr
release u = (u.object, record u { object = none })

-- `unique_ptr(unique_ptr&&)`: the new pointer, and what is left of the other one
abbrev pub move_construct : UniquePtr → UniquePtr × UniquePtr
move_construct o = (o, null)

abbrev pub swap : UniquePtr → UniquePtr → UniquePtr × UniquePtr
swap u o = (o, u)

module _ {A : Alloc} (C : Class A) where
  -- `reset`, and `~unique_ptr`
  unfoldable pub reset : UniquePtr → A.Heap → UniquePtr × A.Heap
  reset u h =
      let (to_del, u') = release u in
      elim to_del [
        | none ↦ (u', h)
        | some p ↦
            let h' = C.destroy p h in
            (record u' { has_alloc = false }, if u.has_alloc then A.deallocate (some p) h' else h')
      ]

  -- `operator=(unique_ptr&&)` between two pointers: the target, and what is left of the other one
  unfoldable pub move_assign : UniquePtr → UniquePtr → A.Heap → UniquePtr × UniquePtr × A.Heap
  unfolding reset
  move_assign u o h = let (_, h') = reset u h in (o, null, h')

  -- `operator=(unique_ptr<U>&&)` from a pointer to a derived class, which keeps its allocator
  unfoldable pub move_from_derived : UniquePtr → UniquePtr → A.Heap → UniquePtr × UniquePtr × A.Heap
  unfolding reset move_assign
  move_from_derived u o h =
      let (p, o') = release o in
      let tmp : UniquePtr = record { has_alloc = o.has_alloc; object = p } in
      let (u', h') = reset u h in
      let (u'', tmp', h'') = move_assign u' tmp h' in
      let (_, h''') = reset tmp' h'' in (u'', o', h''')

  -- `make_unique` of one object
  unfoldable pub make_unique : A.Heap → UniquePtr × A.Heap
  make_unique h =
      let (tmp, h') = A.allocate C.size_of h in
      elim tmp [
        | none ↦ (null, h')
        | some p ↦ (record { has_alloc = true; object = some p }, C.create p h')
      ]

  -- `make_unique` of an object that is there
  abbrev pub adopt : Option ℕ → UniquePtr
  adopt p = record { has_alloc = true; object = p }

  -- The end of two pointers, the first one first.
  unfoldable pub drop_both : UniquePtr → UniquePtr → A.Heap → A.Heap
  unfolding reset
  drop_both u o h = let (_, h') = reset u h in let (_, h'') = reset o h' in h''

  -- A move between two pointers leaves each object to exactly one of them: when both end, the same
  -- objects are destroyed and given back as without the move, in the same order.
  pub move_assign-drop_both :
      (u o : UniquePtr) (h : A.Heap)
      → let (u', o', h') = move_assign u o h in drop_both u' o' h' ≡ drop_both u o h
  unfolding move_assign drop_both reset
  move_assign-drop_both u o h = refl

  -- The same for a pointer to a derived class, which is left with its allocator but no object.
  pub move_from_derived-drop_both :
      (u o : UniquePtr) (h : A.Heap)
      → let (u', o', h') = move_from_derived u o h in drop_both u' o' h' ≡ drop_both u o h
  unfolding move_from_derived move_assign drop_both reset
  move_from_derived-drop_both u o h = ground arith
