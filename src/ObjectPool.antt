-- ===== src/ObjectPool.antt =====
-- librtlcpp/include/rtlcpp/object_pool.hpp: `rtl::object_pool`.
-- A pointer to an object is its address; the objects themselves are on the heap.
pub mod Laws
use real_time_library.Base.{
  ℕ, zero, suc, ◌+◌, ◌-◌, ◌*◌, ◌/◌, ◌%◌, ◌^◌, ◌≤◌, ◌<◌, min, ◌≡◌, refl, sym, ap, ap₂, ◌∙◌, ◌≢◌, ◌⊎◌,
  inl, inr, ◌↔◌, Bool, true, false, not, ◌&&◌, ◌||◌, Option, none, some, List, [], ◌∷◌, ◌++◌, arith,
  ltb, leb, ◌==◌, if◌then◌else◌, length, get_elem?, get_or, set, take, drop, replicate, drop_last,
  get_last?, list_ext, get_elem?-take, get_elem?-drop, get_elem?-append, length-take, length-drop,
  length-append, le→leb, lt→leb, leb→le, ltb→lt, lt→ltb, le→ltb, ltb→le, eqb→eq, eqb→ne, eqb_refl,
  ne→eqb, lt-cases, eq-cases, Bool-cases, Option-cases, length-set, length-replicate,
  length-drop_last, drop_last-append, get_last?-append, append-drop_last, take-all, get_or-set_self,
  get_or-set_ne, get_elem?-eq-get_or, get_elem?-beyond, get_elem?-set, get_elem?-drop_last,
  set-beyond,
}
use real_time_library.Alloc.{Alloc, Element, size_mod}
use real_time_library.Vector.{Vector, new, reserve, push_back, pop_back}
use real_time_library.Vector

-- What the pool needs of the type of its objects: the size, and the effects of the constructor and
-- of the destructor at an address.
pub record Class (A : Alloc) : Type 0 where
  pub size_of : ℕ
  pub create : ℕ → A.Heap → A.Heap
  pub destroy : ℕ → A.Heap → A.Heap

-- The data members, but for the pointer to the allocator.
pub record Pool : Type 0 where
  pub vector : Vector ℕ
  pub elasticity : ℕ

-- `set_elasticity`
unfoldable pub set_elasticity : Pool → ℕ → Pool
set_elasticity p n = record p { elasticity = n }

-- `object_pool(object_pool&&)`: the new pool, and the one moved from
unfoldable pub move_construct : Pool → Pool × Pool
move_construct o = (o, record o { vector = new })

module _ {A : Alloc} (C : Class A) where
  -- A pointer as an element of a vector.
  abbrev pub pointer : Element A ℕ
  pointer = record { size_of = 8; destroy = λ p h. h }

  -- The loop of `add_to_pool`, after `i` objects; `left` are left.
  unfoldable pub add_objects : ℕ → ℕ → Vector ℕ → A.Heap → ℕ × Vector ℕ × A.Heap
  add_objects zero i v h = (i, v, h)
  add_objects (suc left) i v h =
      let (tmp, h') = A.allocate C.size_of h in
      elim tmp [
        | none ↦ (i, v, h')
        | some q ↦
            let (pushed, v', h'') = push_back pointer v q h' in
            elim pushed [ true ↦ add_objects left (i + 1) v' h'' | false ↦ (i, v', h'') ]
      ]

  -- `add_to_pool`; the result of `reserve` is not looked at
  unfoldable pub add_to_pool : Pool → ℕ → A.Heap → ℕ × Pool × A.Heap
  add_to_pool p num_objects h =
      let (_, v, h') =
        reserve pointer p.vector ((length p.vector.items + num_objects) % size_mod) h in
      let (n, v', h'') = add_objects num_objects 0 v h' in (n, record p { vector = v' }, h'')

  -- `object_pool(alloc, num_objects, elasticity)`
  unfoldable pub new_pool : ℕ → ℕ → A.Heap → Pool × A.Heap
  new_pool num_objects elasticity h =
      let (_, p, h') =
        add_to_pool
          (record { vector = new; elasticity = if ltb elasticity 1 then 1 else elasticity })
          num_objects h in
      (p, h')

  -- The loop of `~object_pool`
  unfoldable pub release : List ℕ → A.Heap → A.Heap
  release [] h = h
  release (q ∷ qs) h = release qs (A.deallocate (some q) h)

  -- `~object_pool`, with the destructor of the vector after it
  unfoldable pub destruct_pool : Pool → A.Heap → A.Heap
  destruct_pool p h = Vector.destruct pointer p.vector (release p.vector.items h)

  -- The end of `get`: the last object is taken and constructed.
  unfoldable pub take_back : Pool → A.Heap → Option ℕ × Pool × A.Heap
  take_back p h =
      let (v, h') = pop_back pointer p.vector h in
      elim (get_last? p.vector.items) [
        | none ↦ (none, p, h)
        | some q ↦ (some q, record p { vector = v }, C.create q h')
      ]

  -- `get`
  unfoldable pub get : Pool → A.Heap → Option ℕ × Pool × A.Heap
  get p h =
      let (n, p', h') = add_to_pool p p.elasticity h in
      if length p.vector.items == 0
      then (if ltb n 1 then (none, p', h') else take_back p' h')
      else take_back p h

  -- `put`; the result of `push_back` is not looked at
  unfoldable pub put : Pool → Option ℕ → A.Heap → Pool × A.Heap
  put p none h = (p, h)
  put p (some q) h =
      let (_, v, h') = push_back pointer p.vector q (C.destroy q h) in (record p { vector = v }, h')

  -- `operator=(object_pool&&)` between two pools: the vector of the target is destroyed, but the
  -- objects it points to are not given back
  unfoldable pub move_assign : Pool → Pool → A.Heap → Pool × Pool × A.Heap
  move_assign self o h =
      let (v, left, h') = Vector.move_assign pointer self.vector o.vector h in
      (record o { vector = v }, record o { vector = left }, h')

  -- `get_auto`: the handle holds what `get` returns
  unfoldable pub get_auto : Pool → A.Heap → Option ℕ × Pool × A.Heap
  get_auto p h = get p h

  -- `~Obj`
  unfoldable pub destruct_handle : Option ℕ → Pool → A.Heap → Pool × A.Heap
  destruct_handle none p h = (p, h)
  destruct_handle (some q) p h = put p (some q) h
