-- ===== src/Vector.antt =====
-- librtlcpp/include/rtlcpp/vector.hpp: `rtl::vector`.
-- `items` are the objects that live in the first `m_count` cells of the buffer, so that `m_count`
-- is their number; the other cells hold no object. Moving an object out of a cell and destroying
-- what is left of it has no effect of its own.
pub mod Growth
pub mod Push
pub mod Copying
pub mod Overflow
pub mod Removal
use real_time_library.Base.{
  ℕ, zero, suc, ◌+◌, ◌-◌, ◌*◌, ◌/◌, ◌%◌, ◌^◌, ◌≤◌, ◌<◌, min, ◌≡◌, refl, sym, ap, ap₂, ◌∙◌, ◌≢◌, ◌⊎◌,
  inl, inr, ◌↔◌, Bool, true, false, not, ◌&&◌, ◌||◌, Option, none, some, List, [], ◌∷◌, ◌++◌, arith,
  ltb, leb, ◌==◌, if◌then◌else◌, length, get_elem?, get_or, set, take, drop, replicate, drop_last,
  get_last?, list_ext, get_elem?-take, get_elem?-drop, get_elem?-append, length-take, length-drop,
  length-append, le→leb, lt→leb, leb→le, ltb→lt, lt→ltb, le→ltb, ltb→le, eqb→eq, eqb→ne, eqb_refl,
  ne→eqb, lt-cases, eq-cases, Bool-cases, Option-cases, length-set, length-replicate,
  length-drop_last, drop_last-append, get_last?-append, append-drop_last, take-all, get_or-set_self,
  get_or-set_ne, get_elem?-eq-get_or, get_elem?-beyond, get_elem?-set,
}
use real_time_library.Alloc.{Alloc, Element, size_mod, mul_size}

-- `buf` is the address of the buffer; null is `none`.
pub record Vector (T : Type 0) : Type 0 where
  pub buf : Option ℕ
  pub items : List T
  pub capacity : ℕ

-- `vector(Alloc*)`, and what a move leaves behind
abbrev pub new : {T : Type 0} → Vector T
new = record { buf = none; items = []; capacity = 0 }

module _ {T : Type 0} where
  -- `std::swap` of two cells
  unfoldable pub swap : List T → ℕ → ℕ → List T
  swap l i j = elim (get_elem? l i) [
    | none ↦ l
    | some x ↦ elim (get_elem? l j) [ none ↦ l | some y ↦ set (set l i y) j x ]
  ]

  -- The loop of `reserve`: the cells `k - 1` down to 0 move in front of those that have moved.
  unfoldable pub relocate : ℕ → List T → List T → List T
  relocate zero old moved = moved
  relocate (suc k) old moved = elim (get_elem? old k) [
    | none ↦ relocate k old moved
    | some x ↦ relocate k old (x ∷ moved)
  ]

  -- The loop of `remove_stable`, over the cells that are left
  unfoldable pub shift : ℕ → ℕ → List T → List T
  shift zero current l = l
  shift (suc left) current l = shift left (current + 1) (swap l current (current + 1))

  -- The loop of `operator==`
  unfoldable pub equal_cells : (T → T → Bool) → List T → List T → Bool
  equal_cells eq [] ys = true
  equal_cells eq (x ∷ xs) [] = false
  equal_cells eq (x ∷ xs) (y ∷ ys) =
      let rest = equal_cells eq xs ys in if eq x y then rest else false

  -- `operator==`
  unfoldable pub equal : (T → T → Bool) → Vector T → Vector T → Bool
  unfolding equal_cells
  equal eq v w = if length v.items == length w.items then equal_cells eq v.items w.items else false

  -- `at`: the element that `*out_var` is made to point to; a null `out_var` is `false`
  unfoldable pub at : Vector T → Bool → ℕ → Option T
  at v out_var index =
      if out_var
      then (if leb (length v.items) index then none else get_elem? v.items index)
      else none

  -- `front` and `back`, which are undefined on an empty vector
  unfoldable pub front : Vector T → Option T
  front v = get_elem? v.items 0

  unfoldable pub back : Vector T → Option T
  back v = get_elem? v.items (length v.items - 1)

  -- `size`
  unfoldable pub size : Vector T → ℕ
  size v = length v.items

  -- `empty`
  unfoldable pub empty : Vector T → Bool
  empty v = length v.items == 0

module _ {A : Alloc} {T : Type 0} (E : Element A T) where
  -- The destructors of the elements, the last one first.
  unfoldable pub destroy_all : List T → A.Heap → A.Heap
  destroy_all [] h = h
  destroy_all (x ∷ xs) h = E.destroy x (destroy_all xs h)

  -- `~vector`
  unfoldable pub destruct : Vector T → A.Heap → A.Heap
  destruct v h = elim v.buf [ none ↦ h | some p ↦ A.deallocate (some p) (destroy_all v.items h) ]

  -- `vector(vector&&)`: the new vector, and the one moved from
  unfoldable pub move_construct : Vector T → Vector T × Vector T
  move_construct o = (o, new)

  -- `operator=(vector&&)` between two vectors: the target, and the one moved from
  unfoldable pub move_assign : Vector T → Vector T → A.Heap → Vector T × Vector T × A.Heap
  move_assign v o h = (o, new, destruct v h)

  -- `reserve`
  unfoldable pub reserve : Vector T → ℕ → A.Heap → Bool × Vector T × A.Heap
  reserve v new_capacity h =
      let (new_buf, h') = A.allocate (mul_size new_capacity E.size_of) h in
      if leb new_capacity v.capacity then (true, v, h) else elim new_buf [
        | none ↦ (false, v, h')
        | some p ↦ (
          true,
          record {
            buf = some p;
            items = relocate (length v.items) v.items [];
            capacity = new_capacity;
          },
          A.deallocate v.buf h',
        )
      ]

  -- `clear`
  unfoldable pub clear : Vector T → A.Heap → Vector T × A.Heap
  clear v h = (record v { items = [] }, elim v.buf [ none ↦ h | some p ↦ destroy_all v.items h ])

  -- The growth at the head of both `push_back`s.
  unfoldable pub grow : Vector T → A.Heap → Bool × Vector T × A.Heap
  grow v h =
      if length v.items == v.capacity
      then reserve v (if v.capacity == 0 then 1 else mul_size 2 v.capacity) h
      else (true, v, h)

  -- `push_back`, by copy and by move, with the store into the cell `m_buf + m_count` not checked:
  -- `push_back_checked` checks it
  unfoldable pub push_back : Vector T → T → A.Heap → Bool × Vector T × A.Heap
  push_back v value h =
      let (fits, v', h') = grow v h in
      if fits then (true, record v' { items = v'.items ++ value ∷ [] }, h') else (false, v', h')

  -- The placement `new` into the cell at `m_buf + m_count`; a null buffer and a cell behind the
  -- capacity are the fault `none`.
  unfoldable pub construct_back : Vector T → T → Option (Vector T)
  construct_back v value = elim v.buf [
    | none ↦ none
    | some p ↦
        if ltb (length v.items) v.capacity
        then some (record v { items = v.items ++ value ∷ [] })
        else none
  ]

  -- `push_back` with that store checked
  unfoldable pub push_back_checked : Vector T → T → A.Heap → Option (Bool × Vector T × A.Heap)
  push_back_checked v value h =
      let (fits, v', h') = grow v h in
      if fits
      then elim (construct_back v' value) [ none ↦ none | some v'' ↦ some (true, v'', h') ]
      else some (false, v', h')

  -- `pop_back`
  unfoldable pub pop_back : Vector T → A.Heap → Vector T × A.Heap
  pop_back v h = elim (get_last? v.items) [
    | none ↦ (v, h)
    | some x ↦ (record v { items = drop_last v.items }, E.destroy x h)
  ]

  -- `remove_fast`
  unfoldable pub remove_fast : Vector T → ℕ → A.Heap → Vector T × A.Heap
  remove_fast v index h =
      if leb (length v.items) index
      then (v, h)
      else pop_back (record v { items = swap v.items index (length v.items - 1) }) h

  -- `remove_stable`
  unfoldable pub remove_stable : Vector T → ℕ → A.Heap → Vector T × A.Heap
  remove_stable v index h =
      if leb (length v.items) index
      then (v, h)
      else (if index == length v.items - 1
          then pop_back v h
          else pop_back (record v { items = shift (length v.items - 1 - index) index v.items }) h)

  -- The loop of `copy`, which stops at the first failure
  unfoldable pub push_all : Vector T → List T → A.Heap → Bool × Vector T × A.Heap
  push_all v [] h = (true, v, h)
  push_all v (x ∷ xs) h =
      let (pushed, v', h') = push_back v x h in
      elim pushed [ true ↦ push_all v' xs h' | false ↦ (false, v', h') ]

  -- `copy`: the local vector is moved into the target, or destroyed
  unfoldable pub copy : Vector T → Vector T → A.Heap → Bool × Vector T × A.Heap
  copy v o h =
      let (reserved, rval, h₁) = reserve new o.capacity h in
      let (copied, rval', h₂) = push_all rval o.items h₁ in
      if reserved
      then (if copied then (true, rval', destruct v h₂) else (false, v, destruct rval' h₂))
      else (false, v, destruct rval h₁)
