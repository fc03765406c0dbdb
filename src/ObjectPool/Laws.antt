-- ===== src/ObjectPool/Laws.antt =====
-- What `add_to_pool`, `get` and `put` do to the free objects of a pool.
use real_time_library.Base.{
  ℕ, zero, suc, ◌+◌, ◌%◌, ◌^◌, ◌<◌, none, ◌≤◌, ◌≡◌, refl, sym, ap, ◌∙◌, inl, inr, true, some, List,
  [], ◌∷◌, ◌++◌, arith, length, take, get_last?, list_ext, get_elem?-take, get_elem?-append,
  length-append, ne→eqb, Bool-cases, Option-cases, get_last?-append, get_elem?-beyond,
}
use mathlib.Core.List.{append-nil, append_assoc}
use real_time_library.Alloc.{Alloc, size_mod}
use real_time_library.Vector.{Vector, reserve, push_back}
use real_time_library.Vector.Growth.{reserve_lem, push_back-append}
use real_time_library.Vector.Push.{next_bytes, push_back-refused}
use real_time_library.Vector.Removal.{pop_back-append}
use real_time_library.ObjectPool
use real_time_library.ObjectPool.{Class, Pool, pointer, add_objects, add_to_pool, take_back, put}

module _ {A : Alloc} (C : Class A) where
  -- What the loop has added: `n` new objects behind those of the pool.
  pub record Added (old : List ℕ) (i left : ℕ) (r : ℕ × Vector ℕ × A.Heap) : Type 0 where
    pub new_objects : List ℕ
    pub items : r.1.items ≡ old ++ new_objects
    pub count : r.0 ≡ i + length new_objects
    pub bound : length new_objects ≤ left

  add_objects-Added :
      (left i : ℕ) (v : Vector ℕ) (h : A.Heap) → Added v.items i left (add_objects C left i v h)
  unfolding add_objects
  add_objects-Added zero i v h = record {
    new_objects = [];
    items = sym (append-nil v.items);
    count = omega arith;
    bound = omega arith;
  }
  add_objects-Added (suc left) i v h = elim (Option-cases (A.allocate C.size_of h).0) [
    | inl none_left ↦
        rw (none_left, add_objects)
          (record {
            new_objects = [];
            items = sym (append-nil v.items);
            count = omega arith;
            bound = omega arith;
          })
    | inr (q, got) ↦ elim (Bool-cases (push_back (pointer C) v q (A.allocate C.size_of h).1).0) [
      | inl pushed ↦
          let v' = (push_back (pointer C) v q (A.allocate C.size_of h).1).1 in
          let items' = (push_back-append (pointer C) v q (A.allocate C.size_of h).1).0 pushed in
          let rest =
            add_objects-Added left (i + 1) v'
              (push_back (pointer C) v q (A.allocate C.size_of h).1).2 in
          rw (got, add_objects, pushed)
            (record {
              new_objects = q ∷ rest.new_objects;
              items = rest.items ∙ (rw items' (append_assoc v.items (q ∷ []) rest.new_objects));
              count = omega (arith, rest.count);
              bound = omega (arith, rest.bound);
            })
      | inr refused ↦
          let same = (push_back-append (pointer C) v q (A.allocate C.size_of h).1).1 refused in
          rw (got, add_objects, refused)
            (record {
              new_objects = [];
              items = ap (λ (u : Vector ℕ). u.items) same ∙ sym (append-nil v.items);
              count = omega arith;
              bound = omega arith;
            })
    ]
  ]

  -- `add_to_pool` adds as many objects behind those of the pool as it returns, at most as many as
  -- were asked for, and keeps the elasticity.
  add_to_pool_lem :
      (p : Pool) (num : ℕ) (h : A.Heap)
      → let (n, p', _) = add_to_pool C p num h in
        (take (length p.vector.items) p'.vector.items ≡ p.vector.items)
        × (length p'.vector.items ≡ length p.vector.items + n)
        × (n ≤ num)
        × (p'.elasticity ≡ p.elasticity)
  unfolding add_to_pool
  add_to_pool_lem p num h =
      let wanted = (length p.vector.items + num) % size_mod in
      let kept = (reserve_lem (pointer C) p.vector wanted h).0 in
      let added =
        add_objects-Added num 0 (reserve (pointer C) p.vector wanted h).1
          (reserve (pointer C) p.vector wanted h).2 in
      let items = rw kept at added.items in
      (
        rw items (
            list_ext _ _ λ i.
              simp (get_elem?-take, get_elem?-append)
                (ground (arith, get_elem?-beyond p.vector.items i))),
        rw items (omega (arith, length-append p.vector.items added.new_objects, added.count)),
        omega (arith, added.count, added.bound),
        refl,
      )

  take_back-append :
      (p : Pool) (ys : List ℕ) (q : ℕ) (h : A.Heap)
      → p.vector.items ≡ ys ++ q ∷ []
      → take_back C p h
        ≡ (some q, record p { vector = record p.vector { items = ys } }, C.create q h)
  unfolding take_back
  take_back-append p ys q h e = rw (
    ap get_last? e ∙ get_last?-append ys q,
    pop_back-append (pointer C) p.vector ys q h e,
    take_back,
  )

  -- While the pool has objects, `get` returns the last one, constructed, and does not touch the
  -- allocator.
  pub get-append :
      (p : Pool) (ys : List ℕ) (q : ℕ) (h : A.Heap)
      → p.vector.items ≡ ys ++ q ∷ []
      → ObjectPool.get C p h
        ≡ (some q, record p { vector = record p.vector { items = ys } }, C.create q h)
  unfolding ObjectPool.get
  get-append p ys q h e =
      rw (ne→eqb (length p.vector.items) 0 (omega (arith, ap length e, length-append ys (q ∷ []))))
        (take_back-append p ys q h e)

  -- An object that `put` takes back while there is room for its pointer is the next one that `get`
  -- returns, and leaves the pool with the objects it had.
  pub get-put :
      (p : Pool) (q : ℕ) (h : A.Heap)
      → (push_back (pointer C) p.vector q (C.destroy q h)).0 ≡ true
      → let (p', h') = put C p (some q) h in
        let (r, p'', h'') = ObjectPool.get C p' h' in
        (r ≡ some q) × (p''.vector.items ≡ p.vector.items) × (h'' ≡ C.create q h')
  unfolding put
  get-put p q h pushed =
      let items = (push_back-append (pointer C) p.vector q (C.destroy q h)).0 pushed in
      rw (get-append (put C p (some q) h).0 p.vector.items q (put C p (some q) h).1 items)
        (refl, refl, refl)

  -- `put` into a pool whose vector is full, where its request for room is refused: the destructor of
  -- the object runs, the request is made, and that is all. The pool is as it was, and the memory of
  -- the object, which is in no pool now, is not deallocated.
  pub put_leaks :
      (p : Pool) (q : ℕ) (h : A.Heap)
      → length p.vector.items ≡ p.vector.capacity
      → p.vector.capacity < 2 ^ 63
      → (A.allocate (next_bytes (pointer C) p.vector) (C.destroy q h)).0 ≡ none
      → put C p (some q) h ≡ (p, (A.allocate (next_bytes (pointer C) p.vector) (C.destroy q h)).1)
  unfolding put
  put_leaks p q h full small refused =
      ap (λ r. (record p { vector = r.1 }, r.2))
        (push_back-refused (pointer C) p.vector q (C.destroy q h) full small refused)
