-- ===== src/Memory.antt =====
-- librtlcpp/include/rtlcpp/memory.hpp: `control_blk`, `shared_ptr`, `weak_ptr` and `unique_ptr`, for
-- one object and for arrays.
-- A handle is the address of its control block, or null; its allocator is the one of the section,
-- which is not null where the control block is not. The control blocks stand in a store; an access
-- to one that is not there, or no more, is the fault `none`.
pub mod Counts
pub mod Handles
pub mod Operations
pub mod Assignments
pub mod Safety
pub mod Unique
use real_time_library.Base.{
  ℕ, zero, suc, ◌+◌, ◌-◌, ◌*◌, ◌/◌, ◌%◌, ◌^◌, ◌≤◌, ◌<◌, min, ◌≡◌, refl, sym, ap, ap₂, ◌∙◌, ◌≢◌, ◌⊎◌,
  inl, inr, ◌↔◌, Bool, true, false, not, ◌&&◌, ◌||◌, Option, none, some, List, [], ◌∷◌, ◌++◌, arith,
  ltb, leb, ◌==◌, if◌then◌else◌, length, get_elem?, get_or, set, take, drop, replicate, drop_last,
  get_last?, list_ext, get_elem?-take, get_elem?-drop, get_elem?-append, length-take, length-drop,
  length-append, le→leb, lt→leb, leb→le, ltb→lt, lt→ltb, le→ltb, ltb→le, eqb→eq, eqb→ne, eqb_refl,
  ne→eqb, lt-cases, eq-cases, Bool-cases, Option-cases, length-set, length-replicate,
  length-drop_last, drop_last-append, get_last?-append, append-drop_last, take-all, get_or-set_self,
  get_or-set_ne, get_elem?-eq-get_or, get_elem?-beyond, get_elem?-set, get_elem?-drop_last,
  set-beyond,
}
use real_time_library.Alloc.{Alloc}
use real_time_library.Ring.{add_u32, sub_u32}
use real_time_library.ObjectPool.{Class}

-- `control_blk<T>` and `control_blk<T[]>`: the address of the object or array with the number of
-- objects, and the counts
pub record ControlBlk : Type 0 where
  pub object : Option (ℕ × ℕ)
  pub strong_count : ℕ
  pub weak_count : ℕ

-- `m_control_blk` of a `shared_ptr` or a `weak_ptr`
abbrev pub Handle : Type 0
Handle = Option ℕ

pub record Memory (A : Alloc) : Type 0 where
  pub blocks : ℕ → Option ControlBlk
  pub heap : A.Heap

module _ {A : Alloc} where
  -- The store after a change to one control block.
  abbrev pub put : Memory A → ℕ → Option ControlBlk → Memory A
  put m p b = record m { blocks = λ q. if q == p then b else m.blocks q }

  -- A change to the control block at an address
  unfoldable pub modify : Memory A → ℕ → (ControlBlk → ControlBlk) → Option (Memory A)
  modify m p f = elim (m.blocks p) [ none ↦ none | some b ↦ some (put m p (some (f b))) ]

  -- `inc_strong`
  unfoldable pub inc_strong : Memory A → ℕ → Option (Memory A)
  unfolding modify
  inc_strong m p = modify m p λ b. record b {
    strong_count = add_u32 b.strong_count 1;
    weak_count = if b.strong_count == 0 then add_u32 b.weak_count 1 else b.weak_count;
  }

  -- `inc_weak`
  unfoldable pub inc_weak : Memory A → ℕ → Option (Memory A)
  unfolding modify
  inc_weak m p = modify m p λ b. record b { weak_count = add_u32 b.weak_count 1 }

  -- `dec_weak`: whether it was the last one
  unfoldable pub dec_weak : Memory A → ℕ → Option (Bool × Memory A)
  dec_weak m p = elim (m.blocks p) [
    | none ↦ none
    | some b ↦
        some (b.weak_count == 1, put m p (some (record b { weak_count = sub_u32 b.weak_count 1 })))
  ]

  -- `strong_count` through a handle: `use_count`
  unfoldable pub use_count : Memory A → Handle → Option ℕ
  use_count m none = some 0
  use_count m (some p) = elim (m.blocks p) [ none ↦ none | some b ↦ some b.strong_count ]

  -- `get` of a handle; a null handle has no object
  unfoldable pub get : Memory A → Handle → Option (Option (ℕ × ℕ))
  get m none = some none
  get m (some p) = elim (m.blocks p) [ none ↦ none | some b ↦ some b.object ]

  -- `expired`
  unfoldable pub expired : Memory A → Handle → Option Bool
  unfolding use_count
  expired m h = elim (use_count m h) [ none ↦ none | some n ↦ some (n == 0) ]

  -- `shared_ptr(alloc, control_blk)` and the copy constructor
  unfoldable pub share : Memory A → Handle → Option (Memory A)
  unfolding inc_strong
  share m none = some m
  share m (some p) = inc_strong m p

  -- `weak_ptr(shared_ptr const&)` and the copy constructor
  unfoldable pub observe : Memory A → Handle → Option (Memory A)
  unfolding inc_weak
  observe m none = some m
  observe m (some p) = inc_weak m p

  -- `deallocate` of a control block
  unfoldable pub free : Memory A → ℕ → Memory A
  free m p = record (put m p none) { heap = A.deallocate (some p) m.heap }

  -- `weak_ptr::reset`
  unfoldable pub weak_reset : Memory A → Handle → Option (Memory A)
  unfolding dec_weak free
  weak_reset m none = some m
  weak_reset m (some p) = elim (dec_weak m p) [
    | none ↦ none
    | some (last, m') ↦ some (if last then free m' p else m')
  ]

  -- `weak_ptr::lock`: the handle of the new `shared_ptr`
  unfoldable pub lock : Memory A → Handle → Option (Handle × Memory A)
  unfolding expired share
  lock m h = elim (expired m h) [
    | none ↦ none
    | some true ↦ some (none, m)
    | some false ↦ elim (share m h) [ none ↦ none | some m' ↦ some (h, m') ]
  ]

module _ {A : Alloc} (C : Class A) (control_blk_size : ℕ) where
  -- The destructors of `left` objects in a row, the next one at `p`
  unfoldable pub destroy_from : ℕ → ℕ → A.Heap → A.Heap
  destroy_from zero p h = h
  destroy_from (suc left) p h = destroy_from left (p + C.size_of) (C.destroy p h)

  -- The constructors of `left` objects in a row, the next one at `p`
  unfoldable pub create_from : ℕ → ℕ → A.Heap → A.Heap
  create_from zero p h = h
  create_from (suc left) p h = create_from left (p + C.size_of) (C.create p h)

  -- `deinit`
  unfoldable pub deinit : Memory A → ℕ → ControlBlk → Memory A
  unfolding destroy_from
  deinit m p b = elim b.object [
    | none ↦ m
    | some (d, n) ↦ record (put m p (some (record b { object = none }))) {
      heap = A.deallocate (some d) (destroy_from n d m.heap);
    }
  ]

  -- `dec_strong`: whether the control block is to be freed
  unfoldable pub dec_strong : Memory A → ℕ → Option (Bool × Memory A)
  unfolding deinit dec_weak
  dec_strong m p = elim (m.blocks p) [
    | none ↦ none
    | some b ↦
        let b' = record b { strong_count = sub_u32 b.strong_count 1 } in
        let m' = put m p (some b') in
        if b.strong_count == 1 then dec_weak (deinit m' p b') p else some (false, m')
  ]

  -- `shared_ptr::reset`, and `~shared_ptr`
  unfoldable pub reset : Memory A → Handle → Option (Memory A)
  unfolding dec_strong free
  reset m none = some m
  reset m (some p) = elim (dec_strong m p) [
    | none ↦ none
    | some (last, m') ↦ some (if last then free m' p else m')
  ]

  -- `make_shared` of `n` objects (one, or an array): a null handle without memory
  unfoldable pub make_shared : Memory A → ℕ → Option (Handle × Memory A)
  unfolding share create_from
  make_shared m n =
      let (tmp, h₁) = A.allocate control_blk_size m.heap in
      let (memory, h₂) = A.allocate (C.size_of * n % 2 ^ 64) h₁ in
      elim tmp [
        | none ↦ some (none, record m { heap = h₁ })
        | some p ↦ elim memory [
          | none ↦ some (none, record m { heap = A.deallocate (some p) h₂ })
          | some d ↦
              let blk : ControlBlk = record {
                object = some (d, n);
                strong_count = 0;
                weak_count = 0;
              } in
              let m' = record (put m p (some blk)) { heap = create_from n d h₂ } in
              elim (share m' (some p)) [ none ↦ none | some m'' ↦ some (some p, m'') ]
        ]
      ]

  -- `make_shared` of one object
  unfoldable pub make_shared_object : Memory A → Option (Handle × Memory A)
  unfolding make_shared
  make_shared_object m = make_shared m 1

  -- `make_shared` of `n` objects that are there (one, or an array)
  unfoldable pub adopt_shared : Memory A → ℕ × ℕ → Option (Handle × Memory A)
  unfolding share
  adopt_shared m object =
      let (tmp, h) = A.allocate control_blk_size m.heap in
      elim tmp [
        | none ↦ some (none, record m { heap = h })
        | some p ↦
            let blk : ControlBlk = record {
              object = some object;
              strong_count = 0;
              weak_count = 0;
            } in
            let m' = record (put m p (some blk)) { heap = h } in
            elim (share m' (some p)) [ none ↦ none | some m'' ↦ some (some p, m'') ]
      ]

  -- `operator=(shared_ptr const&)` between two pointers: the handle of the target
  unfoldable pub copy_assign : Memory A → Handle → Handle → Option (Handle × Memory A)
  unfolding reset share
  copy_assign m self o = elim (reset m self) [
    | none ↦ none
    | some m' ↦ elim (share m' o) [ none ↦ none | some m'' ↦ some (o, m'') ]
  ]

  -- `operator=(shared_ptr&&)` between two pointers: the target, and the one moved from
  unfoldable pub move_assign : Memory A → Handle → Handle → Option (Handle × Handle × Memory A)
  unfolding reset
  move_assign m self o = elim (reset m self) [ none ↦ none | some m' ↦ some (o, none, m') ]

  -- `operator=` of a `weak_ptr` by a `shared_ptr` or another `weak_ptr`
  unfoldable pub weak_assign : Memory A → Handle → Handle → Option (Handle × Memory A)
  unfolding weak_reset observe
  weak_assign m self o = elim (weak_reset m self) [
    | none ↦ none
    | some m' ↦ elim (observe m' o) [ none ↦ none | some m'' ↦ some (o, m'') ]
  ]

  -- `operator=(weak_ptr&&)` between two pointers
  unfoldable pub weak_move_assign : Memory A → Handle → Handle → Option (Handle × Handle × Memory A)
  unfolding weak_reset
  weak_move_assign m self o = elim (weak_reset m self) [
    | none ↦ none
    | some m' ↦ some (o, none, m')
  ]
