-- ===== src/Memory/Handles.antt =====
-- Programs over shared and weak pointers: which handles there are, and one operation at a time.
use real_time_library.Base.{
  ℕ, ◌+◌, ◌^◌, ◌<◌, ◌≡◌, ◌≢◌, none, some, List, [], ◌∷◌, length, get_elem?, set,
}
use real_time_library.Alloc.{Alloc}
use real_time_library.ObjectPool.{Class}
use real_time_library.Memory.{
  Handle, Memory, reset, weak_reset, lock, make_shared, copy_assign, move_assign, weak_assign,
  weak_move_assign,
}

-- The variables of a program that are a `shared_ptr` or a `weak_ptr`, with the memory.
pub record Program (A : Alloc) : Type 0 where
  pub memory : Memory A
  pub shared : List Handle
  pub weak : List Handle

module _ {A : Alloc} (C : Class A) (control_blk_size : ℕ) where
  abbrev pub Fits : Program A → Type 0
  Fits s = length s.shared + length s.weak + 3 < 2 ^ 32

  -- One operation. A new variable is null; a variable that is assigned from another one is not that
  -- one; a `shared_ptr` that goes out of scope is reset. A control block that the allocator hands out
  -- is not in use, and there are fewer variables than a count can hold.
  pub data Step (s : Program A) : Program A → Type 0 where
    declare_shared : Fits s → Step s (record s { shared = none ∷ s.shared })
    declare_weak : Fits s → Step s (record s { weak = none ∷ s.weak })
    make :
        (i n p : ℕ) (m : Memory A)
        → get_elem? s.shared i ≡ some none
        → s.memory.blocks p ≡ none
        → (A.allocate control_blk_size s.memory.heap).0 ≡ some p
        → make_shared C control_blk_size s.memory n ≡ some (some p, m)
        → Step s (record s { memory = m; shared = set s.shared i (some p) })
    copy :
        (i j : ℕ) (self o r : Handle) (m : Memory A)
        → i ≢ j
        → get_elem? s.shared i ≡ some self
        → get_elem? s.shared j ≡ some o
        → copy_assign C control_blk_size s.memory self o ≡ some (r, m)
        → Step s (record s { memory = m; shared = set s.shared i r })
    move :
        (i j : ℕ) (self o r left : Handle) (m : Memory A)
        → i ≢ j
        → get_elem? s.shared i ≡ some self
        → get_elem? s.shared j ≡ some o
        → move_assign C control_blk_size s.memory self o ≡ some (r, left, m)
        → Step s (record s { memory = m; shared = set (set s.shared i r) j left })
    release :
        (i : ℕ) (self : Handle) (m : Memory A)
        → get_elem? s.shared i ≡ some self
        → reset C control_blk_size s.memory self ≡ some m
        → Step s (record s { memory = m; shared = set s.shared i none })
    watch :
        (i j : ℕ) (self o r : Handle) (m : Memory A)
        → get_elem? s.weak i ≡ some self
        → get_elem? s.shared j ≡ some o
        → weak_assign C control_blk_size s.memory self o ≡ some (r, m)
        → Step s (record s { memory = m; weak = set s.weak i r })
    copy_weak :
        (i j : ℕ) (self o r : Handle) (m : Memory A)
        → i ≢ j
        → get_elem? s.weak i ≡ some self
        → get_elem? s.weak j ≡ some o
        → weak_assign C control_blk_size s.memory self o ≡ some (r, m)
        → Step s (record s { memory = m; weak = set s.weak i r })
    release_weak :
        (i : ℕ) (self : Handle) (m : Memory A)
        → get_elem? s.weak i ≡ some self
        → weak_reset s.memory self ≡ some m
        → Step s (record s { memory = m; weak = set s.weak i none })
    move_weak :
        (i j : ℕ) (self o r left : Handle) (m : Memory A)
        → i ≢ j
        → get_elem? s.weak i ≡ some self
        → get_elem? s.weak j ≡ some o
        → weak_move_assign C control_blk_size s.memory self o ≡ some (r, left, m)
        → Step s (record s { memory = m; weak = set (set s.weak i r) j left })
    lock_weak :
        (i j : ℕ) (o r : Handle) (m : Memory A)
        → get_elem? s.shared i ≡ some none
        → get_elem? s.weak j ≡ some o
        → lock s.memory o ≡ some (r, m)
        → Step s (record s { memory = m; shared = set s.shared i r })

  -- A program without variables, with no control block in the store.
  abbrev pub starting : A.Heap → Program A
  starting h = record { memory = record { blocks = λ q. none; heap = h }; shared = []; weak = [] }

  pub data Reach (h : A.Heap) : Program A → Type 0 where
    begin : Reach h (starting h)
    later : {s t : Program A} → Reach h s → Step s t → Reach h t
