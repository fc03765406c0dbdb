-- ===== src/Resource.antt =====
-- librtlcpp/allocator.cpp, librtlcpp/include/rtlcpp/allocator.hpp: `MMapMemoryResource` and
-- `RTAllocator`. The calls of the operating system and of the arena are parameters.
pub mod Maps
use real_time_library.Base.{
  ℕ, Bool, true, false, Option, none, some, ◌==◌, if◌then◌else◌, List, [], ◌∷◌,
}
use real_time_library.Alloc.{Alloc}

-- What `m_buf` points to: nothing, the result of a failed `mmap`, or a mapping.
pub data Buffer : Type 0 where
  null : Buffer
  map_failed : Buffer
  mapping : ℕ → Buffer

-- `mmap`, of which `none` is a failure, and `munmap`
pub record Mapper : Type 1 where
  pub State : Type 0
  pub mmap : ℕ → State → Option ℕ × State
  pub munmap : Buffer → ℕ → State → State

pub record MMapMemoryResource : Type 0 where
  pub initialized : Bool
  pub buf : Buffer
  pub capacity : ℕ

-- `MMapMemoryResource()`, which is also what a move leaves
abbrev pub new_resource : MMapMemoryResource
new_resource = record { initialized = false; buf = null; capacity = 0 }

module _ (M : Mapper) where
  -- `MMapMemoryResource::init`
  unfoldable pub init_resource :
      MMapMemoryResource → ℕ → M.State → Bool × MMapMemoryResource × M.State
  init_resource r capacity s =
      let (p, s') = M.mmap capacity s in
      if r.initialized then (true, r, s) else elim p [
        | none ↦ (false, record r { buf = map_failed; capacity = capacity }, s')
        | some a ↦ (true, record { initialized = true; buf = mapping a; capacity = capacity }, s')
      ]

  -- `MMapMemoryResource::uninit`, and the destructor
  unfoldable pub uninit_resource : MMapMemoryResource → M.State → MMapMemoryResource × M.State
  uninit_resource r s =
      if r.initialized
      then (record { initialized = false; buf = null; capacity = 0 }, M.munmap r.buf r.capacity s)
      else (r, s)

-- The move constructor: the new resource, and the one moved from
unfoldable pub move_resource : MMapMemoryResource → MMapMemoryResource × MMapMemoryResource
move_resource o = (o, record { initialized = false; buf = null; capacity = 0 })

-- `operator=(MMapMemoryResource&&)` between two resources: what `self` had is overwritten
unfoldable pub move_assign_resource :
    MMapMemoryResource → MMapMemoryResource → MMapMemoryResource × MMapMemoryResource
move_assign_resource self o = (o, record { initialized = false; buf = null; capacity = 0 })

-- `rtl_tlsf_make_arena`, `rtl_tlsf_alloc` and `rtl_tlsf_free`, with the memory of all arenas as the
-- state; an arena that could not be made is `none`
pub record Arenas : Type 1 where
  pub State : Type 0
  pub make_arena : ℕ → ℕ → State → Option ℕ × State
  pub alloc : Option ℕ → ℕ → State → Option ℕ × State
  pub free : Option ℕ → Option ℕ → State → State

-- `detail::RTAllocator`; null pointers are `none`
pub record RtAllocator : Type 0 where
  pub initialized : Bool
  pub arena : Option ℕ
  pub buf : Option ℕ
  pub capacity : ℕ

abbrev pub new_allocator : RtAllocator
new_allocator = record { initialized = false; arena = none; buf = none; capacity = 0 }

-- `RTAllocator::uninit`
unfoldable pub uninit_allocator : RtAllocator → RtAllocator
uninit_allocator r =
    if r.initialized
    then record { initialized = false; arena = none; buf = none; capacity = 0 }
    else r

-- The moves of an allocator: the new one, and the one moved from
unfoldable pub move_allocator : RtAllocator → RtAllocator × RtAllocator
move_allocator o = (o, record { initialized = false; arena = none; buf = none; capacity = 0 })

module _ (M : Arenas) where
  -- `RTAllocator::init`; a failure of `rtl_tlsf_make_arena` leaves `m_arena` as it is
  unfoldable pub init_allocator : RtAllocator → ℕ → ℕ → M.State → Bool × RtAllocator × M.State
  init_allocator r buf capacity s =
      let (made, s') = M.make_arena buf capacity s in
      if r.initialized
      then (true, r, s)
      else (if capacity == 0 then (false, r, s) else elim made [
        | none ↦ (false, record r { buf = some buf; capacity = capacity }, s')
        | some a ↦ (
          true,
          record { initialized = true; arena = some a; buf = some buf; capacity = capacity },
          s',
        )
      ])

  -- `RTAllocator` as the allocator that the containers take
  abbrev pub allocator : RtAllocator → Alloc
  allocator r = record {
    Heap = M.State;
    allocate = λ bytes s. M.alloc r.arena bytes s;
    deallocate = λ p s. M.free r.arena p s;
  }
