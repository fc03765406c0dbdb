-- ===== src/Alloc.antt =====
-- librtlcpp/include/rtlcpp/allocator.hpp: the allocator concept, the template parameter `Alloc`
-- of every container.
use real_time_library.Base.{ℕ, ◌*◌, ◌%◌, ◌^◌, ◌≡◌, Bool, true, false, Option, none, some}

-- `allocate` may fail, which is `none`; `deallocate` takes a null pointer too.
pub record Alloc : Type 1 where
  pub Heap : Type 0
  pub allocate : ℕ → Heap → Option ℕ × Heap
  pub deallocate : Option ℕ → Heap → Heap

-- What a container needs of an element type: its size and its destructor.
pub record Element (A : Alloc) (T : Type 0) : Type 0 where
  pub size_of : ℕ
  pub destroy : T → A.Heap → A.Heap

-- `size_t` has 64 bits.
abbrev pub size_mod : ℕ
size_mod = 2 ^ 64

abbrev pub mul_size : ℕ → ℕ → ℕ
mul_size a b = (a * b) % size_mod

-- Whether a call of `allocate` has returned memory.
abbrev pub granted : Option ℕ → Bool
granted none = false
granted (some p) = true

-- The heaps that calls of the allocator make out of `h`.
pub data Later (A : Alloc) (h : A.Heap) : A.Heap → Type 0 where
  now : Later A h h
  allocated : {g : A.Heap} (bytes : ℕ) → Later A h g → Later A h (A.allocate bytes g).1
  freed : {g : A.Heap} (p : Option ℕ) → Later A h g → Later A h (A.deallocate p g)

pub Later-trans : {A : Alloc} {h g k : A.Heap} → Later A h g → Later A g k → Later A h k
Later-trans a now = a
Later-trans a (allocated bytes b) = allocated bytes (Later-trans a b)
Later-trans a (freed p b) = freed p (Later-trans a b)

-- A request to the allocator, made after some other calls from `h` on, has failed.
pub record OutOfMemory (A : Alloc) (h : A.Heap) : Type 0 where
  pub bytes : ℕ
  pub heap : A.Heap
  pub later : Later A h heap
  pub refused : (A.allocate bytes heap).0 ≡ none

pub OutOfMemory-trans : {A : Alloc} {h g : A.Heap} → Later A h g → OutOfMemory A g → OutOfMemory A h
OutOfMemory-trans a o = record {
  bytes = o.bytes;
  heap = o.heap;
  later = Later-trans a o.later;
  refused = o.refused;
}
