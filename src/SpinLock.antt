-- ===== src/SpinLock.antt =====
-- librtlcpp/include/rtlcpp/mutex.hpp: `rtl::SpinLock`, as any number of threads use it.
-- Each atomic access is a step; the relaxed, acquire and release orders concern only other memory.
pub mod Exclusion
use real_time_library.Base.{
  ℕ, zero, suc, ◌+◌, ◌-◌, ◌*◌, ◌/◌, ◌%◌, ◌^◌, ◌≤◌, ◌<◌, min, ◌≡◌, refl, sym, ap, ap₂, ◌∙◌, ◌≢◌, ◌⊎◌,
  inl, inr, ◌↔◌, Bool, true, false, not, ◌&&◌, ◌||◌, Option, none, some, List, [], ◌∷◌, ◌++◌, arith,
  ltb, leb, ◌==◌, if◌then◌else◌, length, get_elem?, get_or, set, take, drop, replicate, drop_last,
  get_last?, list_ext, get_elem?-take, get_elem?-drop, get_elem?-append, length-take, length-drop,
  length-append, le→leb, lt→leb, leb→le, ltb→lt, lt→ltb, le→ltb, ltb→le, eqb→eq, eqb→ne, eqb_refl,
  ne→eqb, lt-cases, eq-cases, Bool-cases, Option-cases, length-set, length-replicate,
  length-drop_last, drop_last-append, get_last?-append, append-drop_last, take-all, get_or-set_self,
  get_or-set_ne, get_elem?-eq-get_or, get_elem?-beyond, get_elem?-set, get_elem?-drop_last,
  set-beyond,
}

-- Where a thread stands: outside, in `lock` before the exchange, in the inner loop of `lock`, in
-- `try_lock` after a load that was false, and after a call that got the lock.
pub data Thread : Type 0 where
  outside : Thread
  locking : Thread
  relaxing : Thread
  trying : Thread
  holding : Thread

-- `m_lock`, and all threads
pub record System : Type 0 where
  pub locked : Bool
  pub threads : List Thread

-- Where a thread goes on in `lock` after the exchange, by the value that was there: it returns, or
-- goes into the inner loop.
abbrev pub after_exchange : Bool → Thread
after_exchange false = holding
after_exchange true = relaxing

-- Where a thread goes on in the inner loop, by the value that is loaded.
abbrev pub after_load : Bool → Thread
after_load true = relaxing
after_load false = locking

-- Where a thread goes on in `try_lock` after the load, and after the exchange; it returns false
-- where it is outside again.
abbrev pub after_first_load : Bool → Thread
after_first_load true = outside
after_first_load false = trying

abbrev pub after_try : Bool → Thread
after_try false = holding
after_try true = outside

-- One step of thread `i`. Only a thread that has the lock calls `unlock`.
pub data Step (s : System) : System → Type 0 where
  call_lock :
      (i : ℕ)
      → get_elem? s.threads i ≡ some outside
      → Step s (record s { threads = set s.threads i locking })
  exchange :
      (i : ℕ)
      → get_elem? s.threads i ≡ some locking
      → Step s (record { locked = true; threads = set s.threads i (after_exchange s.locked) })
  load :
      (i : ℕ)
      → get_elem? s.threads i ≡ some relaxing
      → Step s (record s { threads = set s.threads i (after_load s.locked) })
  call_try_lock :
      (i : ℕ)
      → get_elem? s.threads i ≡ some outside
      → Step s (record s { threads = set s.threads i (after_first_load s.locked) })
  try_exchange :
      (i : ℕ)
      → get_elem? s.threads i ≡ some trying
      → Step s (record { locked = true; threads = set s.threads i (after_try s.locked) })
  unlock :
      (i : ℕ)
      → get_elem? s.threads i ≡ some holding
      → Step s (record { locked = false; threads = set s.threads i outside })

-- `SpinLock()`, with `n` threads that are outside
abbrev pub starting : ℕ → System
starting n = record { locked = false; threads = replicate n outside }

pub data Reach (n : ℕ) : System → Type 0 where
  begin : Reach n (starting n)
  later : {s t : System} → Reach n s → Step s t → Reach n t
