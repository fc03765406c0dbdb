-- ===== src/Tests/Locks.antt =====
-- Two threads and a lock.
use real_time_library.Base.{ℕ, ◌≡◌, refl, true, [], ◌∷◌}
use real_time_library.SpinLock.{holding, relaxing, System, call_lock, exchange, Reach, begin, later}
use real_time_library.SpinLock.Exclusion.{Reach-exclusion}

-- The first thread has the lock, the second one waits for it.
abbrev contended : System
contended = record { locked = true; threads = holding ∷ relaxing ∷ [] }

contended-Reach : Reach 2 contended
contended-Reach =
    later (later (later (later begin (call_lock 0 refl)) (call_lock 1 refl)) (exchange 0 refl))
      (exchange 1 refl)

abbrev first : ℕ
first = 0

Reach-exclusion_example : (first ≡ first) × (contended.locked ≡ true)
Reach-exclusion_example = Reach-exclusion first first contended-Reach refl refl
