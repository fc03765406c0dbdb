-- ===== src/SpinLock/Exclusion.antt =====
-- At most one thread has the lock, and it is taken exactly while one has it.
use real_time_library.Base.{
  same_result, ℕ, zero, suc, ◌+◌, ◌≤◌, ◌<◌, ◌≡◌, refl, ap, inl, inr, Bool, true, false, some, List,
  [], ◌∷◌, arith, get_elem?, set, replicate, Bool-cases,
}
use real_time_library.SpinLock.{
  Thread, outside, locking, relaxing, trying, holding, System, Step, call_lock, exchange, load,
  call_try_lock, try_exchange, unlock, Reach, begin, later,
}

-- 1 for a thread that has the lock.
abbrev holds : Thread → ℕ
holds outside = 0
holds locking = 0
holds relaxing = 0
holds trying = 0
holds holding = 1

abbrev holders : List Thread → ℕ
holders [] = 0
holders (t ∷ ts) = holds t + holders ts

holders-set :
    (ts : List Thread) (i : ℕ) (t u : Thread)
    → get_elem? ts i ≡ some t
    → holders (set ts i u) + holds t ≡ holders ts + holds u
holders-set [] i t u e = cc
holders-set (x ∷ ts) zero t u e =
    let same : holds x ≡ holds t = ap holds (same_result refl e) in omega arith
holders-set (x ∷ ts) (suc i) t u e = omega (arith, holders-set ts i t u e)

holders-replicate : (n : ℕ) → holders (replicate n outside) ≡ 0
holders-replicate zero = refl
holders-replicate (suc n) = omega (arith, holders-replicate n)

holder-counted : (ts : List Thread) (i : ℕ) → get_elem? ts i ≡ some holding → 0 < holders ts
holder-counted [] i e = cc
holder-counted (x ∷ ts) zero e =
    let same : holds x ≡ 1 = ap holds (same_result refl e) in omega arith
holder-counted (x ∷ ts) (suc i) e = omega (arith, holder-counted ts i e)

same_holder :
    (ts : List Thread) (i j : ℕ)
    → get_elem? ts i ≡ some holding
    → get_elem? ts j ≡ some holding
    → holders ts ≤ 1
    → i ≡ j
same_holder [] i j ei ej one = cc
same_holder (x ∷ ts) zero zero ei ej one = refl
same_holder (x ∷ ts) zero (suc j) ei ej one =
    let same : holds x ≡ 1 = ap holds (same_result refl ei) in
    absurd (omega (arith, holder-counted ts j ej))
same_holder (x ∷ ts) (suc i) zero ei ej one =
    let same : holds x ≡ 1 = ap holds (same_result refl ej) in
    absurd (omega (arith, holder-counted ts i ei))
same_holder (x ∷ ts) (suc i) (suc j) ei ej one = ap suc (same_holder ts i j ei ej (omega arith))

abbrev bit : Bool → ℕ
bit true = 1
bit false = 0

Step-holders :
    {s t : System} → holders s.threads ≡ bit s.locked → Step s t → holders t.threads ≡ bit t.locked
Step-holders {s} inv (call_lock i e) = omega (arith, holders-set s.threads i outside locking e)
Step-holders {s} inv (exchange i e) = elim (Bool-cases s.locked) [
  | inl taken ↦ ground (arith, holders-set s.threads i locking relaxing e)
  | inr free ↦ ground (arith, holders-set s.threads i locking holding e)
]
Step-holders {s} inv (load i e) = elim (Bool-cases s.locked) [
  | inl taken ↦ ground (arith, holders-set s.threads i relaxing relaxing e)
  | inr free ↦ ground (arith, holders-set s.threads i relaxing locking e)
]
Step-holders {s} inv (call_try_lock i e) = elim (Bool-cases s.locked) [
  | inl taken ↦ ground (arith, holders-set s.threads i outside outside e)
  | inr free ↦ ground (arith, holders-set s.threads i outside trying e)
]
Step-holders {s} inv (try_exchange i e) = elim (Bool-cases s.locked) [
  | inl taken ↦ ground (arith, holders-set s.threads i trying outside e)
  | inr free ↦ ground (arith, holders-set s.threads i trying holding e)
]
Step-holders {s} inv (unlock i e) = elim (Bool-cases s.locked) [
  | inl taken ↦ ground (arith, holders-set s.threads i holding outside e)
  | inr free ↦
      ground (arith, holders-set s.threads i holding outside e, holder-counted s.threads i e)
]

Reach-holders : {n : ℕ} {s : System} → Reach n s → holders s.threads ≡ bit s.locked
Reach-holders {n} begin = holders-replicate n
Reach-holders (later before step) = Step-holders (Reach-holders before) step

-- Mutual exclusion, for any number of threads that unlock only what they have locked and any
-- interleaving of their accesses: no two threads have the lock at once, and while one has it the
-- flag is set.
pub Reach-exclusion :
    {n : ℕ} {s : System} (i j : ℕ)
    → Reach n s
    → get_elem? s.threads i ≡ some holding
    → get_elem? s.threads j ≡ some holding
    → (i ≡ j) × (s.locked ≡ true)
Reach-exclusion {s = s} i j reached at_i at_j =
    let counted = Reach-holders reached in
    let held = holder-counted s.threads i at_i in
    elim (Bool-cases s.locked) [
      | inl taken ↦ (same_holder s.threads i j at_i at_j (ground arith), taken)
      | inr free ↦ absurd (ground arith)
    ]
