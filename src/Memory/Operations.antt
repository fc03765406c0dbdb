-- ===== src/Memory/Operations.antt =====
-- Each operation on a handle keeps the counts right.
use real_time_library.Base.{
  ℕ, zero, suc, ◌+◌, ◌^◌, ◌<◌, ◌≡◌, refl, sym, ap, ◌≢◌, inl, inr, none, some, List, [], ◌∷◌, arith,
  length, get_elem?, set, eqb_refl, ne→eqb, eq-cases, length-set, get_elem?-set,
}
use real_time_library.Alloc.{Alloc}
use real_time_library.ObjectPool.{Class}
use real_time_library.Memory.{Handle, Memory, share, observe, reset, weak_reset}
use real_time_library.Memory.Counts.{
  points, count, count-set, count-le-length, Right, Changed, inc_strong-Changed, inc_weak-Changed,
  weak_reset-Changed, reset-Changed,
}

pub set-set {ℓ} : {T : Type ℓ} (xs : List T) (i : ℕ) (x y : T) → set (set xs i x) i y ≡ set xs i y
set-set [] i x y = refl
set-set (z ∷ xs) zero x y = refl
set-set (z ∷ xs) (suc i) x y = ap (λ l. z ∷ l) (set-set xs i x y)

pub get_elem?-inside {ℓ} :
    {T : Type ℓ} (xs : List T) (i : ℕ) (x : T) → get_elem? xs i ≡ some x → i < length xs
get_elem?-inside [] i x e = cc
get_elem?-inside (y ∷ xs) zero x e = omega arith
get_elem?-inside (y ∷ xs) (suc i) x e = omega (arith, get_elem?-inside xs i x e)

pub get_elem?-set_self :
    (xs : List Handle) (i : ℕ) (x y : Handle)
    → get_elem? xs i ≡ some x
    → get_elem? (set xs i y) i ≡ some y
get_elem?-set_self xs i x y e = ground (arith, get_elem?-set xs i y i, get_elem?-inside xs i x e)

pub get_elem?-set_other :
    (xs : List Handle) (i j : ℕ) (y : Handle) → i ≢ j → get_elem? (set xs i y) j ≡ get_elem? xs j
get_elem?-set_other [] i j y ne = refl
get_elem?-set_other (x ∷ xs) zero zero y ne = absurd (ne refl)
get_elem?-set_other (x ∷ xs) zero (suc j) y ne = refl
get_elem?-set_other (x ∷ xs) (suc i) zero y ne = refl
get_elem?-set_other (x ∷ xs) (suc i) (suc j) y ne =
    get_elem?-set_other xs i j y (λ e. ne (ap suc e))

pub count-set_null :
    (xs : List Handle) (i q : ℕ) → get_elem? xs i ≡ some none → count q (set xs i none) ≡ count q xs
count-set_null xs i q e = omega (arith, count-set q xs i none none e)

-- The counts of all control blocks are right, and small.
pub record Inv {A : Alloc} (m : Memory A) (shared weak : List Handle) : Type 0 where
  pub right : (q : ℕ) → Right (m.blocks q) (count q shared) (count q weak)
  pub small : length shared + length weak + 2 < 2 ^ 32

module _ {A : Alloc} {m : Memory A} {shared weak : List Handle} (inv : Inv m shared weak) where
  small_at : (p : ℕ) → count p shared + count p weak + 2 < 2 ^ 32
  small_at p = omega (arith, inv.small, count-le-length p shared, count-le-length p weak)

  -- A change to one control block and to the handles to it.
  pub Changed-Inv :
      (p a b : ℕ) (m' : Memory A) (shared' weak' : List Handle)
      → Changed p m a b m'
      → count p shared' ≡ a
      → count p weak' ≡ b
      → ((q : ℕ) → q ≢ p → (count q shared' ≡ count q shared) × (count q weak' ≡ count q weak))
      → (length shared' ≡ length shared) × (length weak' ≡ length weak)
      → Inv m' shared' weak'
  Changed-Inv p a b m' shared' weak' c is_a is_b others sizes = record {
    right = λ q. elim (eq-cases q p) [
      | inl e ↦ rw (e, is_a, is_b) c.here
      | inr ne ↦ rw (c.others q ne, (others q ne).0, (others q ne).1) (inv.right q)
    ];
    small = omega (arith, inv.small, sizes);
  }

  -- Handles that are counted the same.
  pub recounted-Inv :
      (shared' weak' : List Handle)
      → ((q : ℕ) → (count q shared' ≡ count q shared) × (count q weak' ≡ count q weak))
      → (length shared' ≡ length shared) × (length weak' ≡ length weak)
      → Inv m shared' weak'
  recounted-Inv shared' weak' same sizes = record {
    right = λ q. rw ((same q).0, (same q).1) (inv.right q);
    small = omega (arith, inv.small, sizes);
  }

  pub points_other : (p q : ℕ) → q ≢ p → points q (some p) ≡ 0
  points_other p q ne = rw (ne→eqb p q (λ e. ne (sym e)))

  pub share-Inv :
      (i : ℕ) (o : Handle)
      → get_elem? shared i ≡ some none
      → ((p : ℕ) → o ≡ some p → 0 < count p shared)
      → (m' : Memory A) × (share m o ≡ some m') × Inv m' (set shared i o) weak
  unfolding share
  share-Inv i none null held = (
    m,
    refl,
    recounted-Inv (set shared i none) weak (λ q. (count-set_null shared i q null, refl))
        (length-set shared i none, refl),
  )
  share-Inv i (some p) null held =
      let (m', run, c) =
        inc_strong-Changed m p (count p shared) (count p weak) (inv.right p) (small_at p)
          (held p refl) in
      (
        m',
        run,
        Changed-Inv p _ _ m' (set shared i (some p)) weak c
            (ground (arith, count-set p shared i none (some p) null, eqb_refl p)) refl
            (λ q ne.
              (omega (arith, count-set q shared i none (some p) null, points_other p q ne), refl))
            (length-set shared i (some p), refl),
      )

  pub observe-Inv :
      (i : ℕ) (o : Handle)
      → get_elem? weak i ≡ some none
      → ((p : ℕ) → o ≡ some p → 0 < count p shared + count p weak)
      → (m' : Memory A) × (observe m o ≡ some m') × Inv m' shared (set weak i o)
  unfolding observe
  observe-Inv i none null held = (
    m,
    refl,
    recounted-Inv shared (set weak i none) (λ q. (refl, count-set_null weak i q null))
        (refl, length-set weak i none),
  )
  observe-Inv i (some p) null held =
      let (m', run, c) =
        inc_weak-Changed m p (count p shared) (count p weak) (inv.right p) (small_at p)
          (held p refl) in
      (
        m',
        run,
        Changed-Inv p _ _ m' shared (set weak i (some p)) c refl
            (ground (arith, count-set p weak i none (some p) null, eqb_refl p))
            (λ q ne.
              (refl, omega (arith, count-set q weak i none (some p) null, points_other p q ne)))
            (refl, length-set weak i (some p)),
      )

  pub weak_reset-Inv :
      (i : ℕ) (self : Handle)
      → get_elem? weak i ≡ some self
      → (m' : Memory A) × (weak_reset m self ≡ some m') × Inv m' shared (set weak i none)
  unfolding weak_reset
  weak_reset-Inv i none at_i = (
    m,
    refl,
    recounted-Inv shared (set weak i none) (λ q. (refl, count-set_null weak i q at_i))
        (refl, length-set weak i none),
  )
  weak_reset-Inv i (some p) at_i =
      let one_less = count-set p weak i (some p) none at_i in
      let left = count p (set weak i none) in
      let before : count p weak ≡ suc left = ground (arith, one_less, eqb_refl p) in
      let (m', run, c) =
        weak_reset-Changed m p (count p shared) left (omega (arith, small_at p, before))
          (rw before at (inv.right p)) in
      (
        m',
        run,
        Changed-Inv p _ _ m' shared (set weak i none) c refl refl
            (λ q ne.
              (refl, omega (arith, count-set q weak i (some p) none at_i, points_other p q ne)))
            (refl, length-set weak i none),
      )

  module _ (C : Class A) (control_blk_size : ℕ) where
    pub reset-Inv :
        (i : ℕ) (self : Handle)
        → get_elem? shared i ≡ some self
        → (m' : Memory A) × (reset C control_blk_size m self ≡ some m')
          × Inv m' (set shared i none) weak
    unfolding reset
    reset-Inv i none at_i = (
      m,
      refl,
      recounted-Inv (set shared i none) weak (λ q. (count-set_null shared i q at_i, refl))
          (length-set shared i none, refl),
    )
    reset-Inv i (some p) at_i =
        let one_less = count-set p shared i (some p) none at_i in
        let left = count p (set shared i none) in
        let before : count p shared ≡ suc left = ground (arith, one_less, eqb_refl p) in
        let (m', run, c) =
          reset-Changed C control_blk_size m p left (count p weak)
            (omega (arith, small_at p, before)) (rw before at (inv.right p)) in
        (
          m',
          run,
          Changed-Inv p _ _ m' (set shared i none) weak c refl refl
              (λ q ne.
                (omega (arith, count-set q shared i (some p) none at_i, points_other p q ne), refl))
              (length-set shared i none, refl),
        )
