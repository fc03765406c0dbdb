-- ===== src/Memory/Assignments.antt =====
-- Assignments between handles, and `lock`, keep the counts right.
use mathlib.Core.Path.{subst}
use real_time_library.Base.{
  ℕ, ◌+◌, ◌<◌, ◌≡◌, refl, sym, ap, ◌∙◌, ◌≢◌, inl, inr, none, some, List, arith, length, get_elem?,
  set, ne→eqb, eq-cases, length-set,
}
use real_time_library.Alloc.{Alloc}
use real_time_library.ObjectPool.{Class}
use real_time_library.Memory.{
  Handle, Memory, use_count, expired, lock, copy_assign, move_assign, weak_assign, weak_move_assign,
}
use real_time_library.Memory.Counts.{count, count-set, count-get_elem?, Right-there}
use real_time_library.Memory.Operations.{
  Inv, set-set, get_elem?-set_self, get_elem?-set_other, count-set_null, recounted-Inv, share-Inv,
  observe-Inv, weak_reset-Inv, reset-Inv,
}

points_to : ℕ → Handle → ℕ
points_to d none = d
points_to d (some q) = q

module _ {A : Alloc} (C : Class A) (control_blk_size : ℕ) {m : Memory A} {shared weak : List Handle}
    (inv : Inv m shared weak) where
  pub copy_assign-Inv :
      (i j : ℕ) (self o : Handle)
      → i ≢ j
      → get_elem? shared i ≡ some self
      → get_elem? shared j ≡ some o
      → (m' : Memory A) × (copy_assign C control_blk_size m self o ≡ some (o, m'))
        × Inv m' (set shared i o) weak
  unfolding copy_assign
  copy_assign-Inv i j self o ne at_i at_j =
      let (m₁, run₁, inv₁) = reset-Inv inv C control_blk_size i self at_i in
      let held = λ (p : ℕ) (e : o ≡ some p).
        count-get_elem? p (set shared i none) j
          (get_elem?-set_other shared i j none ne ∙ (at_j ∙ ap some e)) in
      let (m₂, run₂, inv₂) = share-Inv inv₁ i o (get_elem?-set_self shared i self none at_i) held in
      (m₂, rw (copy_assign, run₁, run₂), rw (set-set shared i none o) at inv₂)

  moved_count :
      (xs : List Handle) (i j q : ℕ) (self o : Handle)
      → i ≢ j
      → get_elem? xs i ≡ some self
      → get_elem? xs j ≡ some o
      → count q (set (set xs i o) j none) ≡ count q (set xs i none)
  moved_count xs i j q self o ne at_i at_j = omega (
    arith,
    count-set q xs i self o at_i,
    count-set q (set xs i o) j o none (get_elem?-set_other xs i j o ne ∙ at_j),
    count-set q xs i self none at_i,
  )

  moved_length :
      (xs : List Handle) (i j : ℕ) (o : Handle)
      → length (set (set xs i o) j none) ≡ length (set xs i none)
  moved_length xs i j o =
      length-set (set xs i o) j none ∙ (length-set xs i o ∙ sym (length-set xs i none))

  pub move_assign-Inv :
      (i j : ℕ) (self o : Handle)
      → i ≢ j
      → get_elem? shared i ≡ some self
      → get_elem? shared j ≡ some o
      → (m' : Memory A) × (move_assign C control_blk_size m self o ≡ some (o, none, m'))
        × Inv m' (set (set shared i o) j none) weak
  unfolding move_assign
  move_assign-Inv i j self o ne at_i at_j =
      let (m₁, run₁, inv₁) = reset-Inv inv C control_blk_size i self at_i in
      (
        m₁,
        rw (move_assign, run₁),
        recounted-Inv inv₁ (set (set shared i o) j none) weak
            (λ q. (moved_count shared i j q self o ne at_i at_j, refl))
            (moved_length shared i j o, refl),
      )

  pub weak_assign-Inv :
      (i : ℕ) (self o : Handle)
      → get_elem? weak i ≡ some self
      → ((p : ℕ) → o ≡ some p → 0 < count p shared + count p (set weak i none))
      → (m' : Memory A) × (weak_assign C control_blk_size m self o ≡ some (o, m'))
        × Inv m' shared (set weak i o)
  unfolding weak_assign
  weak_assign-Inv i self o at_i held =
      let (m₁, run₁, inv₁) = weak_reset-Inv inv i self at_i in
      let (m₂, run₂, inv₂) = observe-Inv inv₁ i o (get_elem?-set_self weak i self none at_i) held in
      (m₂, rw (weak_assign, run₁, run₂), rw (set-set weak i none o) at inv₂)

  pub weak_move_assign-Inv :
      (i j : ℕ) (self o : Handle)
      → i ≢ j
      → get_elem? weak i ≡ some self
      → get_elem? weak j ≡ some o
      → (m' : Memory A) × (weak_move_assign C control_blk_size m self o ≡ some (o, none, m'))
        × Inv m' shared (set (set weak i o) j none)
  unfolding weak_move_assign
  weak_move_assign-Inv i j self o ne at_i at_j =
      let (m₁, run₁, inv₁) = weak_reset-Inv inv i self at_i in
      (
        m₁,
        rw (weak_move_assign, run₁),
        recounted-Inv inv₁ shared (set (set weak i o) j none)
            (λ q. (refl, moved_count weak i j q self o ne at_i at_j))
            (refl, moved_length weak i j o),
      )

  -- `lock` hands out a handle that is counted, or a null one.
  pub lock-Inv :
      (i j : ℕ) (o : Handle)
      → get_elem? shared i ≡ some none
      → get_elem? weak j ≡ some o
      → (r : Handle) × (m' : Memory A) × (lock m o ≡ some (r, m')) × Inv m' (set shared i r) weak
  unfolding lock expired use_count points_to
  lock-Inv i j none null at_j = (
    none,
    m,
    refl,
    recounted-Inv inv (set shared i none) weak (λ q. (count-set_null shared i q null, refl))
        (length-set shared i none, refl),
  )
  lock-Inv i j (some p) null at_j =
      let (b, there, c) =
        Right-there (m.blocks p) (inv.right p) (omega (arith, count-get_elem? p weak j at_j)) in
      elim (eq-cases (count p shared) 0) [
        | inl none_left ↦ (
          none,
          m,
          rw (lock, expired, use_count, there, c.strong, none_left),
          recounted-Inv inv (set shared i none) weak (λ q. (count-set_null shared i q null, refl))
              (length-set shared i none, refl),
        )
        | inr some_left ↦
            let pos : 0 < count p shared = omega arith in
            let held = λ (q : ℕ) (e : some p ≡ some q).
              subst (λ x. 0 < count x shared) (ap (points_to p) e) pos in
            let (m', run, inv') = share-Inv inv i (some p) null held in
            (
              some p,
              m',
              rw (
                lock,
                expired,
                use_count,
                there,
                c.strong,
                ne→eqb (count p shared) 0 some_left,
                run,
              ),
              inv',
            )
      ]
