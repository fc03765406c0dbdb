-- ===== src/Memory/Safety.antt =====
-- Every program over shared and weak pointers has the counts right, and no operation of it faults.
use real_time_library.Base.{
  same_result, ℕ, ◌+◌, ◌*◌, ◌%◌, ◌^◌, ◌<◌, ◌≡◌, refl, ap, ◌∙◌, ◌≢◌, inl, inr, Option, none, some,
  List, ◌∷◌, arith, get_elem?, set, eqb_refl, ne→eqb, Option-cases, length-set,
}
use mathlib.Core.Path.{subst}
use real_time_library.Alloc.{Alloc}
use real_time_library.ObjectPool.{Class}
use real_time_library.Memory.{
  Handle, Memory, put, share, inc_strong, modify, reset, weak_reset, lock, make_shared, copy_assign,
  weak_assign, create_from,
}
use real_time_library.Memory.Counts.{count, count-set, count-get_elem?, Right}
use real_time_library.Memory.Assignments.{
  copy_assign-Inv, move_assign-Inv, weak_assign-Inv, weak_move_assign-Inv, lock-Inv,
}
use real_time_library.Memory.Operations.{
  Inv, Changed-Inv, points_other, reset-Inv, weak_reset-Inv, get_elem?-set_other,
}
use real_time_library.Memory.Handles.{
  Program, Step, declare_shared, declare_weak, make, copy, move, release, watch, copy_weak,
  release_weak, move_weak, lock_weak, Reach, begin, later,
}

module _ {A : Alloc} {m : Memory A} {shared weak : List Handle} (inv : Inv m shared weak) where
  held_shared :
      (i j p : ℕ)
      → get_elem? shared j ≡ some (some p)
      → 0 < count p shared + count p (set weak i none)
  held_shared i j p e = omega (arith, count-get_elem? p shared j e)

  held_weak :
      (i j p : ℕ)
      → i ≢ j
      → get_elem? weak j ≡ some (some p)
      → 0 < count p shared + count p (set weak i none)
  held_weak i j p ne e =
      omega
        (arith, count-get_elem? p (set weak i none) j (get_elem?-set_other weak i j none ne ∙ e))

module _ {A : Alloc} (C : Class A) (control_blk_size : ℕ) where
  -- A control block that the allocator hands out, with the first handle to it.
  make-Inv :
      {m : Memory A} {shared weak : List Handle} (inv : Inv m shared weak) (i n p : ℕ)
      (m' : Memory A)
      → get_elem? shared i ≡ some none
      → m.blocks p ≡ none
      → (A.allocate control_blk_size m.heap).0 ≡ some p
      → make_shared C control_blk_size m n ≡ some (some p, m')
      → Inv m' (set shared i (some p)) weak
  unfolding make_shared share inc_strong modify
  make-Inv {m} {shared} {weak} inv i n p m' null unused got run = elim (Option-cases memory) [
    | inl no_memory ↦
        let ends : make_shared C control_blk_size m n
            ≡ some (
              none,
              record m { heap = A.deallocate (some p) (A.allocate (C.size_of * n % 2 ^ 64) h₁).1 },
            ) =
          rw (make_shared, got, no_memory) in
        cc (ap (λ r. r.0) (same_result run ends))
    | inr (d, found) ↦
        let ends : make_shared C control_blk_size m n ≡ some (some p, made d) =
          rw (make_shared, got, found, share, inc_strong, modify, eqb_refl p) in
        subst (λ r. Inv r (set shared i (some p)) weak) (ap (λ r. r.1) (same_result ends run))
          (made-Inv d)
  ]
    where
      h₁ : A.Heap
      h₁ = (A.allocate control_blk_size m.heap).1

      memory : Option ℕ
      memory = (A.allocate (C.size_of * n % 2 ^ 64) h₁).0

      made : ℕ → Memory A
      made d =
          put
            (record (put m p
              (some (record { object = some (d, n); strong_count = 0; weak_count = 0 }))) {
                heap =
                    create_from C control_blk_size n d (A.allocate (C.size_of * n % 2 ^ 64) h₁).1;
              })
            p (some (record { object = some (d, n); strong_count = 1; weak_count = 1 }))

      none_yet : (count p shared ≡ 0) × (count p weak ≡ 0)
      none_yet = rw unused at (inv.right p)

      made-Inv : (d : ℕ) → Inv (made d) (set shared i (some p)) weak
      made-Inv d =
          Changed-Inv inv p 1 0 (made d) (set shared i (some p)) weak
            (record {
              here = rw (eqb_refl p) (record {
                strong = refl;
                weak_sum = refl;
                in_use = omega arith;
                alive = λ _ e. cc;
                gone = λ e. absurd (omega arith);
              });
              others = λ q ne. rw (ne→eqb q p ne);
            })
            (ground (arith, count-set p shared i none (some p) null, eqb_refl p, none_yet))
            none_yet.1
            (λ q ne. (
              omega (arith, count-set q shared i none (some p) null, points_other inv p q ne),
              refl,
            ))
            (length-set shared i (some p), refl)

  Step-Inv :
      {s t : Program A}
      → Inv s.memory s.shared s.weak
      → Step C control_blk_size s t
      → Inv t.memory t.shared t.weak
  Step-Inv {s} inv (declare_shared room) = record {
    right = λ q.
        let same : count q (none ∷ s.shared) ≡ count q s.shared = omega arith in
        rw same (inv.right q);
    small = omega (arith, room);
  }
  Step-Inv {s} inv (declare_weak room) = record {
    right = λ q.
        let same : count q (none ∷ s.weak) ≡ count q s.weak = omega arith in rw same (inv.right q);
    small = omega (arith, room);
  }
  Step-Inv inv (make i n p m null unused got run) = make-Inv inv i n p m null unused got run
  Step-Inv {s} inv (copy i j self o r m ne at_i at_j run) =
      let (m', run', inv') = copy_assign-Inv C control_blk_size inv i j self o ne at_i at_j in
      subst (λ x. Inv x.1 (set s.shared i x.0) s.weak) (same_result run' run) inv'
  Step-Inv {s} inv (move i j self o r left m ne at_i at_j run) =
      let (m', run', inv') = move_assign-Inv C control_blk_size inv i j self o ne at_i at_j in
      subst (λ x. Inv x.2 (set (set s.shared i x.0) j x.1) s.weak) (same_result run' run) inv'
  Step-Inv {s} inv (release i self m at_i run) =
      let (m', run', inv') = reset-Inv inv C control_blk_size i self at_i in
      subst (λ x. Inv x (set s.shared i none) s.weak) (same_result run' run) inv'
  Step-Inv {s} inv (watch i j self o r m at_i at_j run) =
      let held = λ (p : ℕ) (e : o ≡ some p). held_shared inv i j p (at_j ∙ ap some e) in
      let (m', run', inv') = weak_assign-Inv C control_blk_size inv i self o at_i held in
      subst (λ x. Inv x.1 s.shared (set s.weak i x.0)) (same_result run' run) inv'
  Step-Inv {s} inv (copy_weak i j self o r m ne at_i at_j run) =
      let held = λ (p : ℕ) (e : o ≡ some p). held_weak inv i j p ne (at_j ∙ ap some e) in
      let (m', run', inv') = weak_assign-Inv C control_blk_size inv i self o at_i held in
      subst (λ x. Inv x.1 s.shared (set s.weak i x.0)) (same_result run' run) inv'
  Step-Inv {s} inv (release_weak i self m at_i run) =
      let (m', run', inv') = weak_reset-Inv inv i self at_i in
      subst (λ x. Inv x s.shared (set s.weak i none)) (same_result run' run) inv'
  Step-Inv {s} inv (move_weak i j self o r left m ne at_i at_j run) =
      let (m', run', inv') = weak_move_assign-Inv C control_blk_size inv i j self o ne at_i at_j in
      subst (λ x. Inv x.2 s.shared (set (set s.weak i x.0) j x.1)) (same_result run' run) inv'
  Step-Inv {s} inv (lock_weak i j o r m null at_j run) =
      let (r', m', run', inv') = lock-Inv C control_blk_size inv i j o null at_j in
      subst (λ x. Inv x.1 (set s.shared i x.0) s.weak) (same_result run' run) inv'

  Reach-Inv :
      {h : A.Heap} {s : Program A} → Reach C control_blk_size h s → Inv s.memory s.shared s.weak
  Reach-Inv begin = record { right = λ q. (refl, refl); small = omega arith }
  Reach-Inv (later before step) = Step-Inv (Reach-Inv before) step

  -- In every state that a program over shared and weak pointers reaches, where there are fewer
  -- pointers than a count can hold and the allocator hands out no control block that is in use, each
  -- control block is in the store exactly as long as a
  -- shared or a weak pointer refers to it, its strong count is the number of shared pointers to it,
  -- its weak count the number of weak ones and one more while there is a shared one, and its object
  -- is there exactly as long as a shared pointer is.
  pub Reach-Right :
      {h : A.Heap} {s : Program A} (q : ℕ)
      → Reach C control_blk_size h s
      → Right (s.memory.blocks q) (count q s.shared) (count q s.weak)
  Reach-Right q reached = (Reach-Inv reached).right q

  -- In every state that a program over shared and weak pointers reaches, where there are fewer
  -- pointers than a count can hold and the allocator hands out no control block that is in use, no
  -- operation accesses a control block that has been freed. Let `i`, `j` and `k` be shared
  -- pointers, `k` a null one and `i` not `j`, and `l` a weak pointer: to reset `i`, to copy `j` to
  -- `i`, to watch `j` by `l`, to reset `l` and to lock `l` into `k` all have a result, and the
  -- copied handle is that of the source.
  pub Reach-no_fault :
      {h : A.Heap} {s : Program A} (i j k l : ℕ) (self other watcher : Handle)
      → Reach C control_blk_size h s
      → i ≢ j
      → get_elem? s.shared i ≡ some self
      → get_elem? s.shared j ≡ some other
      → get_elem? s.shared k ≡ some none
      → get_elem? s.weak l ≡ some watcher
      → ((m : Memory A) × (reset C control_blk_size s.memory self ≡ some m))
        × ((m : Memory A) × (copy_assign C control_blk_size s.memory self other ≡ some (other, m)))
        × ((m : Memory A) × (weak_assign C control_blk_size s.memory watcher other
              ≡ some (other, m)))
        × ((m : Memory A) × (weak_reset s.memory watcher ≡ some m))
        × ((r : Handle) × (m : Memory A) × (lock s.memory watcher ≡ some (r, m)))
  Reach-no_fault {s} i j k l self other watcher reached ne at_i at_j at_k at_l =
      let inv = Reach-Inv reached in
      let held = λ (p : ℕ) (e : other ≡ some p). held_shared inv l j p (at_j ∙ ap some e) in
      let (m₁, run₁, _) = reset-Inv inv C control_blk_size i self at_i in
      let (m₂, run₂, _) = copy_assign-Inv C control_blk_size inv i j self other ne at_i at_j in
      let (m₃, run₃, _) = weak_assign-Inv C control_blk_size inv l watcher other at_l held in
      let (m₄, run₄, _) = weak_reset-Inv inv l watcher at_l in
      let (r, m₅, run₅, _) = lock-Inv C control_blk_size inv k l watcher at_k at_l in
      ((m₁, run₁), (m₂, run₂), (m₃, run₃), (m₄, run₄), (r, m₅, run₅))
