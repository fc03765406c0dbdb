-- ===== src/Memory/Counts.antt =====
-- How many handles point to a control block, and what its counts are then.
use real_time_library.Base.{
  ℕ, zero, suc, ◌+◌, ◌^◌, ◌≤◌, ◌<◌, ◌≡◌, refl, ap, ◌∙◌, ◌≢◌, inl, inr, Bool, true, false, Option,
  none, some, List, [], ◌∷◌, arith, ◌==◌, if◌then◌else◌, length, get_elem?, set, eqb→eq, eqb→ne,
  eqb_refl, ne→eqb, eq-cases, Option-cases,
}
use real_time_library.Alloc.{Alloc}
use real_time_library.Ring.{add_u32, sub_u32}
use real_time_library.ObjectPool.{Class}
use real_time_library.Memory.{
  ControlBlk, Handle, Memory, put, modify, inc_strong, inc_weak, dec_weak, free, reset, weak_reset,
  deinit, dec_strong,
}

-- 1 for a handle to the control block at `p`.
abbrev pub points : ℕ → Handle → ℕ
points p none = 0
points p (some q) = if q == p then 1 else 0

-- How many of the handles point to the control block at `p`.
abbrev pub count : ℕ → List Handle → ℕ
count p [] = 0
count p (x ∷ xs) = points p x + count p xs

pub count-set :
    (p : ℕ) (xs : List Handle) (i : ℕ) (old v : Handle)
    → get_elem? xs i ≡ some old
    → count p (set xs i v) + points p old ≡ count p xs + points p v
count-set p [] i old v e = cc
count-set p (x ∷ xs) zero old v e = ground arith
count-set p (x ∷ xs) (suc i) old v e = omega (arith, count-set p xs i old v e)

pub count-get_elem? :
    (p : ℕ) (xs : List Handle) (i : ℕ) → get_elem? xs i ≡ some (some p) → 0 < count p xs
count-get_elem? p [] i e = cc
count-get_elem? p (x ∷ xs) zero e = ground (arith, eqb_refl p)
count-get_elem? p (x ∷ xs) (suc i) e = omega (arith, count-get_elem? p xs i e)

pub count-le-length : (p : ℕ) (xs : List Handle) → count p xs ≤ length xs
count-le-length p [] = omega arith
count-le-length p (x ∷ xs) = ground (arith, count-le-length p xs)

-- The control block with `shared` and `weak` handles to it: it is there as long as a handle is, its
-- counts are the numbers of handles, with one more weak one for all shared ones together, and its
-- object is there as long as a shared handle is.
pub record Counted (b : ControlBlk) (shared weak : ℕ) : Type 0 where
  pub strong : b.strong_count ≡ shared
  pub weak_sum : b.weak_count ≡ weak + (if shared == 0 then 0 else 1)
  pub in_use : 0 < b.weak_count
  pub alive : 0 < shared → b.object ≢ none
  pub gone : shared ≡ 0 → b.object ≡ none

abbrev pub Right : Option ControlBlk → ℕ → ℕ → Type 0
Right none shared weak = (shared ≡ 0) × (weak ≡ 0)
Right (some b) shared weak = Counted b shared weak

pub Right-there :
    (o : Option ControlBlk) {shared weak : ℕ}
    → Right o shared weak
    → 0 < shared + weak
    → (b : ControlBlk) × (o ≡ some b) × Counted b shared weak
Right-there none (no_shared, no_weak) h = absurd (omega arith)
Right-there (some b) right h = (b, refl, right)

module _ {A : Alloc} where
  -- What a change to the control block at `p` alone has made of the store.
  pub record Changed (p : ℕ) (m : Memory A) (shared weak : ℕ) (m' : Memory A) : Type 0 where
    pub here : Right (m'.blocks p) shared weak
    pub others : (q : ℕ) → q ≢ p → m'.blocks q ≡ m.blocks q

  module _ (m : Memory A) (p shared weak : ℕ) (right : Right (m.blocks p) shared weak)
      (small : shared + weak + 2 < 2 ^ 32) where
    put_others : (b : Option ControlBlk) (q : ℕ) → q ≢ p → (put m p b).blocks q ≡ m.blocks q
    put_others b q ne = rw (ne→eqb q p ne)

    pub inc_strong-Changed :
        0 < shared → (m' : Memory A) × (inc_strong m p ≡ some m') × Changed p m (suc shared) weak m'
    unfolding inc_strong modify
    inc_strong-Changed held =
        let (b, there, c) = Right-there (m.blocks p) right (omega arith) in
        (
          put m p (
              some (record b {
                strong_count = add_u32 b.strong_count 1;
                weak_count = if b.strong_count == 0 then add_u32 b.weak_count 1 else b.weak_count;
              })),
          rw (inc_strong, modify, there),
          record {
            here = rw (eqb_refl p) (record {
              strong = ground (arith, c.strong);
              weak_sum = ground (arith, c.strong, c.weak_sum);
              in_use = ground (arith, c.strong, c.in_use);
              alive = λ _. c.alive held;
              gone = λ e. absurd (omega arith);
            });
            others = put_others _;
          },
        )

    pub inc_weak-Changed :
        0 < shared + weak
        → (m' : Memory A) × (inc_weak m p ≡ some m') × Changed p m shared (suc weak) m'
    unfolding inc_weak modify
    inc_weak-Changed held =
        let (b, there, c) = Right-there (m.blocks p) right held in
        (
          put m p (some (record b { weak_count = add_u32 b.weak_count 1 })),
          rw (inc_weak, modify, there),
          record {
            here = rw (eqb_refl p) (record {
              strong = c.strong;
              weak_sum = ground (arith, c.weak_sum);
              in_use = ground (arith, c.weak_sum);
              alive = c.alive;
              gone = c.gone;
            });
            others = put_others _;
          },
        )

  module _ (m : Memory A) (p shared weak : ℕ) (small : shared + weak + 2 < 2 ^ 32) where
    -- The last handle of all frees the control block.
    freed-Changed :
        (m' : Memory A) (b : ControlBlk) (last : Bool)
        → ((q : ℕ) → q ≢ p → m'.blocks q ≡ m.blocks q)
        → m'.blocks p ≡ some b
        → (last ≡ true → (shared ≡ 0) × (weak ≡ 0))
        → (last ≡ false → Counted b shared weak)
        → Changed p m shared weak (if last then free m' p else m')
    unfolding free
    freed-Changed m' b true same here none_left some_left = record {
      here = rw (eqb_refl p) (none_left refl);
      others = λ q ne. rw (ne→eqb q p ne) (same q ne);
    }
    freed-Changed m' b false same here none_left some_left = record {
      here = rw here (some_left refl);
      others = same;
    }

    dec_weak-some :
        (m' : Memory A) (b : ControlBlk)
        → m'.blocks p ≡ some b
        → dec_weak m' p
          ≡ some (
            b.weak_count == 1,
            put m' p (some (record b { weak_count = sub_u32 b.weak_count 1 })),
          )
    unfolding dec_weak
    dec_weak-some m' b here = rw (dec_weak, here)

    weak_reset-some :
        (m' : Memory A) (last : Bool)
        → dec_weak m p ≡ some (last, m')
        → weak_reset m (some p) ≡ some (if last then free m' p else m')
    unfolding weak_reset
    weak_reset-some m' last run = rw (weak_reset, run)

    -- What the decrement of a weak count from `b` makes of a store.
    released : Memory A → ControlBlk → Memory A
    released m' b = put m' p (some (record b { weak_count = sub_u32 b.weak_count 1 }))

    released-Changed :
        (m' : Memory A) (b : ControlBlk)
        → ((q : ℕ) → q ≢ p → m'.blocks q ≡ m.blocks q)
        → b.strong_count ≡ shared
        → b.weak_count ≡ suc (weak + (if shared == 0 then 0 else 1))
        → (0 < shared → b.object ≢ none)
        → (shared ≡ 0 → b.object ≡ none)
        → Changed p m shared weak
            (if b.weak_count == 1 then free (released m' b) p else released m' b)
    unfolding released
    released-Changed m' b same strong weak_sum alive gone =
        freed-Changed (released m' b) (record b { weak_count = sub_u32 b.weak_count 1 })
          (b.weak_count == 1) (λ q ne. rw (ne→eqb q p ne) (same q ne)) (rw (eqb_refl p))
          (λ e. ground (arith, weak_sum, eqb→eq b.weak_count 1))
          (λ e. record {
            strong = strong;
            weak_sum = ground (arith, weak_sum);
            in_use = ground (arith, weak_sum, eqb→ne b.weak_count 1);
            alive = alive;
            gone = gone;
          })

    pub weak_reset-Changed :
        Right (m.blocks p) shared (suc weak)
        → (m' : Memory A) × (weak_reset m (some p) ≡ some m') × Changed p m shared weak m'
    unfolding released
    weak_reset-Changed right =
        let (b, there, c) = Right-there (m.blocks p) right (omega arith) in
        (
          (if b.weak_count == 1 then free (released m b) p else released m b),
          weak_reset-some (released m b) (b.weak_count == 1) (dec_weak-some m b there),
          released-Changed m b (λ q ne. refl) c.strong (omega (arith, c.weak_sum)) c.alive c.gone,
        )

module _ {A : Alloc} (C : Class A) (control_blk_size : ℕ) (m : Memory A) (p shared weak : ℕ)
    (small : shared + weak + 2 < 2 ^ 32) where
  deinit-blocks :
      (m' : Memory A) (b : ControlBlk)
      → m'.blocks p ≡ some b
      → ((deinit C control_blk_size m' p b).blocks p ≡ some (record b { object = none }))
        × ((q : ℕ) → q ≢ p → (deinit C control_blk_size m' p b).blocks q ≡ m'.blocks q)
  unfolding deinit
  deinit-blocks m' b here = elim (Option-cases b.object) [
    | inl e ↦ rw (e, deinit) (here ∙ ap (λ o. some (record b { object = o })) e, λ q ne. refl)
    | inr (d, e) ↦ rw (e, deinit, eqb_refl p) (refl, λ q ne. rw (ne→eqb q p ne))
  ]

  reset-some :
      (m' : Memory A) (last : Bool)
      → dec_strong C control_blk_size m p ≡ some (last, m')
      → reset C control_blk_size m (some p) ≡ some (if last then free m' p else m')
  unfolding reset
  reset-some m' last run = rw (reset, run)

  -- The control block with one shared handle less, and the store with it.
  abbrev fewer : ControlBlk → ControlBlk
  fewer b = record b { strong_count = sub_u32 b.strong_count 1 }

  abbrev stepped : ControlBlk → Memory A
  stepped b = put m p (some (fewer b))

  dec_strong-last :
      (b : ControlBlk)
      → m.blocks p ≡ some b
      → b.strong_count ≡ 1
      → dec_strong C control_blk_size m p
        ≡ dec_weak (deinit C control_blk_size (stepped b) p (fewer b)) p
  unfolding dec_strong
  dec_strong-last b here one =
      let test : (b.strong_count == 1) ≡ true = rw one in rw (dec_strong, here, test)

  dec_strong-more :
      (b : ControlBlk)
      → m.blocks p ≡ some b
      → b.strong_count ≢ 1
      → dec_strong C control_blk_size m p ≡ some (false, stepped b)
  unfolding dec_strong
  dec_strong-more b here more = rw (dec_strong, here, ne→eqb b.strong_count 1 more)

  -- A shared pointer that is reset: the last one ends the object.
  pub reset-Changed :
      Right (m.blocks p) (suc shared) weak
      → (m' : Memory A) × (reset C control_blk_size m (some p) ≡ some m')
        × Changed p m shared weak m'
  unfolding released
  reset-Changed right =
      let (b, there, c) = Right-there (m.blocks p) right (omega arith) in
      elim (eq-cases shared 0) [
        | inl none_left ↦
            let ended = deinit C control_blk_size (stepped b) p (fewer b) in
            let (here, same) = deinit-blocks (stepped b) (fewer b) (rw (eqb_refl p)) in
            let b' : ControlBlk = record b {
              strong_count = sub_u32 b.strong_count 1;
              object = none;
            } in
            (
              (if b.weak_count == 1
                  then free (released m p shared weak small ended b') p
                  else released m p shared weak small ended b'),
              reset-some (released m p shared weak small ended b') (b.weak_count == 1) (
                  dec_strong-last b there (omega (arith, c.strong))
                  ∙ dec_weak-some m p shared weak small ended b' here),
              released-Changed m p shared weak small ended b'
                  (λ q ne. same q ne ∙ rw (ne→eqb q p ne)) (omega (arith, c.strong))
                  (ground (arith, c.weak_sum)) (λ e. absurd (omega arith)) (λ e. refl),
            )
        | inr some_left ↦ (
          stepped b,
          reset-some (stepped b) false (dec_strong-more b there (ground (arith, c.strong))),
          record {
            here = rw (eqb_refl p) (record {
              strong = omega (arith, c.strong);
              weak_sum = ground (arith, c.weak_sum);
              in_use = c.in_use;
              alive = λ _. c.alive (omega arith);
              gone = λ e. absurd (some_left e);
            });
            others = λ q ne. rw (ne→eqb q p ne);
          },
        )
      ]
