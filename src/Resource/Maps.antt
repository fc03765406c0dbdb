-- ===== src/Resource/Maps.antt =====
-- What a resource has mapped in its life is unmapped again.
use real_time_library.Base.{
  ℕ, ◌≡◌, refl, sym, ◌∙◌, inl, inr, true, false, Option, none, some, List, [], ◌∷◌, Option-cases,
}
use real_time_library.Resource.{
  Buffer, mapping, Mapper, MMapMemoryResource, new_resource, init_resource, uninit_resource,
}

-- The successful calls of `mmap`, with the address and the size, and the calls of `munmap`.
pub data Event : Type 0 where
  mapped : ℕ → ℕ → Event
  unmapped : Buffer → ℕ → Event

pub record Traced (S : Type 0) : Type 0 where
  pub state : S
  pub log : List Event

-- A mapper that writes down its calls, the last one first.
abbrev log_map : Option ℕ → ℕ → List Event → List Event
log_map none n log = log
log_map (some a) n log = mapped a n ∷ log

abbrev pub logged : Mapper → Mapper
logged M = record {
  State = Traced M.State;
  mmap =
      λ n t. let (p, s') = M.mmap n t.state in (p, record { state = s'; log = log_map p n t.log });
  munmap = λ b n t. record { state = M.munmap b n t.state; log = unmapped b n ∷ t.log };
}

-- Each mapping is unmapped before the next one is made, at its address and with its size, and none
-- is left.
pub data Balanced : List Event → Type 0 where
  nothing : Balanced []
  pair :
      (a n : ℕ) (log : List Event)
      → Balanced log
      → Balanced (unmapped (mapping a) n ∷ mapped a n ∷ log)

-- The calls on a resource that is not moved.
pub data Call : Type 0 where
  init : ℕ → Call
  uninit : Call

module _ (M : Mapper) where
  unfoldable pub run :
      List Call → MMapMemoryResource → Traced M.State → MMapMemoryResource × Traced M.State
  run [] r t = (r, t)
  run (init n ∷ calls) r t = let (_, r', t') = init_resource (logged M) r n t in run calls r' t'
  run (uninit ∷ calls) r t = let (r', t') = uninit_resource (logged M) r t in run calls r' t'

  -- What the log says of a resource: it has the last mapping, or there is none.
  data Owns (r : MMapMemoryResource) (log : List Event) : Type 0 where
    owns :
        (a : ℕ) (rest : List Event)
        → r.initialized ≡ true
        → r.buf ≡ mapping a
        → log ≡ mapped a r.capacity ∷ rest
        → Balanced rest
        → Owns r log
    has_none : r.initialized ≡ false → Balanced log → Owns r log

  init-Owns :
      (r : MMapMemoryResource) (n : ℕ) (t : Traced M.State)
      → Owns r t.log
      → let (_, r', t') = init_resource (logged M) r n t in Owns r' t'.log
  unfolding init_resource
  init-Owns r n t (owns a rest e b l balanced) =
      simp (e, init_resource) (owns a rest e b l balanced)
  init-Owns r n t (has_none e balanced) = elim (Option-cases (M.mmap n t.state).0) [
    | inl f ↦ simp (e, f, init_resource) (has_none refl balanced)
    | inr (a, f) ↦ simp (e, f, init_resource) (owns a t.log refl refl refl balanced)
  ]

  uninit-Owns :
      (r : MMapMemoryResource) (t : Traced M.State)
      → Owns r t.log
      → let (r', t') = uninit_resource (logged M) r t in Owns r' t'.log × (r'.initialized ≡ false)
  unfolding uninit_resource
  uninit-Owns r t (owns a rest e b l balanced) =
      let after : Balanced (unmapped r.buf r.capacity ∷ t.log) =
        rw (b, l) (pair a r.capacity rest balanced) in
      rw (e, uninit_resource) (has_none refl after, refl)
  uninit-Owns r t (has_none e balanced) = simp (e, uninit_resource) (has_none e balanced, refl)

  run-Owns :
      (calls : List Call) (r : MMapMemoryResource) (t : Traced M.State)
      → Owns r t.log
      → let (r', t') = run calls r t in Owns r' t'.log
  unfolding run
  run-Owns [] r t inv = inv
  run-Owns (init n ∷ calls) r t inv = run-Owns calls _ _ (init-Owns r n t inv)
  run-Owns (uninit ∷ calls) r t inv = run-Owns calls _ _ ((uninit-Owns r t inv).0)

  -- Whatever calls of `init` and `uninit` a resource gets that is not moved, and whichever calls of
  -- `mmap` fail, its destructor leaves no mapping behind: each one has been unmapped exactly once, at
  -- its address and with its size, before the next one was made.
  pub run-Balanced :
      (calls : List Call) (s : M.State)
      → let (r, t) = run calls new_resource (record { state = s; log = [] }) in
        Balanced (uninit_resource (logged M) r t).1.log
  run-Balanced calls s =
      let (r, t) = run calls new_resource (record { state = s; log = [] }) in
      let (done, off) =
        uninit-Owns r t
          (run-Owns calls new_resource (record { state = s; log = [] }) (has_none refl nothing)) in
      elim done [ owns a rest e b l balanced ↦ cc (sym off ∙ e) | has_none e balanced ↦ balanced ]
