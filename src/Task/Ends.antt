-- ===== src/Task/Ends.antt =====
-- Once a shutdown is signalled, the thread of a periodic task comes to its end.
use real_time_library.Base.{
  ℕ, suc, ◌+◌, ◌≤◌, ◌<◌, ◌≡◌, refl, sym, ap, ◌∙◌, ◌≢◌, ◌⊎◌, inl, inr, Bool, true, false, some, List,
  [], ◌∷◌, arith, ◌==◌, get_elem?, eq-cases, Bool-cases,
}
use real_time_library.Task.{
  PeriodicTaskOptions, Worker, unstarted, scheduling, calling, checking, holding, parking, waiting,
  waking, leaving, stopping, finished, Client, outside, entering, inside, flagged, notifying,
  System, after_schedule, after_test, notified, WorkerStep, schedule, call, lock, test, wait, wake,
  relock, leave, stop, ClientStep, start, start_with, call_signal_shutdown, enter, set_shutdown,
  unlock, notify, notify_object, Reach, begin, worker_step, client_step, Run, stay, work, serve,
}
use real_time_library.Task.Shutdown.{
  Inv, owned, guards, owes, sum, WorkerStep-Inv, ClientStep-Inv, starting-Inv, bit, owns,
}

-- A client that has the mutex, or has set the flag and not notified yet: it waits for nothing.
abbrev pub busy : Client → ℕ
busy outside = 0
busy entering = 0
busy inside = 1
busy flagged = 1
busy notifying = 1

busy-guards : (c : Client) → guards c ≤ busy c
busy-guards outside = omega arith
busy-guards entering = omega arith
busy-guards inside = omega arith
busy-guards flagged = omega arith
busy-guards notifying = omega arith

busy-owes : (c : Client) → owes c ≤ busy c
busy-owes outside = omega arith
busy-owes entering = omega arith
busy-owes inside = omega arith
busy-owes flagged = omega arith
busy-owes notifying = omega arith

find_busy :
    (f : Client → ℕ)
    → ((c : Client) → f c ≤ busy c)
    → (cs : List Client) → 0 < sum f cs
    → (i : ℕ) × (c : Client) × (get_elem? cs i ≡ some c) × (0 < busy c)
find_busy f below [] some_left = absurd (omega arith)
find_busy f below (c ∷ cs) some_left = elim (eq-cases (f c) 0) [
  | inl nothing ↦
      let (i, d, here, is_busy) = find_busy f below cs (omega arith) in (suc i, d, here, is_busy)
  | inr something ↦ (0, c, refl, omega (arith, below c))
]

-- How many steps a worker has at most left after a shutdown.
abbrev pub steps_left : Worker → ℕ
steps_left unstarted = 8
steps_left scheduling = 7
steps_left calling = 4
steps_left checking = 3
steps_left holding = 2
steps_left parking = 8
steps_left waiting = 7
steps_left waking = 6
steps_left leaving = 5
steps_left stopping = 1
steps_left finished = 0

steps_left-bound : (w : Worker) → steps_left w ≤ 8
steps_left-bound unstarted = omega arith
steps_left-bound scheduling = omega arith
steps_left-bound calling = omega arith
steps_left-bound checking = omega arith
steps_left-bound holding = omega arith
steps_left-bound parking = omega arith
steps_left-bound waiting = omega arith
steps_left-bound waking = omega arith
steps_left-bound leaving = omega arith
steps_left-bound stopping = omega arith
steps_left-bound finished = omega arith

notified-left : (w : Worker) → steps_left (notified w) ≤ steps_left w
notified-left unstarted = omega arith
notified-left scheduling = omega arith
notified-left calling = omega arith
notified-left checking = omega arith
notified-left holding = omega arith
notified-left parking = omega arith
notified-left waiting = omega arith
notified-left waking = omega arith
notified-left leaving = omega arith
notified-left stopping = omega arith
notified-left finished = omega arith

module _ {Param : Type 0} where
  Reach-Inv :
      {n : ℕ} {options : PeriodicTaskOptions Param} {s : System Param} → Reach n options s → Inv s
  Reach-Inv {n} {options} begin = starting-Inv n options
  Reach-Inv (worker_step before step) = WorkerStep-Inv (Reach-Inv before) step
  Reach-Inv (client_step before step) = ClientStep-Inv (Reach-Inv before) step

  -- The worker can go on without a wake-up that nobody has asked for.
  abbrev pub CanGoOn : System Param → Type 0
  CanGoOn s = (s.worker ≢ waiting) × (t : System Param) × WorkerStep s t

  abbrev pub HasBusyClient : System Param → Type 0
  HasBusyClient s = (i : ℕ) × (c : Client) × (get_elem? s.clients i ≡ some c) × (0 < busy c)

  blocked :
      {s : System Param} (w : Worker)
      → Inv s
      → s.worker ≡ w
      → owns w ≡ 0
      → s.locked ≡ true
      → HasBusyClient s
  blocked {s} w inv e free taken = find_busy guards busy-guards s.clients (
      let before : sum guards s.clients + owns w ≡ 1 = owned inv w e ∙ ap bit taken in
      omega (arith, before, free))

  goes_on :
      {s : System Param}
      → Inv s
      → s.shutdown ≡ true
      → s.worker ≢ unstarted
      → s.worker ≢ finished
      → (w : Worker) → s.worker ≡ w
      → CanGoOn s ⊎ HasBusyClient s
  goes_on inv down made unfinished unstarted e = absurd (made e)
  goes_on inv down made unfinished scheduling e = inl (λ f. cc (sym e ∙ f), _, schedule 0 e)
  goes_on inv down made unfinished calling e = inl (λ f. cc (sym e ∙ f), _, call true e)
  goes_on {s} inv down made unfinished checking e = elim (Bool-cases s.locked) [
    | inl taken ↦ inr (blocked checking inv e refl taken)
    | inr free ↦ inl (λ f. cc (sym e ∙ f), _, lock e free)
  ]
  goes_on inv down made unfinished holding e = inl (λ f. cc (sym e ∙ f), _, test e)
  goes_on inv down made unfinished parking e = inl (λ f. cc (sym e ∙ f), _, wait e)
  goes_on {s} inv down made unfinished waiting e =
      inr (find_busy owes busy-owes s.clients (inv.heard e down))
  goes_on {s} inv down made unfinished waking e = elim (Bool-cases s.locked) [
    | inl taken ↦ inr (blocked waking inv e refl taken)
    | inr free ↦ inl (λ f. cc (sym e ∙ f), _, relock e free)
  ]
  goes_on inv down made unfinished leaving e = inl (λ f. cc (sym e ∙ f), _, leave e)
  goes_on inv down made unfinished stopping e = inl (λ f. cc (sym e ∙ f), _, stop e)
  goes_on inv down made unfinished finished e = absurd (unfinished e)

  -- After the flag of the shutdown is set, a thread of the task that was made and is not at its end
  -- can take a step (`m_call` returns) without a spurious wake-up or a timeout, or there is a client inside
  -- `signal_shutdown` that waits for nothing: the shutdown is never lost, whatever the interleaving
  -- of the threads, and `join` is never left to wait for a thread that sleeps.
  pub Reach-goes_on :
      {n : ℕ} {options : PeriodicTaskOptions Param} {s : System Param}
      → Reach n options s
      → s.shutdown ≡ true
      → s.worker ≢ unstarted
      → s.worker ≢ finished
      → CanGoOn s ⊎ HasBusyClient s
  Reach-goes_on {s = s} reached down made unfinished =
      goes_on (Reach-Inv reached) down made unfinished s.worker refl

  WorkerStep-left :
      {s t : System Param}
      → Inv s
      → s.shutdown ≡ true
      → WorkerStep s t
      → (steps_left t.worker < steps_left s.worker) × (t.shutdown ≡ true)
  WorkerStep-left {s} inv down step = go step
    where
      from : (w : Worker) → s.worker ≡ w → steps_left s.worker ≡ steps_left w
      from w e = ap steps_left e

      go :
          {t : System Param}
          → WorkerStep s t
          → (steps_left t.worker < steps_left s.worker) × (t.shutdown ≡ true)
      go (schedule rval e) = (lower s.options.set_sched_params, down)
        where
          lower : (params : Bool) → steps_left (after_schedule params rval) < steps_left s.worker
          lower false = omega (arith, from scheduling e)
          lower true = elim (Bool-cases (rval == 0)) [
            | inl fine ↦ rw fine (omega (arith, from scheduling e))
            | inr refused ↦ rw refused (omega (arith, from scheduling e))
          ]
      go (call true e) = (omega (arith, from calling e), down)
      go (call false e) = (omega (arith, from calling e), down)
      go (lock e free) = (omega (arith, from checking e), down)
      go (test e) =
          let seen : steps_left (after_test s.shutdown) ≡ 1 =
            ap (λ b. steps_left (after_test b)) down in
          (omega (arith, from holding e, seen), down)
      go (wait e) = cc (sym (inv.not_parked e) ∙ down)
      go (wake e) = (omega (arith, from waiting e), down)
      go (relock e free) = (omega (arith, from waking e), down)
      go (leave e) = (omega (arith, from leaving e), down)
      go (stop e) = (omega (arith, from stopping e), down)

  ClientStep-left :
      {s t : System Param}
      → Inv s
      → s.shutdown ≡ true
      → ClientStep s t
      → (steps_left t.worker ≤ steps_left s.worker) × (t.shutdown ≡ true)
  ClientStep-left {s} inv down (start first) =
      (let e = ap steps_left (inv.unmade first) in omega (arith, e), down)
  ClientStep-left {s} inv down (start_with options first) =
      (let e = ap steps_left (inv.unmade first) in omega (arith, e), down)
  ClientStep-left inv down (call_signal_shutdown i e) = (omega arith, down)
  ClientStep-left inv down (enter i e free) = (omega arith, down)
  ClientStep-left inv down (set_shutdown i e) = (omega arith, refl)
  ClientStep-left inv down (unlock i e) = (omega arith, down)
  ClientStep-left {s} inv down (notify i e) = (notified-left s.worker, down)
  ClientStep-left {s} inv down (notify_object o) = elim (Bool-cases o.attached) [
    | inl attached ↦ rw attached (notified-left s.worker, down)
    | inr null ↦ rw null (omega arith, down)
  ]

  Run-left :
      {s t : System Param} {k : ℕ}
      → Inv s
      → s.shutdown ≡ true
      → Run s k t
      → (k + steps_left t.worker ≤ steps_left s.worker) × Inv t × (t.shutdown ≡ true)
  Run-left inv down stay = (omega arith, inv, down)
  Run-left inv down (work run step) =
      let (bound, inv', down') = Run-left inv down run in
      let (less, down'') = WorkerStep-left inv' down' step in
      (omega (arith, bound, less), WorkerStep-Inv inv' step, down'')
  Run-left inv down (serve run step) =
      let (bound, inv', down') = Run-left inv down run in
      let (less, down'') = ClientStep-left inv' down' step in
      (omega (arith, bound, less), ClientStep-Inv inv' step, down'')

  -- From every state that a task reaches in which the flag of the shutdown is set, and in every run
  -- from there, the thread of the task takes at most as many steps as `steps_left` says for the place
  -- where it stands, which is never more than 8.
  pub Run-bound :
      {n k : ℕ} {options : PeriodicTaskOptions Param} {s t : System Param}
      → Reach n options s
      → s.shutdown ≡ true
      → Run s k t
      → (k + steps_left t.worker ≤ steps_left s.worker) × (k ≤ 8) × (t.shutdown ≡ true)
  Run-bound {s = s} reached down run =
      let (bound, _, down') = Run-left (Reach-Inv reached) down run in
      (bound, omega (arith, bound, steps_left-bound s.worker), down')
