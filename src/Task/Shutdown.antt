-- ===== src/Task/Shutdown.antt =====
-- The shutdown of a periodic task reaches its thread.
use real_time_library.Base.{
  same_result, ℕ, zero, suc, ◌+◌, ◌≤◌, ◌<◌, ◌≡◌, refl, sym, ap, ap₂, ◌∙◌, ◌≢◌, inl, inr, Bool, true,
  false, some, List, [], ◌∷◌, arith, ◌==◌, get_elem?, set, replicate, Bool-cases,
}
use real_time_library.Task.{
  PeriodicTaskOptions, Worker, unstarted, scheduling, calling, checking, holding, parking, waiting,
  waking, leaving, stopping, finished, Client, outside, entering, inside, flagged, notifying,
  System, after_schedule, error_after, after_test, notified, WorkerStep, schedule, call, lock, test,
  wait, wake, relock, leave, stop, ClientStep, start, start_with, call_signal_shutdown, enter,
  set_shutdown, unlock, notify, notify_object, starting,
}

-- The clients inside `signal_shutdown` with the mutex, and those that have set the flag and have not
-- called `notify_one` yet.
abbrev pub guards : Client → ℕ
guards outside = 0
guards entering = 0
guards inside = 1
guards flagged = 1
guards notifying = 0

abbrev pub owes : Client → ℕ
owes outside = 0
owes entering = 0
owes inside = 0
owes flagged = 1
owes notifying = 1

abbrev pub sum : (Client → ℕ) → List Client → ℕ
sum f [] = 0
sum f (c ∷ cs) = f c + sum f cs

-- Whether the worker has the mutex.
abbrev pub owns : Worker → ℕ
owns unstarted = 0
owns scheduling = 0
owns calling = 0
owns checking = 0
owns holding = 1
owns parking = 1
owns waiting = 0
owns waking = 0
owns leaving = 1
owns stopping = 1
owns finished = 0

abbrev pub bit : Bool → ℕ
bit true = 1
bit false = 0

bit_bound : (b : Bool) → bit b ≤ 1
bit_bound true = omega arith
bit_bound false = omega arith

sum-set :
    (f : Client → ℕ) (cs : List Client) (i : ℕ) (c d : Client)
    → get_elem? cs i ≡ some c
    → sum f (set cs i d) + f c ≡ sum f cs + f d
sum-set f [] i c d e = cc
sum-set f (x ∷ cs) zero c d e = let same : f x ≡ f c = ap f (same_result refl e) in omega arith
sum-set f (x ∷ cs) (suc i) c d e = omega (arith, sum-set f cs i c d e)

sum-replicate : (f : Client → ℕ) (n : ℕ) → f outside ≡ 0 → sum f (replicate n outside) ≡ 0
sum-replicate f zero e = refl
sum-replicate f (suc n) e = omega (arith, sum-replicate f n e)

owns-notified : (w : Worker) → owns (notified w) ≡ owns w
owns-notified unstarted = refl
owns-notified scheduling = refl
owns-notified calling = refl
owns-notified checking = refl
owns-notified holding = refl
owns-notified parking = refl
owns-notified waiting = refl
owns-notified waking = refl
owns-notified leaving = refl
owns-notified stopping = refl
owns-notified finished = refl

notified-parking : (w : Worker) → notified w ≡ parking → w ≡ parking
notified-parking unstarted e = cc
notified-parking scheduling e = cc
notified-parking calling e = cc
notified-parking checking e = cc
notified-parking holding e = cc
notified-parking parking e = refl
notified-parking waiting e = cc
notified-parking waking e = cc
notified-parking leaving e = cc
notified-parking stopping e = cc
notified-parking finished e = cc

notified-waiting : (w : Worker) → notified w ≢ waiting
notified-waiting unstarted e = cc
notified-waiting scheduling e = cc
notified-waiting calling e = cc
notified-waiting checking e = cc
notified-waiting holding e = cc
notified-waiting parking e = cc
notified-waiting waiting e = cc
notified-waiting waking e = cc
notified-waiting leaving e = cc
notified-waiting stopping e = cc
notified-waiting finished e = cc

module _ {Param : Type 0} where
  -- The mutex is taken exactly while one thread has it; the worker never goes to wait with the flag
  -- set; and where it waits with the flag set, a notification is still to come.
  pub record Inv (s : System Param) : Type 0 where
    pub exclusive : sum guards s.clients + owns s.worker ≡ bit s.locked
    pub not_parked : s.worker ≡ parking → s.shutdown ≡ false
    pub heard : s.worker ≡ waiting → s.shutdown ≡ true → 0 < sum owes s.clients
    pub unmade : s.started ≡ false → s.worker ≡ unstarted

  pub starting-Inv : (n : ℕ) (options : PeriodicTaskOptions Param) → Inv (starting n options)
  starting-Inv n options = record {
    exclusive = omega (arith, sum-replicate guards n refl);
    not_parked = λ e. cc;
    heard = λ e. cc;
    unmade = λ _. refl;
  }

  module _ {s : System Param} (inv : Inv s) where
    -- A step of the worker to a place where it neither waits nor is about to.
    moved-Inv :
        (w : Worker) (locked : Bool) (n : ℕ)
        → s.worker ≢ unstarted
        → w ≢ parking
        → w ≢ waiting
        → sum guards s.clients + owns w ≡ bit locked
        → Inv (record s { worker = w; locked = locked; errored_out_num = n })
    moved-Inv w locked n made no_park no_wait owned = record {
      exclusive = owned;
      not_parked = λ e. absurd (no_park e);
      heard = λ e. absurd (no_wait e);
      unmade = λ e. absurd (made (inv.unmade e));
    }

    pub owned : (w : Worker) → s.worker ≡ w → sum guards s.clients + owns w ≡ bit s.locked
    owned w e = ap (λ x. sum guards s.clients + owns x) (sym e) ∙ inv.exclusive

    made : (w : Worker) → s.worker ≡ w → w ≢ unstarted → s.worker ≢ unstarted
    made w e ne f = ne (sym e ∙ f)

    scheduled-Inv :
        (params : Bool) (rval : ℕ)
        → s.worker ≡ scheduling
        → Inv (record s {
          worker = after_schedule params rval;
          errored_out_num = error_after params rval s.errored_out_num;
        })
    scheduled-Inv false rval e =
        moved-Inv calling s.locked s.errored_out_num (made scheduling e (λ f. cc)) (λ f. cc)
          (λ f. cc) (owned scheduling e)
    scheduled-Inv true rval e = elim (Bool-cases (rval == 0)) [
      | inl fine ↦ rw fine (
          moved-Inv calling s.locked s.errored_out_num (made scheduling e (λ f. cc)) (λ f. cc)
            (λ f. cc) (owned scheduling e))
      | inr refused ↦ rw refused (
          moved-Inv finished s.locked rval (made scheduling e (λ f. cc)) (λ f. cc) (λ f. cc)
            (owned scheduling e))
    ]

    tested-Inv :
        (down : Bool)
        → s.shutdown ≡ down
        → s.worker ≡ holding
        → Inv (record s { worker = after_test down })
    tested-Inv true is_down e =
        moved-Inv stopping s.locked s.errored_out_num (made holding e (λ f. cc)) (λ f. cc) (λ f. cc)
          (owned holding e)
    tested-Inv false is_up e = record {
      exclusive = owned holding e;
      not_parked = λ _. is_up;
      heard = λ f. cc;
      unmade = λ f. absurd (made holding e (λ g. cc) (inv.unmade f));
    }

  pub WorkerStep-Inv : {s t : System Param} → Inv s → WorkerStep s t → Inv t
  WorkerStep-Inv {s} inv (schedule rval e) = scheduled-Inv inv s.options.set_sched_params rval e
  WorkerStep-Inv {s} inv (call true e) =
      moved-Inv inv finished s.locked s.errored_out_num (made inv calling e (λ f. cc)) (λ f. cc)
        (λ f. cc) (owned inv calling e)
  WorkerStep-Inv {s} inv (call false e) =
      moved-Inv inv checking s.locked s.errored_out_num (made inv calling e (λ f. cc)) (λ f. cc)
        (λ f. cc) (owned inv calling e)
  WorkerStep-Inv {s} inv (lock e free) =
      moved-Inv inv holding true s.errored_out_num (made inv checking e (λ f. cc)) (λ f. cc)
        (λ f. cc) (let before = owned inv checking e in ground (arith, free, before))
  WorkerStep-Inv {s} inv (test e) = tested-Inv inv s.shutdown refl e
  WorkerStep-Inv {s} inv (wait e) = record {
    exclusive = let before = owned inv parking e in ground (arith, before);
    not_parked = λ f. cc;
    heard = λ _ down. cc (sym (inv.not_parked e) ∙ down);
    unmade = λ f. absurd (made inv parking e (λ g. cc) (inv.unmade f));
  }
  WorkerStep-Inv {s} inv (wake e) =
      moved-Inv inv waking s.locked s.errored_out_num (made inv waiting e (λ f. cc)) (λ f. cc)
        (λ f. cc) (owned inv waiting e)
  WorkerStep-Inv {s} inv (relock e free) =
      moved-Inv inv leaving true s.errored_out_num (made inv waking e (λ f. cc)) (λ f. cc) (λ f. cc)
        (let before = owned inv waking e in ground (arith, free, before))
  WorkerStep-Inv {s} inv (leave e) =
      moved-Inv inv calling false s.errored_out_num (made inv leaving e (λ f. cc)) (λ f. cc)
        (λ f. cc) (let before = owned inv leaving e in ground (arith, before))
  WorkerStep-Inv {s} inv (stop e) =
      moved-Inv inv finished false s.errored_out_num (made inv stopping e (λ f. cc)) (λ f. cc)
        (λ f. cc) (let before = owned inv stopping e in ground (arith, before))

  -- A notification, before or after the notifying client goes on.
  told-Inv :
      {s : System Param} (cs : List Client)
      → Inv s
      → sum guards cs ≡ sum guards s.clients
      → Inv (record s { clients = cs; worker = notified s.worker })
  told-Inv {s} cs inv same = record {
    exclusive = ap₂ (λ a b. a + b) same (owns-notified s.worker) ∙ inv.exclusive;
    not_parked = λ f. inv.not_parked (notified-parking s.worker f);
    heard = λ f. absurd (notified-waiting s.worker f);
    unmade = λ f. ap notified (inv.unmade f);
  }

  pub ClientStep-Inv : {s t : System Param} → Inv s → ClientStep s t → Inv t
  ClientStep-Inv {s} inv (start first) = record {
    exclusive = owned inv unstarted (inv.unmade first);
    not_parked = λ f. cc;
    heard = λ f. cc;
    unmade = λ f. cc;
  }
  ClientStep-Inv {s} inv (start_with options first) = record {
    exclusive = owned inv unstarted (inv.unmade first);
    not_parked = λ f. cc;
    heard = λ f. cc;
    unmade = λ f. cc;
  }
  ClientStep-Inv {s} inv (call_signal_shutdown i e) = record {
    exclusive = omega (arith, sum-set guards s.clients i outside entering e, inv.exclusive);
    not_parked = inv.not_parked;
    heard = λ f down. omega (arith, sum-set owes s.clients i outside entering e, inv.heard f down);
    unmade = inv.unmade;
  }
  ClientStep-Inv {s} inv (enter i e free) = record {
    exclusive =
        let before : sum guards s.clients + owns s.worker ≡ 0 = inv.exclusive ∙ ap bit free in
        omega (arith, sum-set guards s.clients i entering inside e, before);
    not_parked = inv.not_parked;
    heard = λ f down. omega (arith, sum-set owes s.clients i entering inside e, inv.heard f down);
    unmade = inv.unmade;
  }
  ClientStep-Inv {s} inv (set_shutdown i e) = record {
    exclusive = omega (arith, sum-set guards s.clients i inside flagged e, inv.exclusive);
    not_parked = λ f. absurd (
        omega (
          arith,
          owned inv parking f,
          bit_bound s.locked,
          sum-set guards s.clients i inside outside e,
        ));
    heard = λ f down. omega (
      arith,
      sum-set owes s.clients i inside flagged e,
      sum-set owes s.clients i inside outside e,
    );
    unmade = inv.unmade;
  }
  ClientStep-Inv {s} inv (unlock i e) = record {
    exclusive =
        omega (
          arith,
          inv.exclusive,
          bit_bound s.locked,
          sum-set guards s.clients i flagged notifying e,
        );
    not_parked = inv.not_parked;
    heard = λ f down. omega (arith, sum-set owes s.clients i flagged notifying e, inv.heard f down);
    unmade = inv.unmade;
  }
  ClientStep-Inv {s} inv (notify i e) =
      told-Inv (set s.clients i outside) inv
        (omega (arith, sum-set guards s.clients i notifying outside e))
  ClientStep-Inv {s} inv (notify_object o) = elim (Bool-cases o.attached) [
    | inl attached ↦ rw attached (told-Inv s.clients inv refl)
    | inr null ↦ rw null inv
  ]
