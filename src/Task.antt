-- ===== src/Task.antt =====
-- librtlcpp/include/rtlcpp/task.hpp: `rtl::PeriodicTask`, its options and its notification object.
-- The thread of the task and any number of threads that use the task take their steps in any order.
pub mod Shutdown
pub mod Ends
use real_time_library.Base.{
  ℕ, suc, ◌≡◌, Bool, true, false, Option, some, List, ◌==◌, if◌then◌else◌, get_elem?, set,
  replicate,
}

-- `PeriodicTaskOptions`, with `Param` for the system's `struct sched_param`
pub record PeriodicTaskOptions (Param : Type 0) : Type 0 where
  pub policy : ℕ
  pub param : Param
  pub set_sched_params : Bool
  pub timeout_micro : ℕ

module _ {Param : Type 0} where
  -- The four constructors; `param` is what `m_param()` makes.
  abbrev pub no_options : Param → PeriodicTaskOptions Param
  no_options param = record {
    policy = 0;
    param = param;
    set_sched_params = false;
    timeout_micro = 0;
  }

  abbrev pub sched_options : ℕ → Param → PeriodicTaskOptions Param
  sched_options policy param = record {
    policy = policy;
    param = param;
    set_sched_params = true;
    timeout_micro = 0;
  }

  abbrev pub timeout_options : Param → ℕ → PeriodicTaskOptions Param
  timeout_options param timeout = record {
    policy = 0;
    param = param;
    set_sched_params = false;
    timeout_micro = timeout;
  }

  abbrev pub sched_timeout_options : ℕ → Param → ℕ → PeriodicTaskOptions Param
  sched_timeout_options policy param timeout = record {
    policy = policy;
    param = param;
    set_sched_params = true;
    timeout_micro = timeout;
  }

  -- `PeriodicTaskOptions(PeriodicTaskOptions&&)` and `operator=(PeriodicTaskOptions&&)` between two
  -- objects: the new options, and those moved from
  abbrev pub move_options :
      PeriodicTaskOptions Param → PeriodicTaskOptions Param × PeriodicTaskOptions Param
  move_options o = (o, record o { policy = 0; set_sched_params = false; timeout_micro = 0 })

-- Where the thread of the task stands: not made yet; before `pthread_setschedparam`; in `m_call`;
-- before the lock of `m_mtx`; with the lock, before the test of `m_shutdown`; with the lock, before
-- the wait; in the wait; after the wait, before it has the lock again; with the lock, at the end of
-- the block; with the lock, after `break`; and at its end.
pub data Worker : Type 0 where
  unstarted scheduling calling checking holding parking waiting waking leaving stopping finished :
      Worker

-- Where a thread that uses the task stands: outside; in `signal_shutdown` before the lock, with the
-- lock, with the lock and the flag set, and without the lock before `notify_one`.
pub data Client : Type 0 where
  outside entering inside flagged notifying : Client

-- `m_call` and the system decide the results of their calls, so they are no part of the state. The
-- mutex is `locked`, and `m_thread` is joinable once the worker is started.
pub record System (Param : Type 0) : Type 0 where
  pub worker : Worker
  pub clients : List Client
  pub locked : Bool
  pub started : Bool
  pub shutdown : Bool
  pub errored_out_num : ℕ
  pub options : PeriodicTaskOptions Param

-- Where the worker goes on after the result of `pthread_setschedparam`, which is called only where
-- the options say so.
abbrev pub after_schedule : Bool → ℕ → Worker
after_schedule false rval = calling
after_schedule true rval = if rval == 0 then calling else finished

abbrev pub error_after : Bool → ℕ → ℕ → ℕ
error_after false rval n = n
error_after true rval n = if rval == 0 then n else rval

-- After `m_call`, by its result
abbrev pub after_call : Bool → Worker
after_call true = finished
after_call false = checking

-- After the test of `m_shutdown`, by its value
abbrev pub after_test : Bool → Worker
after_test true = stopping
after_test false = parking

-- `notify_one` and `notify_all` on the condition variable that only the worker waits for
abbrev pub notified : Worker → Worker
notified unstarted = unstarted
notified scheduling = scheduling
notified calling = calling
notified checking = checking
notified holding = holding
notified parking = parking
notified waiting = waking
notified waking = waking
notified leaving = leaving
notified stopping = stopping
notified finished = finished

-- `NotificationObject`: null, or a reference to the condition variable of the task
pub record NotificationObject : Type 0 where
  pub attached : Bool

-- `get_notification_obj`, and the move of an object: the new object, and the one moved from
abbrev pub get_notification_obj : NotificationObject
get_notification_obj = record { attached = true }

abbrev pub move_object : NotificationObject → NotificationObject × NotificationObject
move_object o = (o, record { attached = false })

-- `NotificationObject::notify_one` and `notify_all`
abbrev pub notify_through : NotificationObject → Worker → Worker
notify_through o w = if o.attached then notified w else w

module _ {Param : Type 0} where
  -- The code of the thread in `priv_start`; both of its loops, as `wait` may wake for no reason and
  -- `wait_for` for the time that is up.
  pub data WorkerStep (s : System Param) : System Param → Type 0 where
    schedule :
        (rval : ℕ)
        → s.worker ≡ scheduling
        → WorkerStep s (record s {
          worker = after_schedule s.options.set_sched_params rval;
          errored_out_num = error_after s.options.set_sched_params rval s.errored_out_num;
        })
    call : (done : Bool) → s.worker ≡ calling → WorkerStep s (record s { worker = after_call done })
    lock :
        s.worker ≡ checking
        → s.locked ≡ false
        → WorkerStep s (record s { worker = holding; locked = true })
    test : s.worker ≡ holding → WorkerStep s (record s { worker = after_test s.shutdown })
    wait : s.worker ≡ parking → WorkerStep s (record s { worker = waiting; locked = false })
    wake : s.worker ≡ waiting → WorkerStep s (record s { worker = waking })
    relock :
        s.worker ≡ waking
        → s.locked ≡ false
        → WorkerStep s (record s { worker = leaving; locked = true })
    leave : s.worker ≡ leaving → WorkerStep s (record s { worker = calling; locked = false })
    stop : s.worker ≡ stopping → WorkerStep s (record s { worker = finished; locked = false })

  -- The calls of client `i`. `start` counts as one step, as only one thread calls it.
  pub data ClientStep (s : System Param) : System Param → Type 0 where
    start : s.started ≡ false → ClientStep s (record s { worker = scheduling; started = true })
    start_with :
        (options : PeriodicTaskOptions Param)
        → s.started ≡ false
        → ClientStep s (record s { worker = scheduling; started = true; options = options })
    call_signal_shutdown :
        (i : ℕ)
        → get_elem? s.clients i ≡ some outside
        → ClientStep s (record s { clients = set s.clients i entering })
    enter :
        (i : ℕ)
        → get_elem? s.clients i ≡ some entering
        → s.locked ≡ false
        → ClientStep s (record s { clients = set s.clients i inside; locked = true })
    set_shutdown :
        (i : ℕ)
        → get_elem? s.clients i ≡ some inside
        → ClientStep s (record s { clients = set s.clients i flagged; shutdown = true })
    unlock :
        (i : ℕ)
        → get_elem? s.clients i ≡ some flagged
        → ClientStep s (record s { clients = set s.clients i notifying; locked = false })
    notify :
        (i : ℕ)
        → get_elem? s.clients i ≡ some notifying
        → ClientStep s (record s { clients = set s.clients i outside; worker = notified s.worker })
    notify_object :
        (o : NotificationObject) → ClientStep s (record s { worker = notify_through o s.worker })

  -- `PeriodicTask(call, options)`, with `n` clients
  abbrev pub starting : ℕ → PeriodicTaskOptions Param → System Param
  starting n options = record {
    worker = unstarted;
    clients = replicate n outside;
    locked = false;
    started = false;
    shutdown = false;
    errored_out_num = 0;
    options = options;
  }

  pub data Reach (n : ℕ) (options : PeriodicTaskOptions Param) : System Param → Type 0 where
    begin : Reach n options (starting n options)
    worker_step : {s t : System Param} → Reach n options s → WorkerStep s t → Reach n options t
    client_step : {s t : System Param} → Reach n options s → ClientStep s t → Reach n options t

  -- A run from `s` to `t` in which the worker takes `k` steps.
  pub data Run (s : System Param) : ℕ → System Param → Type 0 where
    stay : Run s 0 s
    work : {k : ℕ} {t u : System Param} → Run s k t → WorkerStep t u → Run s (suc k) u
    serve : {k : ℕ} {t u : System Param} → Run s k t → ClientStep t u → Run s k u
