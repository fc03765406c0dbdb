-- ===== src/Tests/Tasks.antt =====
-- A task whose thread waits while a client signals the shutdown.
use real_time_library.Base.{ℕ, ◌+◌, ◌≤◌, ◌≡◌, ◌⊎◌, refl, true, false, [], ◌∷◌}
use real_time_library.Task.{
  PeriodicTaskOptions, no_options, waiting, waking, flagged, notifying, System, schedule, call,
  lock, test, wait, wake, start, call_signal_shutdown, enter, set_shutdown, unlock, Reach, begin,
  worker_step, client_step, Run, stay, work, serve,
}
use real_time_library.Task.Ends.{CanGoOn, HasBusyClient, steps_left, Reach-goes_on, Run-bound}

abbrev options : PeriodicTaskOptions ℕ
options = no_options 0

-- The thread waits, and the client has set the flag.
abbrev asleep : System ℕ
asleep = record {
  worker = waiting;
  clients = flagged ∷ [];
  locked = true;
  started = true;
  shutdown = true;
  errored_out_num = 0;
  options = options;
}

asleep-Reach : Reach 1 options asleep
asleep-Reach =
    client_step
      (client_step
        (client_step
          (worker_step
            (worker_step
              (worker_step
                (worker_step (worker_step (client_step begin (start refl)) (schedule 0 refl))
                  (call false refl))
                (lock refl refl))
              (test refl))
            (wait refl))
          (call_signal_shutdown 0 refl))
        (enter 0 refl refl))
      (set_shutdown 0 refl)

Reach-goes_on_example : CanGoOn asleep ⊎ HasBusyClient asleep
Reach-goes_on_example = Reach-goes_on asleep-Reach refl (λ e. cc) (λ e. cc)

-- The client unlocks the mutex, and the thread wakes.
abbrev awake : System ℕ
awake = record asleep { worker = waking; clients = notifying ∷ []; locked = false }

asleep-Run : Run asleep 1 awake
asleep-Run = work (serve stay (unlock 0 refl)) (wake refl)

Run-bound_example : (1 + steps_left waking ≤ 7) × (1 ≤ 8) × (awake.shutdown ≡ true)
Run-bound_example = Run-bound asleep-Reach refl asleep-Run
