-- ===== src/Examples/Scheduling.antt =====
-- The theorems on the scheduler at concrete inputs: actions are numbers, action 1 enqueues 2, and
-- the clock always shows ten seconds.
use labcomm_core.Common.{
  ℕ, ◌+◌, ◌*◌, ◌≡◌, ◌⊎◌, ◌↔◌, ◌<◌, refl, inl, inr, Bool, true, false, none, some, List, [], ◌∷◌,
  ◌++◌, arith, ◌==◌, if◌then◌else◌, Bool-cases, pos, ◌≤ℤ◌, Yields, ◌≤◌,
}
use labcomm_core.Time.{Timespec, timespec_add_usec, timespec_compare}
use labcomm_core.Time.Order.{
  nanoseconds, IsNormal, timespec_add_usec-exact, timespec_compare-order, ◌≼◌,
}
use labcomm_core.Scheduler.{
  World, PthreadScheduler, wait_until, scheduler_enqueue, scheduler_sleep, run_deferred,
  data_locked, note_event,
}
use labcomm_core.Scheduler.Order.{
  IsSound, IsSorted, IsEnqueued, AllFrom, scheduler_enqueue-enqueues,
}
use labcomm_core.Scheduler.Fifo.{IsTame, total}
use labcomm_core.Scheduler.Deferred.{HasRun, run_deferred-runs}
use labcomm_core.Scheduler.Locks.{Always, IsConsistent, Respects, enqueue, call, call-IsConsistent}
use labcomm_core.Scheduler.Sleeping.{IsAwake, wait_until-earliest, scheduler_sleep-past}
use labcomm_core.Scheduler.Interface.{
  Resource, memory, writer_mutex, data_mutex, data_cond, pthread_scheduler_new, acquired,
  pthread_scheduler_new-releases,
}

abbrev at : ℕ → ℕ → Timespec
at sec nsec = record { tv_sec = sec; tv_nsec = nsec }

abbrev then_run : ℕ → List ℕ
then_run a = if a == 1 then 2 ∷ [] else []

abbrev effort : ℕ → ℕ
effort a = if a == 1 then 2 else 1

abbrev world : World ℕ
world = record {
  data_mutex = λ log. true;
  writer_mutex = λ log. true;
  errno = λ log. 0;
  alloc = λ log. true;
  clock_gettime = λ log. at 10 0;
  act = λ a s. record s { deferred = s.deferred ++ then_run a };
  cond_wait = λ t s. s;
}

world-IsSound : IsSound world
world-IsSound = record { mutex = λ log. refl; clock = λ log. (omega arith, omega arith) }

-- Action 1 is weighed more than the action that it enqueues.
lighter : (a : ℕ) → total then_run effort (then_run a) < effort a
lighter a = elim (Bool-cases (a == 1)) [ inl h ↦ rw h (omega arith) | inr h ↦ rw h (omega arith) ]

world-IsTame : IsTame world then_run effort
world-IsTame = record {
  deferred = λ a s. refl;
  delayed = λ a s. refl;
  running = λ a s. refl;
  calls = λ a s. refl;
  finite = lighter;
}

-- Actions 1 and 3 at once, 4 at five seconds and 5 at twenty.
abbrev busy : PthreadScheduler ℕ
busy = record {
  wakeup = false;
  running_deferred = false;
  deferred = 1 ∷ (3 ∷ []);
  deferred_with_delay =
      record { when = at 5 0; action = 4 } ∷ (record { when = at 20 0; action = 5 } ∷ []);
  log = [];
}

busy-IsSorted : IsSorted busy.deferred_with_delay
busy-IsSorted =
    ((omega arith, omega arith), ((omega arith, tt), ((omega arith, omega arith), (tt, tt))))

run_deferred-runs_example : Yields (pos 0) (HasRun world then_run busy) (run_deferred world 10 busy)
run_deferred-runs_example =
    run_deferred-runs world then_run effort world-IsSound world-IsTame 10 busy refl busy-IsSorted
      (omega arith) (omega arith)

scheduler_enqueue-enqueues_example :
    Yields
      (pos 0)
      (λ s'.
        IsEnqueued 1000000 6 (at 10 0) busy s'
        × (IsSorted s'.deferred_with_delay × (s'.running_deferred ≡ false)))
      (scheduler_enqueue world 1000000 6 busy)
scheduler_enqueue-enqueues_example =
    scheduler_enqueue-enqueues world world-IsSound 1000000 6 busy refl busy-IsSorted

world-Respects : Respects world
world-Respects = record {
  sound = world-IsSound;
  act = λ a s c. record { mutex = c.mutex; sorted = c.sorted };
  wait = λ t s c. c;
}

call-IsConsistent_example : Always (IsConsistent false) (call world (enqueue 7 6) busy)
call-IsConsistent_example =
    call-IsConsistent world (enqueue 7 6) busy world-Respects
      (record { mutex = refl; sorted = busy-IsSorted })

scheduler_sleep-past_example :
    Yields
      (pos 0)
      (IsAwake world then_run (note_event data_locked busy))
      (scheduler_sleep world 10 1 (some (at 9 0)) busy)
scheduler_sleep-past_example =
    scheduler_sleep-past world then_run effort world-IsSound world-IsTame 10 1 (at 9 0) busy
      (omega arith, omega arith) (λ log. omega arith) (omega arith) refl busy-IsSorted (omega arith)
      (omega arith)

wait_until-earliest_example :
    (u : Timespec) × ((wait_until (some (at 7 0)) busy.deferred_with_delay ≡ some u)
      × (((u ≡ at 7 0) ⊎ (u ≡ at 5 0))
          × ((nanoseconds u ≤ nanoseconds (at 7 0))
              × AllFrom (nanoseconds u) busy.deferred_with_delay)))
wait_until-earliest_example =
    wait_until-earliest (at 7 0) (record { when = at 5 0; action = 4 })
      (record { when = at 20 0; action = 5 } ∷ []) (omega arith, omega arith) busy-IsSorted

timespec_add_usec-exact_example :
    (nanoseconds (timespec_add_usec (at 3 999999999) 1500000)
      ≡ nanoseconds (at 3 999999999) + 1500000 * 1000)
    × IsNormal (timespec_add_usec (at 3 999999999) 1500000)
timespec_add_usec-exact_example = timespec_add_usec-exact (at 3 999999999) 1500000

timespec_compare-order_example : (timespec_compare (at 3 5) (at 3 4) ≤ℤ pos 0) ↔ (at 3 5 ≼ at 3 4)
timespec_compare-order_example =
    timespec_compare-order (at 3 5) (at 3 4) (omega arith) (omega arith)

-- There is memory, and no data mutex.
abbrev some_resources : Resource → Bool
some_resources memory = true
some_resources writer_mutex = true
some_resources data_mutex = false
some_resources data_cond = true

pthread_scheduler_new-releases_example :
    pthread_scheduler_new {A = ℕ} some_resources
    ≡ (none, acquired some_resources [] (memory ∷ (writer_mutex ∷ (data_mutex ∷ (data_cond ∷ [])))))
pthread_scheduler_new-releases_example = pthread_scheduler_new-releases some_resources refl
