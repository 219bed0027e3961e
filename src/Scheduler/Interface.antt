-- ===== src/Scheduler/Interface.antt =====
-- lib/c/2014/labcomm2014_scheduler.c, labcomm2014_time.c and labcomm2014_default_scheduler.c, and
-- the constructors and tables of labcomm2014_pthread_scheduler.c. A NULL pointer, to an object or
-- in a table, is `none`.
use labcomm_core.Common.{
  ℕ, ◌≡◌, Bool, false, Option, none, some, List, [], ◌∷◌, Cmd, Run, ok, ◌&&◌, arith, if◌then◌else◌,
  ℤ, pos, minus_enosys, exit, pure, ◌>>◌,
}
use labcomm_core.Time.{Timespec, timespec_add_usec}
use labcomm_core.Scheduler.{
  PthreadScheduler, World, allocated, freed, clock_read, note_event, note_call, scheduler_data_lock,
  scheduler_data_unlock, scheduler_writer_lock, scheduler_writer_unlock, scheduler_sleep,
  scheduler_wakeup, scheduler_enqueue,
}

pub record TimeAction (S T : Type 0) : Type 0 where
  pub free : Option (T → Cmd S ℤ)
  pub add_usec : Option (T → ℕ → Run T ℤ)

-- `S` is the state behind the scheduler, `T` a point in time, `A` a deferred function with its
-- context.
pub record SchedulerAction (S T A : Type 0) : Type 0 where
  pub free : Option (Cmd S ℤ)
  pub writer_lock : Option (Cmd S ℤ)
  pub writer_unlock : Option (Cmd S ℤ)
  pub data_lock : Option (Cmd S ℤ)
  pub data_unlock : Option (Cmd S ℤ)
  pub now : Option (Cmd S (Option T))
  pub sleep : Option (Option T → Cmd S ℤ)
  pub wakeup : Option (Cmd S ℤ)
  pub enqueue : Option (ℕ → A → Cmd S ℤ)

module _ {S : Type 0} where
  -- The function of a table, where there is one.
  abbrev pub call_or_enosys : Option (Cmd S ℤ) → Cmd S ℤ
  call_or_enosys none = pure minus_enosys
  call_or_enosys (some f) = f

  abbrev pub applied : {B : Type 0} → B → Option (B → Cmd S ℤ) → Option (Cmd S ℤ)
  applied b none = none
  applied b (some f) = some (f b)

  abbrev pub applied_to : {B C : Type 0} → B → C → Option (B → C → Cmd S ℤ) → Option (Cmd S ℤ)
  applied_to b c none = none
  applied_to b c (some f) = some (f b c)

  abbrev pub entry : {P : Type 0} → (P → Option (Cmd S ℤ)) → Option P → Option (Cmd S ℤ)
  entry f none = none
  entry f (some table) = f table

module _ {S T A : Type 0} where
  unfoldable pub labcomm_scheduler_free : Option (SchedulerAction S T A) → Cmd S ℤ
  labcomm_scheduler_free s = call_or_enosys (entry (λ a. a.free) s)

  unfoldable pub labcomm_scheduler_writer_lock : Option (SchedulerAction S T A) → Cmd S ℤ
  labcomm_scheduler_writer_lock s = call_or_enosys (entry (λ a. a.writer_lock) s)

  unfoldable pub labcomm_scheduler_writer_unlock : Option (SchedulerAction S T A) → Cmd S ℤ
  labcomm_scheduler_writer_unlock s = call_or_enosys (entry (λ a. a.writer_unlock) s)

  unfoldable pub labcomm_scheduler_data_lock : Option (SchedulerAction S T A) → Cmd S ℤ
  labcomm_scheduler_data_lock s = call_or_enosys (entry (λ a. a.data_lock) s)

  unfoldable pub labcomm_scheduler_data_unlock : Option (SchedulerAction S T A) → Cmd S ℤ
  labcomm_scheduler_data_unlock s = call_or_enosys (entry (λ a. a.data_unlock) s)

  unfoldable pub labcomm_scheduler_now : Option (SchedulerAction S T A) → Cmd S (Option T)
  labcomm_scheduler_now none = pure none
  labcomm_scheduler_now (some a) = elim a.now [ none ↦ pure none | some f ↦ f ]

  unfoldable pub labcomm_scheduler_sleep : Option (SchedulerAction S T A) → Option T → Cmd S ℤ
  labcomm_scheduler_sleep s time = call_or_enosys (entry (λ a. applied time a.sleep) s)

  unfoldable pub labcomm_scheduler_wakeup : Option (SchedulerAction S T A) → Cmd S ℤ
  labcomm_scheduler_wakeup s = call_or_enosys (entry (λ a. a.wakeup) s)

  unfoldable pub labcomm_scheduler_enqueue : Option (SchedulerAction S T A) → ℕ → A → Cmd S ℤ
  labcomm_scheduler_enqueue s delay func =
      call_or_enosys (entry (λ a. applied_to delay func a.enqueue) s)

  -- The scheduler that does not schedule: the locks do nothing, all else ends the process.
  unfoldable pub default_scheduler : SchedulerAction S T A
  default_scheduler = record {
    free = some exit;
    writer_lock = some (pure (pos 0));
    writer_unlock = some (pure (pos 0));
    data_lock = some (pure (pos 0));
    data_unlock = some (pure (pos 0));
    now = some exit;
    sleep = some (λ t. exit);
    wakeup = some exit;
    enqueue = some (λ delay func. exit);
  }

module _ {T S : Type 0} where
  unfoldable pub labcomm_time_free : Option (TimeAction S T) → T → Cmd S ℤ
  labcomm_time_free s t = call_or_enosys (entry (λ a. applied t a.free) s)

  unfoldable pub labcomm_time_add_usec : Option (TimeAction S T) → T → ℕ → Run T ℤ
  labcomm_time_add_usec none t usec = ok minus_enosys t
  labcomm_time_add_usec (some a) t usec = elim a.add_usec [
    | none ↦ ok minus_enosys t
    | some f ↦ f t usec
  ]

module _ {A : Type 0} (w : World A) where
  unfoldable pub time_new : Cmd (PthreadScheduler A) (Option Timespec)
  time_new s =
      if w.alloc s.log
      then (let t = note_event allocated s in
          ok (some (w.clock_gettime t.log)) (note_event clock_read t))
      else ok none s

  unfoldable pub time_free : Timespec → Cmd (PthreadScheduler A) ℤ
  time_free t = note_call freed >> pure (pos 0)

  unfoldable pub time_add_usec : Timespec → ℕ → Run Timespec ℤ
  time_add_usec t usec = ok (pos 0) (timespec_add_usec t usec)

  unfoldable pub time_action : TimeAction (PthreadScheduler A) Timespec
  time_action = record { free = some time_free; add_usec = some time_add_usec }

  unfoldable pub scheduler_free : Cmd (PthreadScheduler A) ℤ
  scheduler_free = note_call freed >> pure (pos 0)

  unfoldable pub scheduler_now : Cmd (PthreadScheduler A) (Option Timespec)
  scheduler_now = time_new

  -- The numbers of rounds bound the loops of run_deferred and of scheduler_sleep.
  unfoldable pub scheduler_action : ℕ → ℕ → SchedulerAction (PthreadScheduler A) Timespec A
  scheduler_action fuel rounds = record {
    free = some scheduler_free;
    writer_lock = some (scheduler_writer_lock w fuel);
    writer_unlock = some (scheduler_writer_unlock w fuel);
    data_lock = some (scheduler_data_lock w);
    data_unlock = some (scheduler_data_unlock w);
    now = some scheduler_now;
    sleep = some (scheduler_sleep w fuel rounds);
    wakeup = some (scheduler_wakeup w);
    enqueue = some (scheduler_enqueue w);
  }

-- What the constructor allocates or initialises.
pub data Resource : Type 0 where
  memory : Resource
  writer_mutex : Resource
  data_mutex : Resource
  data_cond : Resource

abbrev pub new_scheduler : {A : Type 0} → PthreadScheduler A
new_scheduler = record {
  wakeup = false;
  running_deferred = false;
  deferred = [];
  deferred_with_delay = [];
  log = [];
}

-- The scheduler, if any, and what is given back where there is none. `can` tells what succeeds.
unfoldable pub pthread_scheduler_new :
    {A : Type 0} → (Resource → Bool) → Option (PthreadScheduler A) × List Resource
pthread_scheduler_new can =
    if can memory
    then (if can writer_mutex
        then (if can data_mutex
            then (if can data_cond
                then (some new_scheduler, [])
                else (none, data_mutex ∷ (writer_mutex ∷ (memory ∷ []))))
            else (none, writer_mutex ∷ (memory ∷ [])))
        else (none, memory ∷ []))
    else (none, [])

-- What has been acquired of a list, each only after those before it, the last one first.
abbrev pub acquired : (Resource → Bool) → List Resource → List Resource → List Resource
acquired can got [] = got
acquired can got (r ∷ rs) = if can r then acquired can (r ∷ got) rs else got

-- Where one of the four resources of a scheduler cannot be had,
-- labcomm2014_pthread_scheduler_new returns NULL, and gives back exactly those that it has
-- acquired before, the last one first.
pub pthread_scheduler_new-releases :
    {A : Type 0} (can : Resource → Bool)
    → can memory && (can writer_mutex && (can data_mutex && can data_cond)) ≡ false
    → pthread_scheduler_new {A = A} can
      ≡ (none, acquired can [] (memory ∷ (writer_mutex ∷ (data_mutex ∷ (data_cond ∷ [])))))
unfolding pthread_scheduler_new
pthread_scheduler_new-releases can h = ground arith
