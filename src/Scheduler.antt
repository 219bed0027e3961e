-- ===== src/Scheduler.antt =====
-- lib/c/2014/labcomm2014_pthread_scheduler.c: deferred actions, run now or after a delay.
-- A circular queue with a sentinel is a list. `log` holds the calls that leave the file, the
-- oldest first; what they return is a function of the calls before them, in a World.
pub mod Order
pub mod Fifo
pub mod Deferred
pub mod Locks
pub mod Sleeping
pub mod Interface
use labcomm_core.Common.{
  ℕ, zero, suc, ◌≡◌, Bool, true, false, Option, none, some, List, [], ◌∷◌, ◌++◌, Cmd, Run, ok, halt,
  out_of_fuel, pure, and_then, ◌>>=◌, ◌>>◌, gets, modify, exit, if◌then◌else◌, ◌==◌, ◌&&◌, ◌||◌,
  ltb_ℤ, leb_ℤ, is_zero, not, ℤ, pos, negsuc, minus_enomem,
}
use labcomm_core.Time.{Timespec, end_of_time, timespec_add_usec, timespec_compare}

-- The calls of the functions of pthread.h and time.h, of an action, and of the memory manager.
pub data Event (A : Type 0) : Type 0 where
  data_locked : Event A
  data_unlocked : Event A
  writer_locked : Event A
  writer_unlocked : Event A
  called : A → Event A
  allocated : Event A
  freed : Event A
  signalled : Event A
  clock_read : Event A

-- An action stands for the function and its context. The field `when` is not set, and not read,
-- in the queue of actions without a delay, which is a list of actions.
pub record PthreadDeferred (A : Type 0) : Type 0 where
  pub when : Timespec
  pub action : A

pub record PthreadScheduler (A : Type 0) : Type 0 where
  pub wakeup : Bool
  pub running_deferred : Bool
  pub deferred : List A
  pub deferred_with_delay : List (PthreadDeferred A)
  pub log : List (Event A)

-- The code that is not in the file: whether the mutexes can be taken and released, `errno`, the
-- memory manager, the clock, what an action does to the scheduler, and what other threads do to
-- it in a wait that ends at the given time, if any.
pub record World (A : Type 0) : Type 0 where
  pub data_mutex : List (Event A) → Bool
  pub writer_mutex : List (Event A) → Bool
  pub errno : List (Event A) → ℕ
  pub alloc : List (Event A) → Bool
  pub clock_gettime : List (Event A) → Timespec
  pub act : A → PthreadScheduler A → PthreadScheduler A
  pub cond_wait : Option Timespec → PthreadScheduler A → PthreadScheduler A

-- `-n`
abbrev pub minus : ℕ → ℤ
minus zero = pos 0
minus (suc n) = negsuc n

unfoldable pub is_over : Option Timespec → Timespec → Bool
is_over none now = false
is_over (some t) now = leb_ℤ (timespec_compare t now) (pos 0)

abbrev pub put_before : {X : Type 0} → X → Option (List X) → Option (List X)
put_before x none = none
put_before x (some xs) = some (x ∷ xs)

module _ {A : Type 0} where
  -- The point in time that the wait ends at: `time` or that of the first delayed action.
  unfoldable pub wait_until : Option Timespec → List (PthreadDeferred A) → Option Timespec
  wait_until time [] = time
  wait_until none (first ∷ rest) = some first.when
  wait_until (some t) (first ∷ rest) =
      if ltb_ℤ (timespec_compare t first.when) (pos 0) then some t else some first.when

  -- Before the first element that is later. At the sentinel the loop ends, unless the new
  -- element carries the end of time: then it goes round for ever.
  unfoldable pub insert_delayed :
      PthreadDeferred A → List (PthreadDeferred A) → Option (List (PthreadDeferred A))
  insert_delayed element [] =
      if leb_ℤ (pos 0) (timespec_compare element.when end_of_time)
      then none
      else some (element ∷ [])
  insert_delayed element (first ∷ rest) =
      if leb_ℤ (pos 0) (timespec_compare element.when first.when)
      then put_before first (insert_delayed element rest)
      else some (element ∷ (first ∷ rest))

  abbrev pub note_event : Event A → PthreadScheduler A → PthreadScheduler A
  note_event e s = record s { log = s.log ++ (e ∷ []) }

  abbrev pub note_call : Event A → Cmd (PthreadScheduler A) (Unit {0})
  note_call e = modify (note_event e)

  abbrev pub put_queue : Option (List (PthreadDeferred A)) → Cmd (PthreadScheduler A) (Unit {0})
  put_queue none s = out_of_fuel
  put_queue (some queue) s = ok tt (record s { deferred_with_delay = queue })

module _ {A : Type 0} (w : World A) where
  unfoldable pub scheduler_data_lock : Cmd (PthreadScheduler A) ℤ
  scheduler_data_lock s = if w.data_mutex s.log then ok (pos 0) (note_event data_locked s) else halt

  unfoldable pub scheduler_data_unlock : Cmd (PthreadScheduler A) ℤ
  scheduler_data_unlock s =
      if w.data_mutex s.log then ok (pos 0) (note_event data_unlocked s) else halt

  unfoldable pub read_clock : Cmd (PthreadScheduler A) Timespec
  read_clock s = ok (w.clock_gettime s.log) (note_event clock_read s)

  -- The element has been taken out of its queue.
  unfoldable pub run_action : A → Cmd (PthreadScheduler A) ℤ
  run_action action =
      scheduler_data_unlock
      >> (note_call (called action)
          >> (modify (w.act action) >> (note_call freed >> (scheduler_data_lock >> pure (pos 0)))))

  -- The queue of actions without a delay, until it is empty.
  unfoldable pub run_immediate : ℕ → Cmd (PthreadScheduler A) (Unit {0})
  run_immediate zero s = out_of_fuel
  run_immediate (suc fuel) s = elim s.deferred [
    | [] ↦ ok tt s
    | action ∷ rest ↦ (run_action action >> run_immediate fuel) (record s { deferred = rest })
  ]

  -- The queue of actions with a delay, as far as they are due. The sentinel cannot be run.
  unfoldable pub run_due : ℕ → Timespec → Cmd (PthreadScheduler A) (Unit {0})
  run_due zero now s = out_of_fuel
  run_due (suc fuel) now s = elim s.deferred_with_delay [
    | [] ↦ if leb_ℤ (timespec_compare end_of_time now) (pos 0) then halt else ok tt s
    | element ∷ rest ↦
        let run =
          (run_action element.action >> run_due fuel now)
            (record s { deferred_with_delay = rest }) in
        if leb_ℤ (timespec_compare element.when now) (pos 0) then run else ok tt s
  ]

  unfoldable pub run_delayed : ℕ → Cmd (PthreadScheduler A) (Unit {0})
  run_delayed fuel s = elim s.deferred_with_delay [
    | [] ↦ ok tt s
    | _ ∷ _ ↦ (read_clock >>= run_due fuel) s
  ]

  unfoldable pub run_deferred : ℕ → Cmd (PthreadScheduler A) ℤ
  run_deferred fuel s =
      if s.running_deferred
      then ok (pos 0) s
      else (modify (λ s. record s { running_deferred = true })
            >> (run_immediate fuel
                >> (run_delayed fuel
                    >> (modify (λ s. record s { running_deferred = false }) >> pure (pos 0)))))
          s

  unfoldable pub scheduler_writer_lock : ℕ → Cmd (PthreadScheduler A) ℤ
  scheduler_writer_lock fuel =
      scheduler_data_lock
      >> (run_deferred fuel
          >> (scheduler_data_unlock >> (λ s.
              if w.writer_mutex s.log
              then ok (pos 0) (note_event writer_locked s)
              else ok (minus (w.errno s.log)) s)))

  unfoldable pub scheduler_writer_unlock : ℕ → Cmd (PthreadScheduler A) ℤ
  scheduler_writer_unlock fuel s =
      if w.writer_mutex s.log
      then (note_call writer_unlocked
            >> (scheduler_data_lock
                >> (run_deferred fuel >> (scheduler_data_unlock >> pure (pos 0)))))
          s
      else ok (minus (w.errno s.log)) s

  unfoldable pub sleep_loop : ℕ → ℕ → Option Timespec → Cmd (PthreadScheduler A) (Unit {0})
  sleep_loop fuel zero time = λ s. out_of_fuel
  sleep_loop fuel (suc rounds) time =
      run_deferred fuel
      >> (read_clock >>= λ now s.
          let again =
            sleep_loop fuel rounds time (w.cond_wait (wait_until time s.deferred_with_delay) s) in
          if s.wakeup || is_over time now then ok tt (record s { wakeup = false }) else again)

  unfoldable pub scheduler_sleep : ℕ → ℕ → Option Timespec → Cmd (PthreadScheduler A) ℤ
  scheduler_sleep fuel rounds time =
      scheduler_data_lock
      >> (sleep_loop fuel rounds time >> (scheduler_data_unlock >> pure (pos 0)))

  unfoldable pub scheduler_wakeup : Cmd (PthreadScheduler A) ℤ
  scheduler_wakeup =
      scheduler_data_lock
      >> (modify (λ s. record s { wakeup = true })
          >> (note_call signalled >> (scheduler_data_unlock >> pure (pos 0))))

  unfoldable pub enqueue_delayed : ℕ → A → Cmd (PthreadScheduler A) (Unit {0})
  enqueue_delayed delay action = read_clock >>= λ now s.
      let element : PthreadDeferred A = record {
        when = timespec_add_usec now delay;
        action = action;
      } in
      put_queue (insert_delayed element s.deferred_with_delay) s

  unfoldable pub scheduler_enqueue : ℕ → A → Cmd (PthreadScheduler A) ℤ
  scheduler_enqueue delay action s =
      if w.alloc s.log
      then (note_call allocated
            >> (scheduler_data_lock
                >> ((if delay == 0
                      then modify (λ s. record s { deferred = s.deferred ++ (action ∷ []) })
                      else enqueue_delayed delay action)
                    >> (note_call signalled >> (scheduler_data_unlock >> pure (pos 0))))))
          s
      else ok minus_enomem s
