-- ===== src/Scheduler/Locks.antt =====
-- The data mutex and the order of the delayed queue, over every operation of the scheduler.
use labcomm_core.Common.{
  ℕ, suc, zero, ◌≡◌, refl, ap, ◌∙◌, arith, true, false, Bool, Bool-cases, inl, inr, Option, none,
  some, List, [], ◌∷◌, ◌++◌, ℤ, if◌then◌else◌, Run, Cmd, ok, halt, out_of_fuel, and_then, modify,
  ◌<◌, ◌==◌,
}
use labcomm_core.Time.{Timespec, timespec_add_usec}
use labcomm_core.Scheduler.Order.{
  IsSound, IsSorted, IsInserted-IsSorted, insert_delayed-inserts, enqueue_delayed_lem,
  add_usec-IsPoint,
}
use labcomm_core.Scheduler.{
  PthreadDeferred, PthreadScheduler, Event, called, data_locked, data_unlocked, writer_locked,
  writer_unlocked, allocated, freed, signalled, clock_read, World, scheduler_data_lock,
  scheduler_data_unlock, read_clock, note_event, run_action, run_immediate, run_due, run_delayed,
  run_deferred, scheduler_writer_lock, scheduler_writer_unlock, scheduler_wakeup, scheduler_sleep,
  sleep_loop, scheduler_enqueue, enqueue_delayed,
}

-- Whatever a run does, it leaves a state with `P` where it leaves one.
pub data Always {S A : Type 0} (P : S → Type 0) : Run S A → Type 0 where
  leaves : {a : A} {s : S} → P s → Always P (ok a s)
  halts : Always P halt
  unfinished : Always P out_of_fuel

module _ {S A : Type 0} {P : S → Type 0} where
  after :
      {B : Type 0} {Q : S → Type 0} {r : Run S A} (k : A → Cmd S B)
      → Always P r
      → ((a : A) (s : S) → P s → Always Q (k a s))
      → Always Q (and_then r k)
  after k (leaves p) next = next _ _ p
  after k halts next = halts
  after k unfinished next = unfinished

  either : (b : Bool) {x y : Run S A} → Always P x → Always P y → Always P (if b then x else y)
  either true p q = p
  either false p q = q

module _ {A : Type 0} where
  -- The data mutex is not taken twice, not released when free, and free when an action runs.
  abbrev pub next_held : Bool → Event A → Option Bool
  next_held true data_locked = none
  next_held false data_locked = some true
  next_held true data_unlocked = some false
  next_held false data_unlocked = none
  next_held true (called a) = none
  next_held false (called a) = some false
  next_held b writer_locked = some b
  next_held b writer_unlocked = some b
  next_held b allocated = some b
  next_held b freed = some b
  next_held b signalled = some b
  next_held b clock_read = some b

  abbrev pub held_by : Option Bool → List (Event A) → Option Bool
  held_by none es = none
  held_by (some b) [] = some b
  held_by (some b) (e ∷ es) = held_by (next_held b e) es

  held_by-append :
      (b : Option Bool) (es fs : List (Event A)) → held_by b (es ++ fs) ≡ held_by (held_by b es) fs
  held_by-append none es fs = refl
  held_by-append (some b) [] fs = refl
  held_by-append (some b) (e ∷ es) fs = held_by-append (next_held b e) es fs

  -- From the start the mutex has been taken and released in turn, and is held now, or is not; the
  -- delayed queue is sorted.
  pub record IsConsistent (held : Bool) (s : PthreadScheduler A) : Type 0 where
    pub mutex : held_by (some false) s.log ≡ some held
    pub sorted : IsSorted s.deferred_with_delay

-- What an action and a wait leave is consistent again.
pub record Respects {A : Type 0} (w : World A) : Type 0 where
  pub sound : IsSound w
  pub act : (a : A) (s : PthreadScheduler A) → IsConsistent false s → IsConsistent false (w.act a s)
  pub wait :
      (t : Option Timespec) (s : PthreadScheduler A)
      → IsConsistent true s
      → IsConsistent true (w.cond_wait t s)

module _ {A : Type 0} (w : World A) (fair : Respects w) where
  noted :
      (b c : Bool) (e : Event A) (s : PthreadScheduler A)
      → next_held b e ≡ some c
      → IsConsistent b s
      → IsConsistent c (note_event e s)
  noted b c e s h i = record {
    mutex =
        held_by-append (some false) s.log (e ∷ [])
        ∙ (ap (λ o. held_by o (e ∷ [])) i.mutex ∙ ap (λ o. held_by {A = A} o []) h);
    sorted = i.sorted;
  }

  lock_keeps :
      (s : PthreadScheduler A)
      → IsConsistent false s
      → Always (IsConsistent true) (scheduler_data_lock w s)
  unfolding scheduler_data_lock
  lock_keeps s i = either _ (leaves (noted false true data_locked s refl i)) halts

  unlock_keeps :
      (s : PthreadScheduler A)
      → IsConsistent true s
      → Always (IsConsistent false) (scheduler_data_unlock w s)
  unfolding scheduler_data_unlock
  unlock_keeps s i = either _ (leaves (noted true false data_unlocked s refl i)) halts

  run_action_keeps :
      (a : A) (s : PthreadScheduler A)
      → IsConsistent true s
      → Always (IsConsistent true) (run_action w a s)
  unfolding run_action
  run_action_keeps a s i = after _ (unlock_keeps s i) (λ _ s1 i1.
      after _
        (lock_keeps _
          (noted false false freed _ refl (fair.act a _ (noted false false (called a) s1 refl i1))))
        (λ _ s2 i2. leaves i2))

  run_immediate_keeps :
      (fuel : ℕ) (q : List A) (s : PthreadScheduler A)
      → IsConsistent true s
      → Always (IsConsistent true) (run_immediate w fuel (record s { deferred = q }))
  unfolding run_immediate
  run_immediate_keeps zero q s i = unfinished
  run_immediate_keeps (suc fuel) [] s i = leaves record { mutex = i.mutex; sorted = i.sorted }
  run_immediate_keeps (suc fuel) (a ∷ rest) s i =
      after _
        (run_action_keeps a (record s { deferred = rest })
          record { mutex = i.mutex; sorted = i.sorted })
        (λ _ s1 i1. run_immediate_keeps fuel s1.deferred s1 i1)

  run_due_keeps :
      (fuel : ℕ) (now : Timespec) (q : List (PthreadDeferred A)) (s : PthreadScheduler A)
      → held_by (some false) s.log ≡ some true
      → IsSorted q
      → Always (IsConsistent true) (run_due w fuel now (record s { deferred_with_delay = q }))
  unfolding run_due
  run_due_keeps zero now q s m o = unfinished
  run_due_keeps (suc fuel) now [] s m o = either _ halts (leaves record { mutex = m; sorted = o })
  run_due_keeps (suc fuel) now (x ∷ rest) s m (p, (le, o)) =
      either _
        (after _
          (run_action_keeps x.action (record s { deferred_with_delay = rest })
            record { mutex = m; sorted = o })
          (λ _ s1 i1. run_due_keeps fuel now s1.deferred_with_delay s1 i1.mutex i1.sorted))
        (leaves record { mutex = m; sorted = (p, (le, o)) })

  run_delayed_keeps :
      (fuel : ℕ) (q : List (PthreadDeferred A)) (s : PthreadScheduler A)
      → held_by (some false) s.log ≡ some true
      → IsSorted q
      → Always (IsConsistent true) (run_delayed w fuel (record s { deferred_with_delay = q }))
  unfolding run_delayed read_clock
  run_delayed_keeps fuel [] s m o = leaves record { mutex = m; sorted = o }
  run_delayed_keeps fuel (x ∷ rest) s m o =
      let noted_it =
        noted true true clock_read (record s { deferred_with_delay = x ∷ rest }) refl
          record { mutex = m; sorted = o } in
      run_due_keeps fuel (w.clock_gettime s.log) (x ∷ rest) (note_event clock_read s) noted_it.mutex
        o

  run_deferred_keeps :
      (fuel : ℕ) (s : PthreadScheduler A)
      → IsConsistent true s
      → Always (IsConsistent true) (run_deferred w fuel s)
  unfolding run_deferred
  run_deferred_keeps fuel s i = either _ (leaves i) (
      after _
        (run_immediate_keeps fuel s.deferred (record s { running_deferred = true })
          record { mutex = i.mutex; sorted = i.sorted })
        (λ _ s1 i1.
          after _ (run_delayed_keeps fuel s1.deferred_with_delay s1 i1.mutex i1.sorted)
            (λ _ s2 i2. leaves record { mutex = i2.mutex; sorted = i2.sorted })))

  enqueue_delayed_keeps :
      (delay : ℕ) (action : A) (s : PthreadScheduler A)
      → 0 < delay
      → IsConsistent true s
      → Always (IsConsistent true) (enqueue_delayed w delay action s)
  enqueue_delayed_keeps delay action s h i =
      let now = w.clock_gettime s.log in
      let e : PthreadDeferred A = record { when = timespec_add_usec now delay; action = action } in
      let p = add_usec-IsPoint now delay h in
      let (new, (eq, inserted)) = insert_delayed-inserts e s.deferred_with_delay p i.sorted in
      let n = noted true true clock_read s refl i in
      rw (enqueue_delayed_lem w delay action s new eq)
        (leaves record { mutex = n.mutex; sorted = IsInserted-IsSorted p inserted i.sorted })

  queued :
      (delay : ℕ) (action : A) (s : PthreadScheduler A)
      → IsConsistent true s
      → Always (IsConsistent true) (
          (if delay == 0
              then modify (λ s. record s { deferred = s.deferred ++ (action ∷ []) })
              else enqueue_delayed w delay action)
            s)
  queued delay action s i = elim (Bool-cases (delay == 0)) [
    | inl z ↦ rw z (leaves record { mutex = i.mutex; sorted = i.sorted })
    | inr z ↦ rw z (enqueue_delayed_keeps delay action s (ground arith) i)
  ]

  sleep_loop_keeps :
      (fuel rounds : ℕ) (time : Option Timespec) (s : PthreadScheduler A)
      → IsConsistent true s
      → Always (IsConsistent true) (sleep_loop w fuel rounds time s)
  unfolding sleep_loop read_clock
  sleep_loop_keeps fuel zero time s i = unfinished
  sleep_loop_keeps fuel (suc rounds) time s i = after _ (run_deferred_keeps fuel s i) (λ _ s1 i1.
      let i2 = noted true true clock_read s1 refl i1 in
      either _ (leaves record { mutex = i2.mutex; sorted = i2.sorted })
        (sleep_loop_keeps fuel rounds time _ (fair.wait _ _ i2)))

-- The calls of the scheduler's functions by a program.
pub data Call (A : Type 0) : Type 0 where
  writer_lock : ℕ → Call A
  writer_unlock : ℕ → Call A
  sleep : ℕ → ℕ → Option Timespec → Call A
  wakeup : Call A
  enqueue : ℕ → A → Call A

module _ {A : Type 0} (w : World A) where
  abbrev pub call : Call A → Cmd (PthreadScheduler A) ℤ
  call (writer_lock fuel) = scheduler_writer_lock w fuel
  call (writer_unlock fuel) = scheduler_writer_unlock w fuel
  call (sleep fuel rounds time) = scheduler_sleep w fuel rounds time
  call wakeup = scheduler_wakeup w
  call (enqueue delay action) = scheduler_enqueue w delay action

  -- Where actions and waits leave the scheduler consistent, and with a data mutex that works
  -- and a clock past the epoch, every operation, writer_lock, writer_unlock, sleep, wakeup or
  -- enqueue, whether or not the writer mutex and memory can be had and however many rounds its
  -- loops get, leaves it consistent where it returns: no call took the data mutex while it was
  -- held, released it while it was free, or called an action while it was held, at the end it
  -- is free, and the delayed queue is sorted.
  pub call-IsConsistent :
      (c : Call A) (s : PthreadScheduler A)
      → Respects w
      → IsConsistent false s
      → Always (IsConsistent false) (call c s)
  unfolding scheduler_writer_lock scheduler_writer_unlock scheduler_sleep scheduler_wakeup
      scheduler_enqueue
  call-IsConsistent (writer_lock fuel) s fair i = after _ (lock_keeps w fair s i) (λ _ s1 i1.
      after _ (run_deferred_keeps w fair fuel s1 i1) (λ _ s2 i2.
        after _ (unlock_keeps w fair s2 i2) (λ _ s3 i3.
          either _ (leaves (noted w fair false false writer_locked s3 refl i3)) (leaves i3))))
  call-IsConsistent (writer_unlock fuel) s fair i =
      either _
        (after _ (lock_keeps w fair _ (noted w fair false false writer_unlocked s refl i))
          (λ _ s1 i1.
            after _ (run_deferred_keeps w fair fuel s1 i1)
              (λ _ s2 i2. after _ (unlock_keeps w fair s2 i2) (λ _ s3 i3. leaves i3))))
        (leaves i)
  call-IsConsistent (sleep fuel rounds time) s fair i = after _ (lock_keeps w fair s i) (λ _ s1 i1.
      after _ (sleep_loop_keeps w fair fuel rounds time s1 i1)
        (λ _ s2 i2. after _ (unlock_keeps w fair s2 i2) (λ _ s3 i3. leaves i3)))
  call-IsConsistent wakeup s fair i = after _ (lock_keeps w fair s i) (λ _ s1 i1.
      let i2 =
        noted w fair true true signalled (record s1 { wakeup = true }) refl
          record { mutex = i1.mutex; sorted = i1.sorted } in
      after _ (unlock_keeps w fair _ i2) (λ _ s3 i3. leaves i3))
  call-IsConsistent (enqueue delay action) s fair i =
      either _
        (after _ (lock_keeps w fair _ (noted w fair false false allocated s refl i)) (λ _ s1 i1.
          after _ (queued w fair delay action s1 i1) (λ _ s2 i2.
            after _ (unlock_keeps w fair _ (noted w fair true true signalled s2 refl i2))
              (λ _ s3 i3. leaves i3))))
        (leaves i)
