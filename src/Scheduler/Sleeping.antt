-- ===== src/Scheduler/Sleeping.antt =====
-- scheduler_sleep: when it returns, and until when it waits.
use labcomm_core.Common.{
  ℕ, suc, zero, ◌≤◌, ◌<◌, ◌≡◌, ◌⊎◌, refl, arith, true, false, Bool, Bool-cases, inl, inr, some,
  List, ◌∷◌, length, pos, ltb_ℤ, leb_ℤ, ◌||◌, Yields, yields, bind,
}
use labcomm_core.Time.{Timespec, timespec_compare}
use labcomm_core.Time.Order.{nanoseconds}
use labcomm_core.Scheduler.Order.{IsPoint, IsSound, IsSorted, AllFrom, AllFrom-le}
use labcomm_core.Scheduler.Fifo.{IsTame, total}
use labcomm_core.Scheduler.Deferred.{HasRun, run_deferred-runs}
use labcomm_core.Scheduler.{
  PthreadDeferred, PthreadScheduler, Event, data_locked, World, scheduler_data_lock,
  scheduler_data_unlock, read_clock, note_event, scheduler_sleep, sleep_loop, wait_until, is_over,
}

sooner :
    (t u : Timespec)
    → IsPoint t
    → IsPoint u
    → ltb_ℤ (timespec_compare t u) (pos 0) ≡ true
    → nanoseconds t ≤ nanoseconds u
unfolding timespec_compare
sooner t u p q h = ground arith

not_sooner :
    (t u : Timespec)
    → IsPoint t
    → IsPoint u
    → ltb_ℤ (timespec_compare t u) (pos 0) ≡ false
    → nanoseconds u ≤ nanoseconds t
unfolding timespec_compare
not_sooner t u p q h = ground arith

over :
    (t now : Timespec)
    → IsPoint t
    → IsPoint now
    → nanoseconds t ≤ nanoseconds now
    → leb_ℤ (timespec_compare t now) (pos 0) ≡ true
unfolding timespec_compare
over t now p q h = ground arith

module _ {A : Type 0} where
  -- With a time to wake up at and a sorted queue that is not empty, scheduler_sleep waits until
  -- a point in time that is the given time or that of the first delayed action, and is later
  -- than neither the given time nor the time of any delayed action.
  pub wait_until-earliest :
      (t : Timespec) (e : PthreadDeferred A) (queue : List (PthreadDeferred A))
      → IsPoint t
      → IsSorted (e ∷ queue)
      → (u : Timespec) × ((wait_until (some t) (e ∷ queue) ≡ some u)
          × (((u ≡ t) ⊎ (u ≡ e.when))
              × ((nanoseconds u ≤ nanoseconds t) × AllFrom (nanoseconds u) (e ∷ queue))))
  unfolding wait_until
  wait_until-earliest t e queue p (q, (le, o)) =
      elim (Bool-cases (ltb_ℤ (timespec_compare t e.when) (pos 0))) [
        | inl h ↦
            let n = sooner t e.when p q h in
            (
              t,
              (
                rw h refl,
                (
                  inl refl,
                  (omega arith, (n, AllFrom-le (nanoseconds e.when) (nanoseconds t) queue n le)),
                ),
              ),
            )
        | inr h ↦ (e.when, (rw h refl, (inr refl, (not_sooner t e.when p q h, (omega arith, le)))))
      ]

or_true : (b c : Bool) → c ≡ true → (b || c) ≡ true
or_true b c h = ground arith

module _ {A : Type 0} (w : World A) (children : A → List A) where
  -- The deferred actions have been run, and nothing else has changed but that the flag is clear.
  pub record IsAwake (s s' : PthreadScheduler A) : Type 0 where
    pub cleared : s'.wakeup ≡ false
    pub ran : PthreadScheduler A
    pub has_run : HasRun w children s ran
    pub deferred : s'.deferred ≡ ran.deferred
    pub delayed : s'.deferred_with_delay ≡ ran.deferred_with_delay

module _ {A : Type 0} (w : World A) (children : A → List A) (weight : A → ℕ) (sound : IsSound w)
    (tame : IsTame w children weight) where
  -- With a data mutex that works, a clock that is past the epoch and not before the given time,
  -- a sorted queue, no run of deferred actions under way, and actions with finitely many
  -- descendants, scheduler_sleep returns 0 after one round: it has run the deferred actions and
  -- cleared `wakeup`.
  pub scheduler_sleep-past :
      (fuel rounds : ℕ) (t : Timespec) (s : PthreadScheduler A)
      → IsPoint t
      → ((log : List (Event A)) → nanoseconds t ≤ nanoseconds (w.clock_gettime log))
      → 0 < rounds
      → s.running_deferred ≡ false
      → IsSorted s.deferred_with_delay
      → total children weight s.deferred < fuel
      → length s.deferred_with_delay < fuel
      → Yields
          (pos 0)
          (IsAwake w children (note_event data_locked s))
          (scheduler_sleep w fuel rounds (some t) s)
  unfolding scheduler_sleep sleep_loop scheduler_data_lock scheduler_data_unlock read_clock is_over
  scheduler_sleep-past fuel zero t s p past r idle sorted enough long = absurd (omega arith)
  scheduler_sleep-past fuel (suc rounds) t s p past r idle sorted enough long =
      let started : PthreadScheduler A = note_event data_locked s in
      let inner : Yields tt (IsAwake w children started)
          (sleep_loop w fuel (suc rounds) (some t) started) =
        bind _ (run_deferred-runs w children weight sound tame fuel started idle sorted enough long)
          (λ s1 r.
            let h = over t (w.clock_gettime s1.log) p (sound.clock s1.log) (past s1.log) in
            rw (or_true s1.wakeup _ h) (
              yields record {
                cleared = refl;
                ran = s1;
                has_run = r;
                deferred = refl;
                delayed = refl;
              })) in
      rw (sound.mutex _) (
        bind _ inner (λ s2 a. rw (sound.mutex _) (
          yields record {
            cleared = a.cleared;
            ran = a.ran;
            has_run = a.has_run;
            deferred = a.deferred;
            delayed = a.delayed;
          })))
