-- ===== src/Scheduler/Deferred.antt =====
-- run_deferred: which actions are run, and in which order.
-- Actions may enqueue actions without a delay, their children.
use labcomm_core.Common.{
  ℕ, suc, zero, ◌≤◌, ◌<◌, ◌≡◌, refl, sym, ap, ◌∙◌, arith, true, false, Bool-cases, inl, inr, List,
  [], ◌∷◌, ◌++◌, append-nil, append_assoc, length, pos, leb_ℤ, Yields, yields, weaken, bind,
}
use mathlib.Core.Path.{subst}
use labcomm_core.Time.{Timespec, end_of_time, timespec_compare}
use labcomm_core.Time.Order.{nanoseconds}
use labcomm_core.Scheduler.Order.{IsPoint, IsSound, IsSorted, AllFrom, AllUpTo, AllFrom-le}
use labcomm_core.Scheduler.{
  PthreadDeferred, PthreadScheduler, Event, clock_read, World, read_clock, note_event, run_due,
  run_delayed, run_deferred,
}
use labcomm_core.Scheduler.Fifo.{
  ran, ran-append, actions, all_children, IsFifo, total, IsTame, run_action-Ran,
  run_immediate-Emptied,
}

never_due :
    (now : Timespec) → IsPoint now → leb_ℤ (timespec_compare end_of_time now) (pos 0) ≡ false
unfolding timespec_compare
never_due now p = ground arith

due :
    (t now : Timespec)
    → IsPoint t
    → IsPoint now
    → leb_ℤ (timespec_compare t now) (pos 0) ≡ true
    → nanoseconds t ≤ nanoseconds now
unfolding timespec_compare
due t now p q h = ground arith

not_due :
    (t now : Timespec)
    → IsPoint t
    → IsPoint now
    → leb_ℤ (timespec_compare t now) (pos 0) ≡ false
    → nanoseconds now < nanoseconds t
unfolding timespec_compare
not_due t now p q h = ground arith

module _ {A : Type 0} (w : World A) (children : A → List A) where
  -- What run_deferred has done: `first` are the actions without a delay and their descendants,
  -- `due` the delayed ones whose time has come when the clock is read behind them.
  pub record HasRun (s s' : PthreadScheduler A) : Type 0 where
    pub first : List A
    pub fifo : IsFifo children s.deferred first
    pub read : List (Event A)
    pub read_calls : ran read ≡ ran s.log ++ first
    pub due : List (PthreadDeferred A)
    pub back : List (PthreadDeferred A)
    pub split : s.deferred_with_delay ≡ due ++ back
    pub due_le : AllUpTo (nanoseconds (w.clock_gettime read)) due
    pub back_gt : AllFrom (suc (nanoseconds (w.clock_gettime read))) back
    pub calls : ran s'.log ≡ ran s.log ++ (first ++ actions due)
    pub deferred : s'.deferred ≡ all_children children (actions due)
    pub delayed : s'.deferred_with_delay ≡ back
    pub idle : s'.running_deferred ≡ false

module _ {A : Type 0} (w : World A) (children : A → List A) (weight : A → ℕ) (sound : IsSound w)
    (tame : IsTame w children weight) where
  -- The delayed actions that are due at `now`, a prefix of the sorted queue, have been called.
  record Called (now : Timespec) (q : List (PthreadDeferred A)) (s s' : PthreadScheduler A)
      : Type 0 where
    due : List (PthreadDeferred A)
    back : List (PthreadDeferred A)
    split : q ≡ due ++ back
    due_le : AllUpTo (nanoseconds now) due
    back_gt : AllFrom (suc (nanoseconds now)) back
    deferred : s'.deferred ≡ s.deferred ++ all_children children (actions due)
    delayed : s'.deferred_with_delay ≡ back
    running : s'.running_deferred ≡ s.running_deferred
    calls : ran s'.log ≡ ran s.log ++ actions due

  run_due-Called :
      (fuel : ℕ) (now : Timespec) (q : List (PthreadDeferred A)) (s : PthreadScheduler A)
      → length q < fuel
      → IsPoint now
      → IsSorted q
      → Yields tt (Called now q s) (run_due w fuel now (record s { deferred_with_delay = q }))
  unfolding run_due
  run_due-Called zero now q s h p o = absurd (omega arith)
  run_due-Called (suc fuel) now [] s h p o = rw (never_due now p) (
      yields record {
        due = [];
        back = [];
        split = refl;
        due_le = tt;
        back_gt = tt;
        deferred = sym (append-nil s.deferred);
        delayed = refl;
        running = refl;
        calls = sym (append-nil (ran s.log));
      })
  run_due-Called (suc fuel) now (x ∷ rest) s h p (m, (le, o)) =
      elim (Bool-cases (leb_ℤ (timespec_compare x.when now) (pos 0))) [
        | inl d ↦ rw d (
            bind _
              (run_action-Ran w children weight sound tame x.action
                (record s { deferred_with_delay = rest }))
              (λ s1 r.
                let eq = sym r.delayed in
                let bound : length s1.deferred_with_delay < fuel =
                  subst (λ q. length q < fuel) eq (omega (arith, h)) in
                weaken
                  (run_due-Called fuel now s1.deferred_with_delay s1 bound p (subst IsSorted eq o))
                  (λ s2 c. record {
                    due = x ∷ c.due;
                    back = c.back;
                    split = ap (λ t. x ∷ t) (eq ∙ c.split);
                    due_le = (due x.when now m p d, c.due_le);
                    back_gt = c.back_gt;
                    deferred = simp (c.deferred, r.deferred, append_assoc);
                    delayed = c.delayed;
                    running = c.running ∙ r.running;
                    calls = simp (c.calls, r.calls, append_assoc);
                  })))
        | inr d ↦
            let gt = not_due x.when now m p d in
            rw d (
              yields record {
                due = [];
                back = x ∷ rest;
                split = refl;
                due_le = tt;
                back_gt = (gt, AllFrom-le (nanoseconds x.when) (suc (nanoseconds now)) rest gt le);
                deferred = sym (append-nil s.deferred);
                delayed = refl;
                running = refl;
                calls = sym (append-nil (ran s.log));
              })
      ]

  run_delayed-Called :
      (fuel : ℕ) (q : List (PthreadDeferred A)) (s : PthreadScheduler A)
      → length q < fuel
      → IsSorted q
      → Yields tt
          (Called (w.clock_gettime s.log) q s)
          (run_delayed w fuel (record s { deferred_with_delay = q }))
  unfolding run_delayed read_clock
  run_delayed-Called fuel [] s h o = yields record {
    due = [];
    back = [];
    split = refl;
    due_le = tt;
    back_gt = tt;
    deferred = sym (append-nil s.deferred);
    delayed = refl;
    running = refl;
    calls = sym (append-nil (ran s.log));
  }
  run_delayed-Called fuel (x ∷ rest) s h o =
      weaken
        (run_due-Called fuel (w.clock_gettime s.log) (x ∷ rest) (note_event clock_read s) h
          (sound.clock s.log) o)
        (λ s' c. record {
          due = c.due;
          back = c.back;
          split = c.split;
          due_le = c.due_le;
          back_gt = c.back_gt;
          deferred = c.deferred;
          delayed = c.delayed;
          running = c.running;
          calls = simp (c.calls, ran-append, append-nil);
        })

  -- With a data mutex that works, a clock past the epoch and a sorted queue of delayed actions,
  -- and where actions enqueue only actions without a delay, with finitely many descendants:
  -- run_deferred ends, within as many rounds as the weights of the waiting actions and the
  -- length of the delayed queue call for. It has called the actions without a delay and all
  -- their descendants in the order in which they were enqueued, then, of the delayed ones, in
  -- order, exactly those whose time has come when the clock is read behind the first; the later
  -- ones are still queued, and so are the descendants of the delayed ones. The flag is clear
  -- again.
  pub run_deferred-runs :
      (fuel : ℕ) (s : PthreadScheduler A)
      → s.running_deferred ≡ false
      → IsSorted s.deferred_with_delay
      → total children weight s.deferred < fuel
      → length s.deferred_with_delay < fuel
      → Yields (pos 0) (HasRun w children s) (run_deferred w fuel s)
  unfolding run_deferred
  run_deferred-runs fuel s idle sorted enough long =
      let started : PthreadScheduler A = record s { running_deferred = true } in
      rw idle (
        bind _ (run_immediate-Emptied w children weight sound tame fuel s.deferred started enough)
          (λ s1 e.
            let eq = sym e.delayed in
            bind _
              (run_delayed-Called fuel s1.deferred_with_delay s1
                (subst (λ q. length q < fuel) eq long) (subst IsSorted eq sorted))
              (λ s2 c. yields record {
                first = e.out;
                fifo = e.fifo;
                read = s1.log;
                read_calls = e.calls;
                due = c.due;
                back = c.back;
                split = eq ∙ c.split;
                due_le = c.due_le;
                back_gt = c.back_gt;
                calls = simp (c.calls, e.calls, append_assoc);
                deferred = simp (c.deferred, e.deferred);
                delayed = c.delayed;
                idle = refl;
              })))
