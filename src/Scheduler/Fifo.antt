-- ===== src/Scheduler/Fifo.antt =====
-- run_deferred, the actions without a delay: first in, first out, children behind the rest.
use labcomm_core.Common.{
  ℕ, suc, zero, ◌+◌, ◌<◌, ◌≡◌, refl, sym, ap, ◌∙◌, arith, List, [], ◌∷◌, ◌++◌, append-nil,
  append_assoc, pos, Yields, yields, weaken, bind,
}
use mathlib.Core.Path.{subst}
use labcomm_core.Scheduler.Order.{IsSound}
use labcomm_core.Scheduler.{
  PthreadDeferred, PthreadScheduler, Event, called, data_locked, data_unlocked, writer_locked,
  writer_unlocked, allocated, freed, signalled, clock_read, World, scheduler_data_lock,
  scheduler_data_unlock, run_action, run_immediate,
}

module _ {A : Type 0} where
  abbrev called_by : Event A → List A
  called_by (called a) = a ∷ []
  called_by data_locked = []
  called_by data_unlocked = []
  called_by writer_locked = []
  called_by writer_unlocked = []
  called_by allocated = []
  called_by freed = []
  called_by signalled = []
  called_by clock_read = []

  -- The actions that were called, in order.
  abbrev pub ran : List (Event A) → List A
  ran [] = []
  ran (e ∷ es) = called_by e ++ ran es

  pub ran-append : (es fs : List (Event A)) → ran (es ++ fs) ≡ ran es ++ ran fs
  ran-append [] fs = refl
  ran-append (e ∷ es) fs =
      rw (ran-append es fs) (sym (append_assoc (called_by e) (ran es) (ran fs)))

  abbrev pub actions : List (PthreadDeferred A) → List A
  actions [] = []
  actions (e ∷ es) = e.action ∷ actions es

module _ {A : Type 0} (children : A → List A) where
  abbrev pub all_children : List A → List A
  all_children [] = []
  all_children (a ∷ more) = children a ++ all_children more

  -- First in, first out: a queue that starts with `queue` calls `out`.
  pub data IsFifo : List A → List A → Type 0 where
    finished : IsFifo [] []
    next :
        {a : A} {rest out : List A} → IsFifo (rest ++ children a) out → IsFifo (a ∷ rest) (a ∷ out)

  abbrev pub total : (A → ℕ) → List A → ℕ
  total weight [] = 0
  total weight (a ∷ more) = weight a + total weight more

-- An action puts its children at the end of the queue and changes no other field; a weight that
-- is more than that of the children shows that an action has finitely many descendants.
pub record IsTame {A : Type 0} (w : World A) (children : A → List A) (weight : A → ℕ) : Type 0 where
  pub deferred : (a : A) (s : PthreadScheduler A) → (w.act a s).deferred ≡ s.deferred ++ children a
  pub delayed :
      (a : A) (s : PthreadScheduler A) → (w.act a s).deferred_with_delay ≡ s.deferred_with_delay
  pub running : (a : A) (s : PthreadScheduler A) → (w.act a s).running_deferred ≡ s.running_deferred
  pub calls : (a : A) (s : PthreadScheduler A) → ran (w.act a s).log ≡ ran s.log
  pub finite : (a : A) → total children weight (children a) < weight a

module _ {A : Type 0} (w : World A) (children : A → List A) (weight : A → ℕ) (sound : IsSound w)
    (tame : IsTame w children weight) where
  pub record Ran (a : A) (s s' : PthreadScheduler A) : Type 0 where
    pub deferred : s'.deferred ≡ s.deferred ++ children a
    pub delayed : s'.deferred_with_delay ≡ s.deferred_with_delay
    pub running : s'.running_deferred ≡ s.running_deferred
    pub calls : ran s'.log ≡ ran s.log ++ (a ∷ [])

  total-append :
      (xs ys : List A)
      → total children weight (xs ++ ys) ≡ total children weight xs + total children weight ys
  total-append [] ys = omega arith
  total-append (a ∷ xs) ys = omega (arith, total-append xs ys)

  pub run_action-Ran :
      (a : A) (s : PthreadScheduler A) → Yields (pos 0) (Ran a s) (run_action w a s)
  unfolding run_action scheduler_data_lock scheduler_data_unlock
  run_action-Ran a s =
      rw (sound.mutex _, sound.mutex _)
        (yields record {
          deferred = tame.deferred a _;
          delayed = tame.delayed a _;
          running = tame.running a _;
          calls = simp (ran-append, tame.calls, append-nil);
        })

  pub record Emptied (q : List A) (s s' : PthreadScheduler A) : Type 0 where
    pub out : List A
    pub fifo : IsFifo children q out
    pub deferred : s'.deferred ≡ []
    pub delayed : s'.deferred_with_delay ≡ s.deferred_with_delay
    pub running : s'.running_deferred ≡ s.running_deferred
    pub calls : ran s'.log ≡ ran s.log ++ out

  pub run_immediate-Emptied :
      (fuel : ℕ) (q : List A) (s : PthreadScheduler A)
      → total children weight q < fuel
      → Yields tt (Emptied q s) (run_immediate w fuel (record s { deferred = q }))
  unfolding run_immediate
  run_immediate-Emptied zero q s h = absurd (omega arith)
  run_immediate-Emptied (suc fuel) [] s h = yields record {
    out = [];
    fifo = finished;
    deferred = refl;
    delayed = refl;
    running = refl;
    calls = sym (append-nil (ran s.log));
  }
  run_immediate-Emptied (suc fuel) (a ∷ rest) s h =
      bind _ (run_action-Ran a (record s { deferred = rest })) (λ s1 r.
        let eq = ap (total children weight) r.deferred in
        let bound : total children weight s1.deferred < fuel =
          omega (arith, eq, total-append rest (children a), tame.finite a, h) in
        weaken (run_immediate-Emptied fuel s1.deferred s1 bound) (λ s2 e. record {
          out = a ∷ e.out;
          fifo = next (subst (λ q. IsFifo children q e.out) r.deferred e.fifo);
          deferred = e.deferred;
          delayed = e.delayed ∙ r.delayed;
          running = e.running ∙ r.running;
          calls = simp (e.calls, r.calls, append_assoc);
        }))
