-- ===== src/Scheduler/Order.antt =====
-- The queue of actions with a delay, scheduler_enqueue: sorted, and stable at equal times.
use labcomm_core.Common.{
  ℕ, suc, ◌≤◌, ◌<◌, ◌≡◌, inl, inr, refl, sym, ap, arith, true, false, Bool-cases, some, List, [],
  ◌∷◌, ◌++◌, pos, leb_ℤ, Yields, yields, ok, ◌==◌,
}
use mathlib.Core.Path.{subst}
use labcomm_core.Time.{Timespec, end_of_time, timespec_add_usec, timespec_compare}
use labcomm_core.Time.Order.{nanoseconds, IsNormal, timespec_add_usec-exact}
use labcomm_core.Scheduler.{
  PthreadDeferred, PthreadScheduler, Event, data_locked, allocated, clock_read, World,
  insert_delayed, enqueue_delayed, scheduler_enqueue, scheduler_data_lock, scheduler_data_unlock,
  read_clock, note_event,
}

-- A point in time that is normal and not the end of time.
abbrev pub IsPoint : Timespec → Type 0
IsPoint t = IsNormal t × (0 < nanoseconds t)

pub not_earlier :
    (t1 t2 : Timespec)
    → IsPoint t1
    → IsPoint t2
    → leb_ℤ (pos 0) (timespec_compare t1 t2) ≡ true
    → nanoseconds t2 ≤ nanoseconds t1
unfolding timespec_compare
not_earlier t1 t2 p1 p2 h = ground arith

pub earlier :
    (t1 t2 : Timespec)
    → IsPoint t1
    → IsPoint t2
    → leb_ℤ (pos 0) (timespec_compare t1 t2) ≡ false
    → nanoseconds t1 < nanoseconds t2
unfolding timespec_compare
earlier t1 t2 p1 p2 h = ground arith

pub never-end : (t : Timespec) → IsPoint t → leb_ℤ (pos 0) (timespec_compare t end_of_time) ≡ false
unfolding timespec_compare
never-end t p = ground arith

pub add_usec-IsPoint : (t : Timespec) (usec : ℕ) → 0 < usec → IsPoint (timespec_add_usec t usec)
add_usec-IsPoint t usec h =
    let (total, normal) = timespec_add_usec-exact t usec in (normal, omega (arith, total))

module _ {A : Type 0} where
  -- Every element of the list is at a point in time that is at least `n`.
  abbrev pub AllFrom : ℕ → List (PthreadDeferred A) → Type 0
  AllFrom n [] = Unit {0}
  AllFrom n (e ∷ es) = (n ≤ nanoseconds e.when) × AllFrom n es

  abbrev pub AllUpTo : ℕ → List (PthreadDeferred A) → Type 0
  AllUpTo n [] = Unit {0}
  AllUpTo n (e ∷ es) = (nanoseconds e.when ≤ n) × AllUpTo n es

  -- Points in time in ascending order.
  abbrev pub IsSorted : List (PthreadDeferred A) → Type 0
  IsSorted [] = Unit {0}
  IsSorted (e ∷ es) = IsPoint e.when × (AllFrom (nanoseconds e.when) es × IsSorted es)

  -- `queue` with `e` behind all the elements that are not later, and before all that are.
  pub record IsInserted (e : PthreadDeferred A) (old new : List (PthreadDeferred A)) : Type 0 where
    pub front : List (PthreadDeferred A)
    pub back : List (PthreadDeferred A)
    pub old_eq : old ≡ front ++ back
    pub new_eq : new ≡ front ++ (e ∷ back)
    pub front_le : AllUpTo (nanoseconds e.when) front
    pub back_gt : AllFrom (suc (nanoseconds e.when)) back

  pub AllFrom-le : (n m : ℕ) (es : List (PthreadDeferred A)) → m ≤ n → AllFrom n es → AllFrom m es
  AllFrom-le n m [] h p = tt
  AllFrom-le n m (e ∷ es) h (p, q) = (omega arith, AllFrom-le n m es h q)

  behind :
      {e x : PthreadDeferred A} {old new : List (PthreadDeferred A)}
      → nanoseconds x.when ≤ nanoseconds e.when
      → IsInserted e old new
      → IsInserted e (x ∷ old) (x ∷ new)
  behind {e} {x} h i = record {
    front = x ∷ i.front;
    back = i.back;
    old_eq = ap (λ t. x ∷ t) i.old_eq;
    new_eq = ap (λ t. x ∷ t) i.new_eq;
    front_le = (h, i.front_le);
    back_gt = i.back_gt;
  }

  pub insert_delayed-inserts :
      (e : PthreadDeferred A) (queue : List (PthreadDeferred A))
      → IsPoint e.when
      → IsSorted queue
      → (new : List (PthreadDeferred A)) × ((insert_delayed e queue ≡ some new)
          × IsInserted e queue new)
  unfolding insert_delayed
  insert_delayed-inserts e [] p s = (
    e ∷ [],
    (
      rw (never-end e.when p),
      record { front = []; back = []; old_eq = refl; new_eq = refl; front_le = tt; back_gt = tt },
    ),
  )
  insert_delayed-inserts e (x ∷ xs) p (q, (le, s)) =
      let (new, (eq, i)) = insert_delayed-inserts e xs p s in
      elim (Bool-cases (leb_ℤ (pos 0) (timespec_compare e.when x.when))) [
        | inl h ↦ (x ∷ new, (rw (h, eq), behind (not_earlier e.when x.when p q h) i))
        | inr h ↦
            let lt = earlier e.when x.when p q h in
            (
              e ∷ (x ∷ xs),
              (
                rw h,
                record {
                  front = [];
                  back = x ∷ xs;
                  old_eq = refl;
                  new_eq = refl;
                  front_le = tt;
                  back_gt =
                      (lt, AllFrom-le (nanoseconds x.when) (suc (nanoseconds e.when)) xs lt le);
                },
              ),
            )
      ]

  AllFrom-insert :
      (n : ℕ) (e : PthreadDeferred A) (front back : List (PthreadDeferred A))
      → n ≤ nanoseconds e.when
      → AllFrom n (front ++ back)
      → AllFrom n (front ++ (e ∷ back))
  AllFrom-insert n e [] back h p = (h, p)
  AllFrom-insert n e (x ∷ xs) back h (le, p) = (le, AllFrom-insert n e xs back h p)

  insert-IsSorted :
      (e : PthreadDeferred A) (front back : List (PthreadDeferred A))
      → IsPoint e.when
      → AllUpTo (nanoseconds e.when) front
      → AllFrom (suc (nanoseconds e.when)) back
      → IsSorted (front ++ back)
      → IsSorted (front ++ (e ∷ back))
  insert-IsSorted e [] back p f b s =
      (p, (AllFrom-le (suc (nanoseconds e.when)) (nanoseconds e.when) back (omega arith) b, s))
  insert-IsSorted e (x ∷ xs) back p (le, f) b (q, (all, s)) =
      (q, (AllFrom-insert (nanoseconds x.when) e xs back le all, insert-IsSorted e xs back p f b s))

  pub IsInserted-IsSorted :
      {e : PthreadDeferred A} {old new : List (PthreadDeferred A)}
      → IsPoint e.when
      → IsInserted e old new
      → IsSorted old
      → IsSorted new
  IsInserted-IsSorted {e} p i s =
      let t : IsSorted (i.front ++ i.back) = subst IsSorted i.old_eq s in
      subst IsSorted (sym i.new_eq) (insert-IsSorted e i.front i.back p i.front_le i.back_gt t)

module _ {A : Type 0} (w : World A) where
  -- Mutexes that can be taken and released, and a clock past the epoch.
  pub record IsSound : Type 0 where
    pub mutex : (log : List (Event A)) → w.data_mutex log ≡ true
    pub clock : (log : List (Event A)) → IsPoint (w.clock_gettime log)

module _ {A : Type 0} where
  -- The queues after an action has been enqueued at the time `now`.
  pub data IsEnqueued (delay : ℕ) (action : A) (now : Timespec) (old new : PthreadScheduler A)
      : Type 0 where
    at_once :
        delay ≡ 0
        → new.deferred ≡ old.deferred ++ (action ∷ [])
        → new.deferred_with_delay ≡ old.deferred_with_delay
        → IsEnqueued delay action now old new
    after :
        0 < delay
        → new.deferred ≡ old.deferred
        → IsInserted
            (record { when = timespec_add_usec now delay; action = action })
            old.deferred_with_delay
            new.deferred_with_delay
        → IsEnqueued delay action now old new

module _ {A : Type 0} (w : World A) where
  pub enqueue_delayed_lem :
      (delay : ℕ) (action : A) (s : PthreadScheduler A) (new : List (PthreadDeferred A))
      → insert_delayed
          (record { when = timespec_add_usec (w.clock_gettime s.log) delay; action = action })
          s.deferred_with_delay
        ≡ some new
      → enqueue_delayed w delay action s
        ≡ ok tt (record (note_event clock_read s) { deferred_with_delay = new })
  unfolding enqueue_delayed read_clock
  enqueue_delayed_lem delay action s new h = rw h refl

module _ {A : Type 0} (w : World A) (sound : IsSound w) where
  -- With a data mutex that works, a clock past the epoch, memory for the element and a sorted
  -- queue, scheduler_enqueue returns 0. Without a delay the action comes last in the first
  -- queue; with one it comes into the other queue at the time of now and the delay, behind
  -- every action that is not later and before every one that is. The other queue is the same,
  -- the delayed queue is sorted, and the flag of run_deferred is the same.
  pub scheduler_enqueue-enqueues :
      (delay : ℕ) (action : A) (s : PthreadScheduler A)
      → w.alloc s.log ≡ true
      → IsSorted s.deferred_with_delay
      → Yields
          (pos 0)
          (λ s'.
            IsEnqueued delay action
              (w.clock_gettime ((s.log ++ (allocated ∷ [])) ++ (data_locked ∷ [])))
              s
              s'
            × (IsSorted s'.deferred_with_delay × (s'.running_deferred ≡ s.running_deferred)))
          (scheduler_enqueue w delay action s)
  unfolding scheduler_enqueue scheduler_data_lock scheduler_data_unlock
  scheduler_enqueue-enqueues delay action s fits sorted =
      let now = w.clock_gettime ((s.log ++ (allocated ∷ [])) ++ (data_locked ∷ [])) in
      elim (Bool-cases (delay == 0)) [
        | inl z ↦
            let z' : delay ≡ 0 = ground arith in
            rw (fits, sound.mutex _, z, sound.mutex _)
              (yields (at_once z' refl refl, (sorted, refl)))
        | inr z ↦
            let p : 0 < delay = ground arith in
            let (new, (eq, i)) =
              insert_delayed-inserts
                (record { when = timespec_add_usec now delay; action = action })
                s.deferred_with_delay (add_usec-IsPoint now delay p) sorted in
            let step =
              enqueue_delayed_lem w delay action (note_event data_locked (note_event allocated s))
                new eq in
            rw (fits, sound.mutex _, z, step, sound.mutex _)
              (yields (
                after p refl i,
                (IsInserted-IsSorted (add_usec-IsPoint now delay p) i sorted, refl),
              ))
      ]
