-- ===== src/Common/Commands.antt =====
-- Stateful code that may end the process or loop.
-- `halt` is an `exit(1)` or the use of a NULL pointer. `out_of_fuel` is no outcome of the code:
-- a loop of the model had too few rounds.
use mathlib.Core.Path.{◌≡◌}
use mathlib.Core.Bool.{Bool, true}
use labcomm_core.Common.Tests.{if◌then◌else◌}

pub data Run (S A : Type 0) : Type 0 where
  ok : A → S → Run S A
  halt : Run S A
  out_of_fuel : Run S A

abbrev pub Cmd : Type 0 → Type 0 → Type 0
Cmd S A = S → Run S A

module _ {S : Type 0} where
  abbrev pub pure : {A : Type 0} → A → Cmd S A
  pure = ok

  abbrev pub and_then : {A B : Type 0} → Run S A → (A → Cmd S B) → Run S B
  and_then (ok a s) k = k a s
  and_then halt k = halt
  and_then out_of_fuel k = out_of_fuel

  infixl 5 ◌>>=◌ ◌>>◌
  abbrev pub ◌>>=◌ : {A B : Type 0} → Cmd S A → (A → Cmd S B) → Cmd S B
  m >>= k = λ s. and_then (m s) k

  abbrev pub ◌>>◌ : {A B : Type 0} → Cmd S A → Cmd S B → Cmd S B
  m >> k = m >>= λ _. k

  abbrev pub gets : {A : Type 0} → (S → A) → Cmd S A
  gets f s = ok (f s) s

  abbrev pub modify : (S → S) → Cmd S (Unit {0})
  modify f s = ok tt (f s)

  abbrev pub exit : {A : Type 0} → Cmd S A
  exit s = halt

-- Go on with the state that a run ended in, in another kind of state.
abbrev pub on_end : {S T A B : Type 0} → Run S A → (S → Run T B) → Run T B
on_end (ok a s) k = k s
on_end halt k = halt
on_end out_of_fuel k = out_of_fuel

abbrev pub put_back : {S T A : Type 0} → Run T A → (T → S) → Run S A
put_back (ok a t) f = ok a (f t)
put_back halt f = halt
put_back out_of_fuel f = out_of_fuel

-- A command on a part of the state.
abbrev pub within : {S T A : Type 0} → (S → T) → (T → S → S) → Cmd T A → Cmd S A
within view put m s = put_back (m (view s)) (λ t. put t s)

-- The run ends, without `halt` and within its fuel, returns `a`, and leaves a state with `P`.
pub data Yields {S A : Type 0} (a : A) (P : S → Type 0) : Run S A → Type 0 where
  yields : {s : S} → P s → Yields a P (ok a s)

module _ {S A : Type 0} {a : A} {P : S → Type 0} where
  pub bind :
      {B : Type 0} {b : B} {Q : S → Type 0} {r : Run S A} (k : A → Cmd S B)
      → Yields a P r
      → ((s : S) → P s → Yields b Q (k a s))
      → Yields b Q (and_then r k)
  bind k (yields p) next = next _ p

  pub weaken : {Q : S → Type 0} {r : Run S A} → Yields a P r → ((s : S) → P s → Q s) → Yields a Q r
  weaken (yields p) f = yields (f _ p)

-- A run that ends in a known state, whatever the form in which its result is given.
pub returned : {S A : Type 0} {a b : A} {P : S → Type 0} (s : S) → a ≡ b → P s → Yields b P (ok a s)
returned s e p = rw e (yields p)

-- The branch of a test whose outcome is known.
pub then_branch :
    {S A : Type 0} {a : A} {P : S → Type 0} {b : Bool} (x y : Cmd S A) (s : S)
    → b ≡ true
    → Yields a P (x s)
    → Yields a P ((if b then x else y) s)
then_branch x y s h p = rw h p
