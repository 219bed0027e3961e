-- ===== src/SigParser/Stack.antt =====
-- The value stack is a list: what push_val and pop_val do to the array behind it.
use labcomm_core.Common.{
  ℕ, zero, suc, ◌+◌, ◌-◌, ◌≤◌, ◌<◌, ◌≡◌, refl, ap, ◌∙◌, false, List, [], ◌∷◌, arith, ltb, ◌==◌,
  length, length-set, length-drop, set, drop, Yields, yields,
}
use labcomm_core.SigParser.{SigParser, push_val, pop_val}

drop-set_self :
    {A : Type 0} (i : ℕ) (xs : List A) (e : A)
    → i < length xs
    → drop i (set xs i e) ≡ e ∷ drop (suc i) xs
drop-set_self i [] e h = absurd (omega arith)
drop-set_self zero (x ∷ xs) e h = refl
drop-set_self (suc i) (x ∷ xs) e h = drop-set_self i xs e (omega arith)

tail_of : {A : Type 0} → List A → List A
tail_of [] = []
tail_of (x ∷ xs) = xs

drop-suc : {A : Type 0} (i : ℕ) (xs : List A) → drop (suc i) xs ≡ tail_of (drop i xs)
unfolding tail_of
drop-suc zero [] = refl
drop-suc zero (x ∷ xs) = refl
drop-suc (suc i) [] = refl
drop-suc (suc i) (x ∷ xs) = drop-suc i xs

-- The array has the announced size, and `st` lies behind its free part.
pub record HasStack (st : List ℕ) (p : SigParser) : Type 0 where
  pub full : length p.val_stack ≡ p.stacksize
  pub within : p.val_top < p.stacksize
  pub stack : drop (suc p.val_top) p.val_stack ≡ st

-- All of the parser but its stack.
abbrev pub beside : SigParser → SigParser
beside p = record p { val_stack = []; val_top = 0 }

pub length-HasStack :
    {st : List ℕ} {p : SigParser} → HasStack st p → p.val_top + 1 + length st ≡ p.stacksize
length-HasStack {st} {p} h =
    omega (arith, h.full, h.within, ap length h.stack, length-drop (suc p.val_top) p.val_stack)

pub push_val-HasStack :
    (e : ℕ) (st : List ℕ) (p : SigParser)
    → HasStack st p
    → length st + 2 ≤ p.stacksize
    → Yields tt (λ p'. HasStack (e ∷ st) p' × (beside p' ≡ beside p)) (push_val e p)
unfolding push_val
push_val-HasStack e st p h room =
    let n = length-HasStack h in
    let some_room : (p.val_top == 0) ≡ false = ground arith in
    let top : suc (p.val_top - 1) ≡ p.val_top = omega arith in
    rw some_room (
      yields (
        record {
          full = length-set p.val_stack p.val_top e ∙ h.full;
          within = omega (arith, h.within);
          stack =
              ap (λ i. drop i (set p.val_stack p.val_top e)) top
              ∙ (drop-set_self p.val_top p.val_stack e (omega (arith, h.full, h.within))
                  ∙ ap (λ t. e ∷ t) h.stack);
        },
        refl,
      ))

pub pop_val-HasStack :
    (e : ℕ) (st : List ℕ) (p : SigParser)
    → HasStack (e ∷ st) p
    → Yields e (λ p'. HasStack st p' × (beside p' ≡ beside p)) (pop_val p)
unfolding pop_val tail_of
pop_val-HasStack e st p h =
    let n = length-HasStack h in
    let fits : ltb p.stacksize (p.val_top + 1) ≡ false = ground arith in
    let top : p.val_top + 1 ≡ suc p.val_top = omega arith in
    rw (fits, top, h.stack)
      (yields (
        record {
          full = h.full;
          within = omega (arith, n);
          stack = drop-suc (suc p.val_top) p.val_stack ∙ ap tail_of h.stack;
        },
        refl,
      ))
