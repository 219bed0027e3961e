-- ===== src/Examples/Chains.antt =====
-- The theorem on chains of tables at a chain of two: only the second can fill.
use labcomm_core.Common.{ℕ, ◌≡◌, refl, none, some, List, [], ◌∷◌, ℤ, pos, Cmd, ok}
use labcomm_core.Chain.{ReaderTable, unwrap}
use labcomm_core.Chain.First.{unwrap-first}

abbrev counted : ℕ → Cmd (List ℕ) ℤ
counted place log = ok (pos place) (place ∷ log)

abbrev outer : ReaderTable (List ℕ) Unit ℕ Unit
outer = record {
  alloc = some counted;
  free = none;
  start = none;
  finish = none;
  fill = none;
  ioctl = none;
}

abbrev inner : ReaderTable (List ℕ) Unit ℕ Unit
inner = record outer { fill = some counted }

unwrap-first_example : unwrap (λ t. t.fill) 0 (outer ∷ inner ∷ []) [] ≡ ok (pos 1) (1 ∷ [])
unwrap-first_example =
    unwrap-first (λ (t : ReaderTable (List ℕ) Unit ℕ Unit). t.fill) (outer ∷ []) inner [] counted 0
      [] (refl, tt) refl
