-- ===== src/Chain/First.antt =====
-- A call through a chain of tables reaches the first that has the function, and no other.
use labcomm_core.Common.{
  ℕ, ◌+◌, ◌≡◌, refl, ap, ◌∙◌, Option, none, some, List, [], ◌∷◌, ◌++◌, arith, All, ℤ, minus_enosys,
  Cmd, ok, length,
}
use labcomm_core.Chain.{unwrap}

module _ {S L : Type 0} (func : L → Option (ℕ → Cmd S ℤ)) where
  -- Where the tables from a place on in a chain begin with some without the function, and the
  -- next one has it, the call is that table's function, called with that table's place; the
  -- tables behind it do not matter.
  pub unwrap-first :
      (skipped : List L) (table : L) (rest : List L) (f : ℕ → Cmd S ℤ) (place : ℕ) (s : S)
      → All (λ t. func t ≡ none) skipped
      → func table ≡ some f
      → unwrap func place (skipped ++ (table ∷ rest)) s ≡ f (place + length skipped) s
  unfolding unwrap
  unwrap-first [] table rest f place s all h =
      let z : place + 0 ≡ place = omega arith in rw (h, z) refl
  unwrap-first (x ∷ []) table rest f place s (no_x, all) h = rw (no_x, h) refl
  unwrap-first (x ∷ (y ∷ ys)) table rest f place s (no_x, all) h =
      let e : place + 1 + length (y ∷ ys) ≡ place + length (x ∷ (y ∷ ys)) = omega arith in
      rw no_x (unwrap-first (y ∷ ys) table rest f (place + 1) s all h ∙ ap (λ n. f n s) e)

  -- Where no table of a chain has the function, the call is refused.
  pub unwrap_refused :
      (table : L) (rest : List L) (place : ℕ) (s : S)
      → All (λ t. func t ≡ none) (table ∷ rest)
      → unwrap func place (table ∷ rest) s ≡ ok minus_enosys s
  unfolding unwrap
  unwrap_refused table [] place s (no_table, all) = rw no_table refl
  unwrap_refused table (x ∷ xs) place s (no_table, all) =
      rw no_table (unwrap_refused x xs (place + 1) s all)
