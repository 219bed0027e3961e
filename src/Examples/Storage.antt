-- ===== src/Examples/Storage.antt =====
-- The theorems on signature arrays and on signature trees at concrete inputs.
use labcomm_core.Common.{ℕ, ◌≡◌, ◌↔◌, true, [], ◌∷◌, arith, pos, negsuc}
use labcomm_core.Signature.{Tree, end, bytes, reference, signature_cmp}
use labcomm_core.Signature.Walk.{IsWellFormed, flat_tree, signature_cmp-flat_tree}
use labcomm_core.SignatureArray.{SignatureArray, array_get, array_set}
use labcomm_core.SignatureArray.Laws.{IsArray, array_get-array_set}
use labcomm_core.Examples.{ab}

-- Elements 10 and 11 at the indices 64 and 65.
abbrev two : SignatureArray ℕ
two = record { first = pos 64; last = pos 66; items = 10 ∷ 11 ∷ [] }

two-IsArray : IsArray ℕ two
two-IsArray = record { range = omega arith; full = omega arith }

array_get-array_set_example :
    array_get 0 (pos 64) (array_set 0 (negsuc 1) 5 two) ≡ array_get 0 (pos 64) two
array_get-array_set_example = array_get-array_set 0 5 (negsuc 1) (pos 64) two two-IsArray

-- One tree with a reference, and the same bytes in one run.
abbrev referring : Tree
referring = bytes (7 ∷ []) (reference ab (bytes (8 ∷ []) end))

abbrev run : Tree
run = bytes (7 ∷ 1 ∷ 35 ∷ 8 ∷ []) end

signature_cmp-flat_tree_example :
    (signature_cmp referring run ≡ true) ↔ (flat_tree referring ≡ flat_tree run)
unfolding flat_tree IsWellFormed
signature_cmp-flat_tree_example =
    signature_cmp-flat_tree referring run (tt, tt) tt (omega arith) (omega arith)
