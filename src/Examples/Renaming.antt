-- ===== src/Examples/Renaming.antt =====
-- The theorems on renames at concrete inputs: a signature with the index 70, renamed by a prefix.
use labcomm_core.Common.{
  ℕ, ◌≡◌, ◌∙◌, ap, refl, false, Option, none, some, List, [], ◌∷◌, ◌+◌, ok, arith, if◌then◌else◌,
  eqb_ℤ, ℤ, pos, Yields,
}
use labcomm_core.SignatureArray.{array_set, empty}
use labcomm_core.SignatureArray.Laws.{
  empty-IsArray, array_get-empty, array_get-array_set, array_set-IsArray,
}
use labcomm_core.Renaming.{
  Rename, Entry, RenamePointer, RenamingRegistry, new_registry, entry_at, rename_new, rename_free,
  rename_signature, renaming_prefix,
}
use labcomm_core.Renaming.Entries.{View, with_entry}
use labcomm_core.Renaming.Registry.{renamed, made, rename_free-rename_new}
use labcomm_core.Renaming.Sharing.{base_type, with_uses, one_more, rename_new-shared}
use labcomm_core.Renaming.Layers.{Layer, NextEncoder, set_renamed}
use labcomm_core.Renaming.Layers.Setting.{LayerView}
use labcomm_core.Renaming.Layers.Race.{rivals, set_renamed-race}
use labcomm_core.Examples.{plenty}
use labcomm_core.Examples.Parsing.{level}

abbrev prefixed : List ℕ → Option (List ℕ)
prefixed chars = renaming_prefix plenty chars (120 ∷ [])

abbrev pointer : RenamePointer
pointer = record { base = pos 70; own = pos 80 }

abbrev nothing : ℤ → Option Entry
nothing j = none

prefixed_lem : prefixed (97 ∷ []) ≡ some (120 ∷ (97 ∷ []))
unfolding renaming_prefix
prefixed_lem = refl

nothing-View : View nothing false (pos 80) (new_registry (pos 80))
unfolding entry_at
nothing-View = record {
  array = empty-IsArray;
  entries = λ j. array_get-empty none j;
  held_eq = refl;
  next_eq = refl;
}

rename_free-rename_new_example :
    Yields
      (some pointer)
      (λ r1.
        (rename_signature pointer r1 ≡ some (renamed (120 ∷ (97 ∷ [])) 80 level))
        × Yields tt (View nothing false (pos (80 + 1))) (rename_free pointer r1))
      (rename_new plenty prefixed level (new_registry (pos 80)))
rename_free-rename_new_example =
    rename_free-rename_new 70 80 (120 ∷ (97 ∷ [])) level nothing plenty prefixed
      (new_registry (pos 80)) (λ k. refl) (omega arith) (omega arith) (λ e. omega (arith, e)) refl
      refl refl prefixed_lem nothing-View

-- A registry in which the signature has two renames; the second, the shared one, has two users.
abbrev other_rename : Rename
other_rename = record {
  use_count = 1;
  base = pos 70;
  signature = renamed (121 ∷ (97 ∷ [])) 79 level;
}

abbrev shared : Rename
shared = record { use_count = 2; base = pos 70; signature = renamed (120 ∷ (97 ∷ [])) 80 level }

abbrev known : Option Entry
known = base_type level (with_uses 2 (other_rename ∷ []) shared [])

abbrev used : RenamingRegistry
used = record (new_registry (pos 81)) { registry = array_set none (pos 70) known empty }

used-View : View (with_entry (pos 70) known nothing) false (pos 81) used
unfolding entry_at
used-View = record {
  array = array_set-IsArray none (pos 70) known empty empty-IsArray;
  entries = λ j.
      array_get-array_set none known (pos 70) j empty empty-IsArray
      ∙ ap (λ t. if eqb_ℤ (pos 70) j then known else t) (array_get-empty none j);
  held_eq = refl;
  next_eq = refl;
}

rename_new-shared_example :
    Yields
      (some pointer)
      (λ r1.
        View
          (one_more 70 level shared (other_rename ∷ []) [] (with_entry (pos 70) known nothing))
          false
          (pos 81)
          r1
        × Yields tt
            (View (with_entry (pos 70) known nothing) false (pos 81))
            (rename_free pointer r1))
      (rename_new plenty prefixed level used)
rename_new-shared_example =
    rename_new-shared 70 level shared (other_rename ∷ []) [] (with_entry (pos 70) known nothing)
      (pos 81) refl ((λ e. ground (arith, e)), tt) plenty prefixed level used (λ k. refl)
      (omega arith) (omega arith) refl ((λ e. ground (arith, e)), tt) prefixed_lem used-View

-- A renaming encoder on an encoder that counts registrations.
abbrev counting : NextEncoder ℕ ℕ ℕ
counting = record {
  type_register = λ s n. ok (pos 0) n;
  type_bind = λ s b n. ok (pos 0) n;
  sample_register = λ s f n. ok (pos 0) (n + 1);
  ref_register = λ s n. ok (pos 0) n;
  encode = λ s v n. ok (pos 0) n;
  ioctl = λ s r n. ok (pos 0) n;
  sample_ref_to_index = λ r n. ok (pos 0) n;
  ref_get = λ s n. ok none n;
}

abbrev new_layer : Layer ℕ
new_layer = record {
  next = 0;
  registry = new_registry (pos 80);
  renamed = empty;
  layer_held = false;
}

new_layer-LayerView : LayerView (pos 70) none nothing (pos 80) new_layer
new_layer-LayerView = record {
  free = refl;
  array = empty-IsArray;
  element = array_get-empty none (pos 70);
  entries = nothing-View;
}

abbrev nobody : Layer ℕ → Layer ℕ
nobody l = l

-- Two other threads register the same signature meanwhile.
set_renamed-race_example :
    Yields
      (some pointer)
      (LayerView
        (pos 70)
        (some pointer)
        (made 70 80 (120 ∷ (97 ∷ [])) level nothing)
        (pos (80 + 1)))
      (set_renamed plenty prefixed (rivals plenty prefixed level 2) level new_layer)
set_renamed-race_example =
    set_renamed-race 70 80 (120 ∷ (97 ∷ [])) level nothing plenty (λ k. refl) prefixed prefixed_lem
      refl (omega arith) 2 new_layer (omega arith) (λ e. omega (arith, e)) refl refl
      new_layer-LayerView
