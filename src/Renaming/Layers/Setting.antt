-- ===== src/Renaming/Layers/Setting.antt =====
-- set_renamed of the renaming encoder and decoder: the rename that is kept for a signature.
use mathlib.Core.Path.{subst}
use labcomm_core.Common.{
  ℕ, ◌<◌, ◌≡◌, refl, sym, ap, ◌∙◌, Bool, true, false, Option, none, some, List, arith, ◌==◌,
  if◌then◌else◌, ℤ, pos, eqb_ℤ, Cmd, Run, ok, put_back, Yields, yields, bind,
}
use labcomm_core.Signature.{Signature, index, get_local_index}
use labcomm_core.SignatureArray.{array_get, array_ref}
use labcomm_core.SignatureArray.Laws.{
  IsArray, array_get-array_ref, array_get-put_ref, array_ref-IsArray, array_put-IsArray,
}
use labcomm_core.Renaming.{Entry, RenamePointer, RenamingRegistry, rename_new, rename_free}
use labcomm_core.Renaming.Entries.{View}
use labcomm_core.Renaming.Layers.{Layer, get_renamed, keep, install, set_if_none, set_renamed}

-- A run on a part of the state, put back.
pub put_back-Yields :
    {S T A : Type 0} {a : A} {P : T → Type 0} {r : Run T A} (f : T → S)
    → Yields a P r
    → Yields a (λ s. (t : T) × (P t × (s ≡ f t))) (put_back r f)
put_back-Yields f (yields p) = yields (_, (p, refl))

module _ {N : Type 0} where
  get_renamed_at :
      (s : Signature) (i : ℕ) (p : Option RenamePointer) (l : Layer N)
      → index s ≡ pos i
      → 0 < i
      → array_get none (pos i) l.renamed ≡ p
      → get_renamed s (record l { layer_held = false }) ≡ ok p (record l { layer_held = false })
  unfolding get_renamed get_local_index
  get_renamed_at s i p l ix q there =
      let nz : (i == 0) ≡ false = ground arith in rw (ix, nz, there) refl

  pub get_renamed_lem :
      (s : Signature) (i : ℕ) (p : Option RenamePointer) (l : Layer N)
      → index s ≡ pos i
      → 0 < i
      → l.layer_held ≡ false
      → array_get none (pos i) l.renamed ≡ p
      → get_renamed s l ≡ ok p l
  get_renamed_lem s i p l ix q free there =
      subst (λ b. get_renamed s (record l { layer_held = b }) ≡ ok p (record l { layer_held = b }))
        (sym free) (get_renamed_at s i p l ix q there)

-- A layer with a free lock, whose registry has the entries `m`, and with `o` for index `i`.
pub record LayerView {N : Type 0} (i : ℤ) (o : Option RenamePointer) (m : ℤ → Option Entry)
    (next : ℤ) (l : Layer N) : Type 0 where
  pub free : l.layer_held ≡ false
  pub array : IsArray (Option RenamePointer) l.renamed
  pub element : array_get none i l.renamed ≡ o
  pub entries : View m false next l.registry

-- A lock that is free.
module _ {N A : Type 0} {a : A} {Q : Layer N → Type 0} where
  unlocked :
      (c : Cmd (Layer N) A) (l : Layer N)
      → l.layer_held ≡ false
      → Yields a Q (c (record l { layer_held = false }))
      → Yields a Q (c l)
  unlocked c l free y = subst (λ b. Yields a Q (c (record l { layer_held = b }))) (sym free) y

module _ {N : Type 0} (i : ℕ) (p : RenamePointer) (m : ℤ → Option Entry) (next : ℤ) where
  pub install_there :
      (q : RenamePointer) (m' : ℤ → Option Entry) (l : Layer N)
      → LayerView (pos i) (some q) m next l
      → Yields tt (View m' false next) (rename_free p l.registry)
      → Yields (some q) (LayerView (pos i) (some q) m' next) (install (pos i) (some p) l)
  unfolding install keep
  install_there q m' l v given_back =
      let same = array_get-array_ref none (pos i) (pos i) l.renamed v.array in
      unlocked (install (pos i) (some p)) l v.free (
        rw (same ∙ v.element) (
          bind _ (put_back-Yields _ given_back) (λ l2 (t, (w, e)). rw e (
            yields record {
              free = refl;
              array = array_ref-IsArray none (pos i) l.renamed v.array;
              element = same ∙ v.element;
              entries = w;
            }))))

  pub install_own :
      (l : Layer N)
      → LayerView (pos i) none m next l
      → Yields (some p) (LayerView (pos i) (some p) m next) (install (pos i) (some p) l)
  unfolding install keep
  install_own l v =
      let same = array_get-array_ref none (pos i) (pos i) l.renamed v.array in
      let here : eqb_ℤ (pos i) (pos i) ≡ true = ground arith in
      unlocked (install (pos i) (some p)) l v.free (
        rw (same ∙ v.element) (
          yields record {
            free = refl;
            array =
                array_put-IsArray (pos i) (some p) (array_ref none (pos i) l.renamed)
                  (array_ref-IsArray none (pos i) l.renamed v.array);
            element =
                array_get-put_ref none (some p) (pos i) (pos i) l.renamed v.array
                ∙ ap (λ b. if b then some p else array_get none (pos i) l.renamed) here;
            entries = v.entries;
          }))

module _ {N : Type 0} (can : ℕ → Bool) (rename : List ℕ → Option (List ℕ)) (i : ℕ) (s : Signature)
    (ix : index s ≡ pos i) (i_pos : 0 < i) where
  -- set_renamed, where the signature has none yet: a new one, and what is done with it.
  pub set_renamed-step :
      (others : Layer N → Layer N) (p : RenamePointer) (m m' : ℤ → Option Entry) (next next' : ℤ)
      (b : Option RenamePointer) (Q : Layer N → Type 0) (l : Layer N)
      → LayerView (pos i) none m next l
      → Yields (some p) (View m' false next') (rename_new can rename s l.registry)
      → ((r : RenamingRegistry)
          → View m' false next' r
          → Yields b Q (install (pos i) (some p) (others (record l { registry = r }))))
      → Yields b Q (set_renamed can rename others s l)
  unfolding set_renamed set_if_none get_local_index
  set_renamed-step others p m m' next next' b Q l v new install_it =
      let nz : (i == 0) ≡ false = ground arith in
      rw (get_renamed_lem s i none l ix i_pos v.free v.element, ix, nz)
        (bind _ (put_back-Yields _ new) (λ l1 (r, (w, e)). rw e (install_it r w)))

  -- Where it has one, that is the result.
  pub set_renamed-known :
      (others : Layer N → Layer N) (p : RenamePointer) (m : ℤ → Option Entry) (next : ℤ)
      (l : Layer N)
      → LayerView (pos i) (some p) m next l
      → Yields (some p) (LayerView (pos i) (some p) m next) (set_renamed can rename others s l)
  unfolding set_renamed set_if_none
  set_renamed-known others p m next l v =
      rw (get_renamed_lem s i (some p) l ix i_pos v.free v.element) (yields v)
