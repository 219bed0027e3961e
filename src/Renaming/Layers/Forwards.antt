-- ===== src/Renaming/Layers/Forwards.antt =====
-- What the renaming encoder hands on.
use mathlib.Core.Path.{subst}
use labcomm_core.Common.{
  ℕ, ◌+◌, ◌<◌, ◌≡◌, ◌≢◌, refl, sym, ◌∙◌, Bool, true, false, Option, none, some, List, ℤ, pos,
  minus_einval, ok, Yields,
}
use labcomm_core.Signature.{Signature, name, index}
use labcomm_core.SignatureArray.{array_get}
use labcomm_core.SignatureArray.Laws.{IsArray}
use labcomm_core.Renaming.{Entry, RenamePointer, RenamingRegistry, rename_signature}
use labcomm_core.Renaming.Entries.{View}
use labcomm_core.Renaming.Registry.{made, renamed, rename_new-fresh}
use labcomm_core.Renaming.Layers.{
  Layer, NextEncoder, followed, set_renamed, layer_encode, encode_renamed,
}
use labcomm_core.Renaming.Layers.Setting.{
  put_back-Yields, get_renamed_lem, LayerView, install_own, set_renamed-step,
}

module _ {N : Type 0} where
  module _ (can : ℕ → Bool) (rename : List ℕ → Option (List ℕ)) (others : Layer N → Layer N)
      {F V : Type 0} (ops : NextEncoder N F V) where
    pub layer_encode-forwards :
        (s t : Signature) (v : V) (i : ℕ) (p : RenamePointer) (b : ℤ) (Q : N → Type 0) (l : Layer N)
        → index s ≡ pos i
        → 0 < i
        → l.layer_held ≡ false
        → array_get none (pos i) l.renamed ≡ some p
        → rename_signature p l.registry ≡ some t
        → Yields b Q (ops.encode t v l.next)
        → Yields b
            (λ l'. (n : N) × (Q n × (l' ≡ record l { next = n })))
            (layer_encode can rename others ops s v l)
    unfolding layer_encode encode_renamed followed
    layer_encode-forwards s t v i p b Q l ix q free there sig run =
        rw (get_renamed_lem s i (some p) l ix q free there, sig) (put_back-Yields _ run)

    pub layer_encode-unregistered :
        (s : Signature) (v : V) (i : ℕ) (l : Layer N)
        → index s ≡ pos i
        → 0 < i
        → l.layer_held ≡ false
        → array_get none (pos i) l.renamed ≡ none
        → layer_encode can rename others ops s v l ≡ ok minus_einval l
    unfolding layer_encode encode_renamed
    layer_encode-unregistered s v i l ix q free there =
        rw (get_renamed_lem s i none l ix q free there) refl

abbrev pub pointer_to : ℕ → ℕ → RenamePointer
pointer_to i n = record { base = pos i; own = pos n }

-- What other threads do leaves the lock, the registry, and a NULL at index `i` as they are.
pub record Others {N : Type 0} (i : ℤ) (others : Layer N → Layer N) : Type 0 where
  pub lock : (l : Layer N) → (others l).layer_held ≡ l.layer_held
  pub registry : (l : Layer N) → (others l).registry ≡ l.registry
  pub array :
      (l : Layer N)
      → IsArray (Option RenamePointer) l.renamed
      → IsArray (Option RenamePointer) (others l).renamed
  pub element :
      (l : Layer N)
      → IsArray (Option RenamePointer) l.renamed
      → array_get none i l.renamed ≡ none
      → array_get none i (others l).renamed ≡ none

module _ {N : Type 0} (i n : ℕ) (chars : List ℕ) (s : Signature) (m : ℤ → Option Entry)
    (ix : index s ≡ pos i) (no_base : m (pos i) ≡ none) (no_rename : m (pos n) ≡ none) where
  module _ (can : ℕ → Bool) (memory : (k : ℕ) → can k ≡ true) (rename : List ℕ → Option (List ℕ))
      (to : rename (name s) ≡ some chars) (others : Layer N → Layer N) (i_pos : 0 < i)
      (n_pos : 0 < n) (ne : i ≢ n) where
    -- The layer once a rename has been made and other threads have run.
    settled :
        (r : RenamingRegistry) (next : ℤ) (l : Layer N)
        → Others (pos i) others
        → LayerView (pos i) none m next l
        → View (made i n chars s m) false (pos (n + 1)) r
        → LayerView
            (pos i)
            none
            (made i n chars s m)
            (pos (n + 1))
            (others (record l { registry = r }))
    settled r next l q v w =
        let l1 = record l { registry = r } in
        record {
          free = q.lock l1 ∙ v.free;
          array = q.array l1 v.array;
          element = q.element l1 v.array v.element;
          entries = subst (View (made i n chars s m) false (pos (n + 1))) (sym (q.registry l1)) w;
        }

    pub set_renamed-fresh :
        (l : Layer N)
        → Others (pos i) others
        → LayerView (pos i) none m (pos n) l
        → Yields
            (some (pointer_to i n))
            (LayerView (pos i) (some (pointer_to i n)) (made i n chars s m) (pos (n + 1)))
            (set_renamed can rename others s l)
    set_renamed-fresh l h v =
        set_renamed-step can rename i s ix i_pos others (pointer_to i n) m (made i n chars s m)
          (pos n) (pos (n + 1)) _ _ l v
          (rename_new-fresh can memory i n chars s m n_pos ne no_rename rename l.registry ix i_pos
            no_base to v.entries)
          (λ r w. install_own i (pointer_to i n) _ _ _ (settled r (pos n) l h v w))
