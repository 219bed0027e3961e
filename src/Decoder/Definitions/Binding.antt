-- ===== src/Decoder/Definitions/Binding.antt =====
-- handle_sample_def: which of the registered samples a received definition is bound to, and what
-- the binding changes.
use mathlib.Core.List.{Memᴰ}
use labcomm_core.Common.{
  ℕ, ◌≡◌, refl, sym, ap, ◌∙◌, inl, inr, Bool, Bool-cases, Option-cases, true, false, ◌&&◌, Option,
  none, some, List, [], ◌∷◌, arith, if◌then◌else◌, same_bytes, same_bytes→eq, ℤ, pos, eqb_ℤ, Cmd,
  Yields, yields, bind,
}
use labcomm_core.Reader.{ReaderAction}
use labcomm_core.Reader.Source.{Source}
use labcomm_core.Signature.{Signature, name, flat, size}
use labcomm_core.SignatureArray.{array_get, array_set, array_items}
use labcomm_core.SignatureArray.Laws.{array_get-array_set, array_set-IsArray}
use labcomm_core.Decoder.{Decoder, nil_entry, start_end}
use labcomm_core.Decoder.Definitions.{
  Received, is_received, find_received, signatures, c_string, handle_sample_def, handle_sample_ref,
}
use labcomm_core.Decoder.Samples.Dispatch.{IsIdle, local_index_of, entry_of}

-- The definition and the signature agree in name and in flat signature.
pub record Agrees (r : Received) (s : Signature) : Type 0 where
  pub chars : List ℕ
  pub named : r.name ≡ some chars
  pub same_name : name s ≡ c_string chars
  pub same_flat : flat s ≡ r.bytes

and-true : (a b : Bool) → (a && b) ≡ true → (a ≡ true) × (b ≡ true)
and-true a b h = ground arith

-- The test of the loop says that they agree only if they do.
pub is_received-Agrees : (r : Received) (s : Signature) → is_received r s ≡ some true → Agrees r s
unfolding is_received
is_received-Agrees r s h = elim (Bool-cases (eqb_ℤ (pos (size s)) r.size)) [
  | inr other ↦ absurd (cc (rw other at h))
  | inl same ↦ elim (Option-cases r.name) [
    | inl no_name ↦ absurd (cc (rw (same, no_name) at h))
    | inr (n, e) ↦
        let both : (same_bytes (name s) (c_string n) && same_bytes (flat s) r.bytes) ≡ true =
          cc (rw (same, e) at h) in
        let (p, q) =
          and-true (same_bytes (name s) (c_string n)) (same_bytes (flat s) r.bytes) both in
        record {
          chars = n;
          named = e;
          same_name = same_bytes→eq (name s) (c_string n) p;
          same_flat = same_bytes→eq (flat s) r.bytes q;
        }
  ]
]

-- If the loop over the registered signatures stops at an index, a signature stands at that
-- index among them that has the name, up to a NUL, and the bytes of the definition.
pub find_received-Agrees :
    (r : Received) (l : ℤ) (items : List (ℤ × Option Signature))
    → find_received r items ≡ some (some l)
    → (s : Signature) × (Memᴰ (l, some s) items × Agrees r s)
unfolding find_received
find_received-Agrees r l [] h = absurd (cc h)
find_received-Agrees r l ((i, none) ∷ rest) h =
    let (s, (m, a)) = find_received-Agrees r l rest h in (s, (Memᴰ.tail m, a))
find_received-Agrees r l ((i, some s) ∷ rest) h = elim (Option-cases (is_received r s)) [
  | inl stops ↦ absurd (cc (rw (find_received, stops) at h))
  | inr (true, e) ↦
      let same : i ≡ l = cc (rw (find_received, e) at h) in
      (s, (Memᴰ.head (ap (λ t. (t, some s)) (sym same)), is_received-Agrees r s e))
  | inr (false, e) ↦
      let (t, (m, a)) = find_received-Agrees r l rest (rw (find_received, e) at h) in
      (t, (Memᴰ.tail m, a))
]

found_branch :
    {S A : Type 0} {a : A} {P : S → Type 0} {l : ℤ} (o : Option (Option ℤ)) (ends missing : Cmd S A)
    (binds : ℤ → Cmd S A) (d : S)
    → o ≡ some (some l)
    → Yields a P (binds l d)
    → Yields a P (
        (elim o as (λ x. Cmd S A) [ none ↦ ends | some none ↦ missing | some (some i) ↦ binds i ])
          d)
found_branch o ends missing binds d h p = rw h p

module _ {C V : Type 0} {act : ReaderAction C} (src : Source act) (junk : ℤ) where
  open src use {start_keeps, finish_keeps}

  -- With the lock free and the tables in order, where the loop finds a registered sample, the
  -- remote index is bound to its local index and the sample's entry gets the remote index; no
  -- other element of either table changes, the reader, its allocation and the version are the
  -- same, nothing is handled, the lock is free again, and the result is the remote index.
  pub handle_sample_def-binds :
      (i l : ℤ) (r : Received) (d : Decoder C V)
      → IsIdle d
      → find_received r (signatures (array_items d.local)) ≡ some (some l)
      → Yields i
          (λ d'.
            IsIdle d'
            × ((j : ℤ) → local_index_of j d' ≡ (if eqb_ℤ i j then l else local_index_of j d))
            × ((j : ℤ)
                → entry_of j d' ≡ (
                    if eqb_ℤ l j then record (entry_of l d) { remote_index = i } else entry_of j d))
            × (d'.reader ≡ d.reader)
            × (d'.handled ≡ d.handled)
            × (d'.version_ok ≡ d.version_ok)
            × (d'.reader_allocated ≡ d.reader_allocated))
          (handle_sample_def act junk i r d)
  unfolding handle_sample_def start_end
  handle_sample_def-binds i l r d v found =
      let same : (act.finish (act.start l i false d.reader).0).0 ≡ d.reader =
        ap (λ r. (act.finish r).0) (start_keeps l i false d.reader) ∙ finish_keeps d.reader in
      let entry = record (entry_of l d) { remote_index = i } in
      rw (v.unlocked) (
        found_branch _ _ _ _ _ found (
          yields (
            record {
              unlocked = refl;
              local_array = array_set-IsArray nil_entry l entry d.local v.local_array;
              remote_to_local_array =
                  array_set-IsArray (pos 0) i l d.remote_to_local v.remote_to_local_array;
              local_ref_array = v.local_ref_array;
              remote_to_local_ref_array = v.remote_to_local_ref_array;
            },
            λ j. array_get-array_set (pos 0) l i j d.remote_to_local v.remote_to_local_array,
            λ j. array_get-array_set nil_entry entry l j d.local v.local_array,
            same,
            refl,
            refl,
            refl,
          )))

  -- With the lock free and the tables in order, where the loop finds a registered reference,
  -- the remote index of the reference is bound to its local index and no other; the registered
  -- references, the reader and the handled values are the same, the lock is free again, and the
  -- result is the remote index.
  pub handle_sample_ref-binds :
      (i l : ℤ) (r : Received) (d : Decoder C V)
      → IsIdle d
      → find_received r (array_items d.local_ref) ≡ some (some l)
      → Yields i
          (λ d'.
            IsIdle d'
            × ((j : ℤ)
                → array_get (pos 0) j d'.remote_to_local_ref
                  ≡ (if eqb_ℤ i j then l else array_get (pos 0) j d.remote_to_local_ref))
            × (d'.local_ref ≡ d.local_ref)
            × (d'.reader ≡ d.reader)
            × (d'.handled ≡ d.handled))
          (handle_sample_ref act junk i r d)
  unfolding handle_sample_ref
  handle_sample_ref-binds i l r d v found =
      let bound : Decoder C V = record d {
        data_held = true;
        remote_to_local_ref = array_set (pos 0) i l d.remote_to_local_ref;
      } in
      rw (v.unlocked) (
        bind {P = λ d1. d1 ≡ bound} _ (found_branch _ _ _ _ _ found (yields refl)) (λ d1 e. rw e (
          yields (
            record {
              unlocked = refl;
              local_array = v.local_array;
              remote_to_local_array = v.remote_to_local_array;
              local_ref_array = v.local_ref_array;
              remote_to_local_ref_array =
                  array_set-IsArray (pos 0) i l d.remote_to_local_ref v.remote_to_local_ref_array;
            },
            λ j.
                array_get-array_set (pos 0) l i j d.remote_to_local_ref v.remote_to_local_ref_array,
            refl,
            refl,
            refl,
          ))))
