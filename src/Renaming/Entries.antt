-- ===== src/Renaming/Entries.antt =====
-- The registry as a map from indices, and what locking, storing and registering do to it.
use labcomm_core.Common.{
  ℕ, ◌+◌, ◌<◌, ◌≡◌, refl, ap, ◌∙◌, Bool, true, false, Option, none, some, [], arith, ◌==◌,
  if◌then◌else◌, ℤ, pos, leb_ℤ, eqb_ℤ, Yields, yields, bind,
}
use labcomm_core.Signature.{Signature, index, get_local_index}
use labcomm_core.SignatureArray.{array_ref}
use labcomm_core.SignatureArray.Laws.{
  IsArray, array_get-array_set, array_get-array_ref, array_ref-IsArray, array_set-IsArray,
}
use labcomm_core.Renaming.{
  Entry, RenamingRegistry, data_lock, data_unlock, entry_at, set_entry, allocate, new_entry,
  registry_new,
}

-- The entries by index, the lock, and the next free index.
pub record View (m : ℤ → Option Entry) (held : Bool) (next : ℤ) (r : RenamingRegistry)
    : Type 0 where
  pub array : IsArray (Option Entry) r.registry
  pub entries : (j : ℤ) → entry_at j r ≡ m j
  pub held_eq : r.held ≡ held
  pub next_eq : r.local_index ≡ next

abbrev pub with_entry : ℤ → Option Entry → (ℤ → Option Entry) → ℤ → Option Entry
with_entry i x m j = if eqb_ℤ i j then x else m j

pub set_entry-View :
    (i : ℤ) (x : Option Entry) (m : ℤ → Option Entry) (held : Bool) (next : ℤ)
    (r : RenamingRegistry)
    → View m held next r
    → Yields tt (View (with_entry i x m) held next) (set_entry i x r)
unfolding set_entry entry_at
set_entry-View i x m held next r v = yields record {
  array = array_set-IsArray none i x r.registry v.array;
  entries = λ j.
      array_get-array_set none x i j r.registry v.array
      ∙ ap (λ t. if eqb_ℤ i j then x else t) (v.entries j);
  held_eq = v.held_eq;
  next_eq = v.next_eq;
}

pub data_lock-View :
    (m : ℤ → Option Entry) (next : ℤ) (r : RenamingRegistry)
    → View m false next r
    → Yields tt (View m true next) (data_lock r)
unfolding data_lock entry_at
data_lock-View m next r v =
    rw v.held_eq
      (yields record { array = v.array; entries = v.entries; held_eq = refl; next_eq = v.next_eq })

pub data_unlock-View :
    (m : ℤ → Option Entry) (held : Bool) (next : ℤ) (r : RenamingRegistry)
    → View m held next r
    → Yields tt (View m false next) (data_unlock r)
unfolding data_unlock entry_at
data_unlock-View m held next r v =
    yields record { array = v.array; entries = v.entries; held_eq = refl; next_eq = v.next_eq }

-- Entries that are the same, in another form.
pub as_map :
    {m m' : ℤ → Option Entry} {held : Bool} {next : ℤ} {r : RenamingRegistry}
    → ((j : ℤ) → m j ≡ m' j)
    → View m held next r
    → View m' held next r
as_map h v = record {
  array = v.array;
  entries = λ j. v.entries j ∙ h j;
  held_eq = v.held_eq;
  next_eq = v.next_eq;
}

module _ (can : ℕ → Bool) (memory : (n : ℕ) → can n ≡ true) where
  new_entry-View :
      (s : Signature) (base : Option ℤ) (i : ℤ) (o : Option Entry) (m : ℤ → Option Entry)
      (held : Bool) (next : ℤ) (r : RenamingRegistry)
      → o ≡ none
      → View m held next r
      → Yields true
          (View
            (with_entry i (some (record { base = base; signature = s; rename = [] })) m)
            held
            next)
          (new_entry can s base i o r)
  unfolding new_entry allocate entry_at
  new_entry-View s base i (some e) m held next r h v = absurd (cc)
  new_entry-View s base i none m held next r h v =
      let counted : View m held next (record r { allocations = r.allocations + 1 }) = record {
        array = v.array;
        entries = v.entries;
        held_eq = v.held_eq;
        next_eq = v.next_eq;
      } in
      rw (memory r.allocations)
        (bind _ (set_entry-View i _ m held next _ counted) (λ r1 v1. yields v1))

  pub registry_new-View :
      (s : Signature) (base : Option ℤ) (i : ℕ) (m : ℤ → Option Entry) (held : Bool) (next : ℤ)
      (r : RenamingRegistry)
      → index s ≡ pos i
      → 0 < i
      → m (pos i) ≡ none
      → View m held next r
      → Yields true
          (View
            (with_entry (pos i) (some (record { base = base; signature = s; rename = [] })) m)
            held
            next)
          (registry_new can s base r)
  unfolding registry_new get_local_index entry_at
  registry_new-View s base i m held next r ix p free v =
      let nz : (i == 0) ≡ false = ground arith in
      let positive : leb_ℤ (pos i) (pos 0) ≡ false = ground arith in
      let v1 : View m held next (record r { registry = array_ref none (pos i) r.registry }) =
        record {
          array = array_ref-IsArray none (pos i) r.registry v.array;
          entries = λ j. array_get-array_ref none (pos i) j r.registry v.array ∙ v.entries j;
          held_eq = v.held_eq;
          next_eq = v.next_eq;
        } in
      rw (ix, nz, positive)
        (new_entry-View s base (pos i) _ m held next _ (v1.entries (pos i) ∙ free) v1)

  pub registry_new_known :
      (s : Signature) (base : Option ℤ) (i : ℕ) (e : Entry) (m : ℤ → Option Entry) (held : Bool)
      (next : ℤ) (r : RenamingRegistry)
      → index s ≡ pos i
      → 0 < i
      → m (pos i) ≡ some e
      → View m held next r
      → Yields true (View m held next) (registry_new can s base r)
  unfolding registry_new get_local_index entry_at new_entry
  registry_new_known s base i e m held next r ix p there v =
      let nz : (i == 0) ≡ false = ground arith in
      let positive : leb_ℤ (pos i) (pos 0) ≡ false = ground arith in
      let v1 : View m held next (record r { registry = array_ref none (pos i) r.registry }) =
        record {
          array = array_ref-IsArray none (pos i) r.registry v.array;
          entries = λ j. array_get-array_ref none (pos i) j r.registry v.array ∙ v.entries j;
          held_eq = v.held_eq;
          next_eq = v.next_eq;
        } in
      rw (ix, nz, positive, v1.entries (pos i) ∙ there) (yields v1)
