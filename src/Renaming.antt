-- ===== src/Renaming.antt =====
-- lib/c/2014/labcomm2014_renaming_registry.c and labcomm2014_renaming.c: signatures under new names,
-- shared by their users and counted.
pub mod Layers
pub mod Entries
pub mod Registry
pub mod Sharing
use labcomm_core.Common.{
  ℕ, zero, suc, ◌+◌, ◌-◌, ◌≡◌, Bool, true, false, Option, none, some, List, [], ◌∷◌, ◌++◌, ◌==◌,
  if◌then◌else◌, same_bytes, ℤ, pos, leb_ℤ, eqb_ℤ, suc_ℤ, is_zero, Cmd, Run, ok, halt, pure, exit,
  gets, modify, within, ◌>>=◌, ◌>>◌, length,
}
use labcomm_core.Signature.{
  Signature, signature, Tree, end, reference, name, index, flat, set_local_index, get_local_index,
}
use labcomm_core.SignatureArray.{SignatureArray, empty, array_ref, array_get, array_put, array_set}

-- labcomm2014_renaming_prefix; `allocated` is whether there is memory for the name.
unfoldable pub renaming_prefix : (ℕ → Bool) → List ℕ → List ℕ → Option (List ℕ)
renaming_prefix memory chars prefix =
    if memory (length chars + length prefix + 1) then some (prefix ++ chars) else none

unfoldable pub renaming_suffix : (ℕ → Bool) → List ℕ → List ℕ → Option (List ℕ)
renaming_suffix memory chars suffix = renaming_prefix memory suffix chars

-- `struct labcomm2014_renaming_rename`. A pointer to a `struct registry` is its place in the array
-- of the registry, the index of its signature.
pub record Rename : Type 0 where
  pub use_count : ℕ
  pub base : ℤ
  pub signature : Signature

-- `struct registry`, with the linked list of its renames.
pub record Entry : Type 0 where
  pub base : Option ℤ
  pub signature : Signature
  pub rename : List Rename

-- A pointer to a rename: where its base stands, and its own index.
pub record RenamePointer : Type 0 where
  pub base : ℤ
  pub own : ℤ

-- `struct labcomm2014_renaming_registry` with the static `local_index`, the data lock of its
-- scheduler, and the number of allocations that have been asked for.
pub record RenamingRegistry : Type 0 where
  pub registry : SignatureArray (Option Entry)
  pub local_index : ℤ
  pub held : Bool
  pub allocations : ℕ

abbrev pub new_registry : ℤ → RenamingRegistry
new_registry next = record { registry = empty; local_index = next; held = false; allocations = 0 }

-- The lock is not recursive: to take it while it is held blocks for ever.
unfoldable pub data_lock : Cmd RenamingRegistry (Unit {0})
data_lock r = if r.held then halt else ok tt (record r { held = true })

unfoldable pub data_unlock : Cmd RenamingRegistry (Unit {0})
data_unlock r = ok tt (record r { held = false })

unfoldable pub entry_at : ℤ → RenamingRegistry → Option Entry
entry_at i r = array_get none i r.registry

unfoldable pub set_entry : ℤ → Option Entry → Cmd RenamingRegistry (Unit {0})
set_entry i x r = ok tt (record r { registry = array_set none i x r.registry })

-- The entry that a pointer shows; a pointer to freed memory is `halt`.
abbrev pub pointed : Option Entry → Cmd RenamingRegistry Entry
pointed none r = halt
pointed (some e) r = ok e r

-- The first of the renames with a name, or with an index.
unfoldable pub find_name : List ℕ → List Rename → Option Rename
find_name chars [] = none
find_name chars (x ∷ xs) =
    let rest = find_name chars xs in if same_bytes (name x.signature) chars then some x else rest

unfoldable pub find_index : ℤ → List Rename → Option Rename
find_index i [] = none
find_index i (x ∷ xs) =
    let rest = find_index i xs in if eqb_ℤ (index x.signature) i then some x else rest

-- The list with the rename of an index counted up, counted down, or taken out.
unfoldable pub update_count : (ℕ → ℕ) → ℤ → List Rename → List Rename
update_count f i [] = []
update_count f i (x ∷ xs) =
    let rest = update_count f i xs in
    if eqb_ℤ (index x.signature) i then record x { use_count = f x.use_count } ∷ xs else x ∷ rest

unfoldable pub remove_index : ℤ → List Rename → List Rename
remove_index i [] = []
remove_index i (x ∷ xs) =
    let rest = remove_index i xs in if eqb_ℤ (index x.signature) i then xs else x ∷ rest

abbrev pub is_empty : List Rename → Bool
is_empty [] = true
is_empty (x ∷ xs) = false

abbrev pub or_own : ℤ → Option ℤ → ℤ
or_own i none = i
or_own i (some b) = b

-- The index of the base type's entry.
abbrev pub base_of : ℤ → Entry → ℤ
base_of i e = or_own i e.base

-- `can n` tells whether the allocation with number n succeeds, and `rename` is the function that
-- the caller hands over, with its context.
module _ (can : ℕ → Bool) where
  unfoldable pub allocate : Cmd RenamingRegistry Bool
  allocate r = ok (can r.allocations) (record r { allocations = r.allocations + 1 })

  unfoldable pub new_entry : Signature → Option ℤ → ℤ → Option Entry → Cmd RenamingRegistry Bool
  new_entry s base i (some e) = pure true
  new_entry s base i none = allocate >>= λ ok_memory.
      if ok_memory
      then (set_entry i (some (record { base = base; signature = s; rename = [] })) >> pure true)
      else pure false

  -- registry_new; whether there is an entry. A signature without an index ends the process.
  unfoldable pub registry_new : Signature → Option ℤ → Cmd RenamingRegistry Bool
  registry_new s base = get_local_index (some s) >>= λ i.
      if leb_ℤ i (pos 0)
      then exit
      else (modify (λ r. record r { registry = array_ref none i r.registry })
          >> (gets (entry_at i) >>= λ there. new_entry s base i there))

  unfoldable pub add_rename : ℤ → Entry → Signature → Cmd RenamingRegistry RenamePointer
  add_rename base e s =
      set_entry base (
        some (record e {
          rename = e.rename ++ (record { use_count = 1; base = base; signature = s } ∷ []);
        }))
      >> pure (record { base = base; own = index s })

  unfoldable pub create_rename : ℤ → Entry → List ℕ → Cmd RenamingRegistry (Option RenamePointer)
  create_rename base e new_name = allocate >>= λ ok_memory.
      if ok_memory
      then (within (λ r. r.local_index) (λ n r. record r { local_index = n })
            (set_local_index
              (signature new_name (pos 0) (flat e.signature) (reference e.signature end)))
          >>= λ s. registry_new s (some base) >>= λ done.
              if done then (add_rename base e s >>= λ p. pure (some p)) else pure none)
      else pure none

  unfoldable pub use_rename :
      ℤ → Entry → List ℕ → Option Rename → Cmd RenamingRegistry (Option RenamePointer)
  use_rename base e new_name none = create_rename base e new_name
  use_rename base e new_name (some x) =
      set_entry base
        (some (record e { rename = update_count (λ n. n + 1) (index x.signature) e.rename }))
      >> pure (some (record { base = base; own = index x.signature }))

  unfoldable pub rename_as :
      ℤ → Entry → Option (List ℕ) → Cmd RenamingRegistry (Option RenamePointer)
  rename_as base e none = pure none
  rename_as base e (some new_name) = use_rename base e new_name (find_name new_name e.rename)

  unfoldable pub rename_locked :
      (List ℕ → Option (List ℕ)) → Signature → Cmd RenamingRegistry (Option RenamePointer)
  rename_locked rename s = registry_new s none >>= λ done.
      if done
      then (gets (entry_at (index s)) >>= λ there. pointed there >>= λ own.
          gets (entry_at (base_of (index s) own)) >>= λ base.
          pointed base >>= λ e. rename_as (base_of (index s) own) e (rename (name s)))
      else pure none

  unfoldable pub rename_new :
      (List ℕ → Option (List ℕ)) → Signature → Cmd RenamingRegistry (Option RenamePointer)
  rename_new rename s = data_lock >> (rename_locked rename s >>= λ p. data_unlock >> pure p)

-- The use that was the last one: the rename goes, and its base with it where it was the last.
unfoldable pub drop_rename : RenamePointer → Entry → Cmd RenamingRegistry (Unit {0})
drop_rename p e =
    let left = remove_index p.own e.rename in
    set_entry p.base (some (record e { rename = left }))
    >> ((if is_empty left then set_entry (index e.signature) none else pure tt)
        >> set_entry p.own none)

-- The count falls to 0 from 1 alone; a count of 0, which would fall to -1, stays 0 here.
unfoldable pub release : RenamePointer → Entry → Option Rename → Cmd RenamingRegistry (Unit {0})
release p e none = λ r. halt
release p e (some x) =
    if x.use_count == 1
    then drop_rename p e
    else set_entry p.base (some (record e { rename = update_count (λ n. n - 1) p.own e.rename }))

unfoldable pub rename_free : RenamePointer → Cmd RenamingRegistry (Unit {0})
rename_free p =
    data_lock
    >> (gets (entry_at p.base) >>= λ there.
        pointed there >>= λ e. release p e (find_index p.own e.rename) >> data_unlock)

abbrev pub rename_of : RenamePointer → Option Entry → Option Rename
rename_of p none = none
rename_of p (some e) = find_index p.own e.rename

abbrev pub signature_of : Option Rename → Option Signature
signature_of none = none
signature_of (some x) = some x.signature

-- labcomm2014_renaming_rename_signature; `none` where the pointer shows no rename.
unfoldable pub rename_signature : RenamePointer → RenamingRegistry → Option Signature
rename_signature p r = signature_of (rename_of p (entry_at p.base r))
