-- ===== src/Renaming/Registry.antt =====
-- The registry as a map from indices: a rename is made once for a name, and giving it back leaves
-- no trace.
use mathlib.Core.Path.{subst}
use labcomm_core.Common.{
  ℕ, ◌+◌, ◌<◌, ◌≡◌, ◌≢◌, refl, sym, ◌∙◌, Bool, true, false, Option, none, some, List, [], ◌∷◌,
  arith, ℤ, pos, Yields, yields, bind, weaken,
}
use labcomm_core.Signature.{
  Signature, signature, end, reference, name, index, flat, set_local_index,
}
use labcomm_core.Renaming.{
  Rename, Entry, RenamingRegistry, entry_at, find_name, find_index, remove_index, allocate,
  add_rename, create_rename, use_rename, rename_as, rename_locked, rename_new, drop_rename, release,
  rename_free, rename_signature,
}
use labcomm_core.Renaming.Entries.{
  View, with_entry, set_entry-View, data_lock-View, data_unlock-View, as_map, registry_new-View,
}

-- The signature of a rename.
abbrev pub renamed : List ℕ → ℕ → Signature → Signature
renamed chars n s = signature chars (pos n) (flat s) (reference s end)

abbrev pub first_rename : ℕ → ℕ → List ℕ → Signature → Rename
first_rename i n chars s = record { use_count = 1; base = pos i; signature = renamed chars n s }

abbrev unnamed : Signature → Entry
unnamed s = record { base = none; signature = s; rename = [] }

-- The entries after the first rename of the signature with the index `i`.
abbrev pub made : ℕ → ℕ → List ℕ → Signature → (ℤ → Option Entry) → ℤ → Option Entry
made i n chars s m =
    with_entry (pos i)
      (some (record { base = none; signature = s; rename = first_rename i n chars s ∷ [] }))
      (with_entry (pos n)
        (some (record { base = some (pos i); signature = renamed chars n s; rename = [] }))
        (with_entry (pos i) (some (unnamed s)) m))

module _ (can : ℕ → Bool) (memory : (n : ℕ) → can n ≡ true) where
  module _ (i n : ℕ) (chars : List ℕ) (s : Signature) (m : ℤ → Option Entry) (n_pos : 0 < n)
      (ne : i ≢ n) (free : m (pos n) ≡ none) where
    create_at :
        (r : RenamingRegistry)
        → View (with_entry (pos i) (some (unnamed s)) m) true (pos n) r
        → Yields
            (some (record { base = pos i; own = pos n }))
            (View (made i n chars s m) true (pos (n + 1)))
            (create_rename can (pos i) (unnamed s) chars (record r { local_index = pos n }))
    unfolding create_rename allocate set_local_index add_rename entry_at
    create_at r v =
        let m1 = with_entry (pos i) (some (unnamed s)) m in
        let m2 =
          with_entry (pos n)
            (some (record { base = some (pos i); signature = renamed chars n s; rename = [] }))
            m1 in
        let numbered : View m1 true (pos (n + 1))
            (record r { allocations = r.allocations + 1; local_index = pos (n + 1) }) =
          record { array = v.array; entries = v.entries; held_eq = v.held_eq; next_eq = refl } in
        let free' : m1 (pos n) ≡ none = ground (arith, free) in
        rw (memory r.allocations) (
          bind _
            (registry_new-View can memory (renamed chars n s) (some (pos i)) n m1 true (pos (n + 1))
              _ refl n_pos free' numbered)
            (λ r1 v1.
              bind _
                (bind _ (set_entry-View (pos i) _ m2 true (pos (n + 1)) r1 v1) (λ r2 v2. yields v2))
                (λ r3 v3. yields v3)))

    create_rename-View :
        (r : RenamingRegistry)
        → View (with_entry (pos i) (some (unnamed s)) m) true (pos n) r
        → Yields
            (some (record { base = pos i; own = pos n }))
            (View (made i n chars s m) true (pos (n + 1)))
            (create_rename can (pos i) (unnamed s) chars r)
    create_rename-View r v =
        subst
          (λ x.
            Yields (some (record { base = pos i; own = pos n }))
              (View (made i n chars s m) true (pos (n + 1)))
              (create_rename can (pos i) (unnamed s) chars (record r { local_index = x })))
          (sym v.next_eq) (create_at r v)

    pub rename_new-fresh :
        (rename : List ℕ → Option (List ℕ)) (r : RenamingRegistry)
        → index s ≡ pos i
        → 0 < i
        → m (pos i) ≡ none
        → rename (name s) ≡ some chars
        → View m false (pos n) r
        → Yields
            (some (record { base = pos i; own = pos n }))
            (View (made i n chars s m) false (pos (n + 1)))
            (rename_new can rename s r)
    unfolding rename_new rename_locked rename_as use_rename find_name
    rename_new-fresh rename r ix p fresh to v =
        let m1 = with_entry (pos i) (some (unnamed s)) m in
        let here : m1 (pos i) ≡ some (unnamed s) = ground arith in
        bind _ (data_lock-View m (pos n) r v) (λ r1 v1.
          bind _
            (bind _ (registry_new-View can memory s none i m true (pos n) r1 ix p fresh v1)
              (λ r2 v2.
                rw (ix, v2.entries (pos i) ∙ here, v2.entries (pos i) ∙ here, to)
                  (create_rename-View r2 v2)))
            (λ r3 v3.
              bind _ (data_unlock-View (made i n chars s m) true (pos (n + 1)) r3 v3)
                (λ r4 v4. yields v4)))

module _ (i n : ℕ) (chars : List ℕ) (s : Signature) (m : ℤ → Option Entry) where
  abbrev only_rename : List Rename
  only_rename = first_rename i n chars s ∷ []

  find_only : find_index (pos n) only_rename ≡ some (first_rename i n chars s)
  unfolding find_index
  find_only = ground arith

  remove_only : remove_index (pos n) only_rename ≡ []
  unfolding remove_index
  remove_only = ground arith

  abbrev only_entry : Entry
  only_entry = record { base = none; signature = s; rename = only_rename }

  release_only :
      (next : ℤ) (r : RenamingRegistry)
      → index s ≡ pos i
      → m (pos i) ≡ none
      → m (pos n) ≡ none
      → View (made i n chars s m) true next r
      → Yields tt (View m true next) (
          release
            (record { base = pos i; own = pos n })
            only_entry
            (find_index (pos n) only_rename)
            r)
  unfolding release drop_rename
  release_only next r ix no_base no_rename v =
      rw (find_only, remove_only)
        (bind _ (set_entry-View (pos i) _ (made i n chars s m) true next r v) (λ r2 v2. rw ix (
          bind _ (set_entry-View (pos i) none _ true next r2 v2) (λ r3 v3.
            weaken (set_entry-View (pos n) none _ true next r3 v3)
              (λ r4 v4. as_map (λ j. ground (arith, no_base, no_rename)) v4)))))

  pub rename_free-fresh :
      (next : ℤ) (r : RenamingRegistry)
      → index s ≡ pos i
      → m (pos i) ≡ none
      → m (pos n) ≡ none
      → View (made i n chars s m) false next r
      → Yields tt (View m false next) (rename_free (record { base = pos i; own = pos n }) r)
  unfolding rename_free entry_at
  rename_free-fresh next r ix no_base no_rename v =
      let m1 = made i n chars s m in
      let here : m1 (pos i) ≡ some only_entry = ground arith in
      bind _ (data_lock-View m1 next r v) (λ r1 v1. rw (v1.entries (pos i) ∙ here) (
        bind _ (release_only next r1 ix no_base no_rename v1)
          (λ r2 v2. data_unlock-View m true next r2 v2)))

  pub rename_signature-fresh :
      (next : ℤ) (r : RenamingRegistry)
      → View (made i n chars s m) false next r
      → rename_signature (record { base = pos i; own = pos n }) r ≡ some (renamed chars n s)
  unfolding rename_signature
  rename_signature-fresh next r v =
      let here : made i n chars s m (pos i) ≡ some only_entry = ground arith in
      rw (v.entries (pos i) ∙ here, find_only) refl

  -- With memory, the lock free, and nothing registered at the positive index of a signature and
  -- at the next free index, which is another positive one: labcomm2014_renaming_rename_new
  -- makes a rename with the next index, whose signature has the new name, the bytes of the old
  -- one, and for its tree a reference to the old one; and labcomm2014_renaming_rename_free of
  -- it leaves the registry as it was at every index, and the lock free.
  pub rename_free-rename_new :
      (can : ℕ → Bool) (rename : List ℕ → Option (List ℕ)) (r : RenamingRegistry)
      → ((k : ℕ) → can k ≡ true)
      → 0 < i
      → 0 < n
      → i ≢ n
      → index s ≡ pos i
      → m (pos i) ≡ none
      → m (pos n) ≡ none
      → rename (name s) ≡ some chars
      → View m false (pos n) r
      → Yields
          (some (record { base = pos i; own = pos n }))
          (λ r1.
            (rename_signature (record { base = pos i; own = pos n }) r1 ≡ some (renamed chars n s))
            × Yields tt
                (View m false (pos (n + 1)))
                (rename_free (record { base = pos i; own = pos n }) r1))
          (rename_new can rename s r)
  rename_free-rename_new can rename r memory p q ne ix no_base no_rename to v =
      weaken (rename_new-fresh can memory i n chars s m q ne no_rename rename r ix p no_base to v)
        (λ r1 v1. (
          rename_signature-fresh (pos (n + 1)) r1 v1,
          rename_free-fresh (pos (n + 1)) r1 ix no_base no_rename v1,
        ))
