-- ===== src/Renaming/Sharing.antt =====
-- A rename that has users already: one more, and one less.
use labcomm_core.Common.{
  ℕ, ◌+◌, ◌-◌, ◌<◌, ◌≡◌, ◌≢◌, refl, sym, ap, ◌∙◌, Bool, true, false, Bool-cases, inl, inr, Option,
  none, some, List, [], ◌∷◌, ◌++◌, arith, ◌==◌, All, same_bytes, same_bytes→eq, same_bytes_refl,
  eqb_ℤ→eq, eqb_ℤ-refl, ℤ, pos, eqb_ℤ, Yields, yields, bind, weaken,
}
use labcomm_core.Signature.{Signature, name, index}
use labcomm_core.Renaming.{
  Rename, Entry, RenamePointer, RenamingRegistry, entry_at, find_name, find_index, update_count,
  use_rename, rename_as, rename_locked, rename_new, release, rename_free,
}
use labcomm_core.Renaming.Entries.{
  View, with_entry, set_entry-View, data_lock-View, data_unlock-View, as_map, registry_new_known,
}

-- A list with one more rename in the middle, that has `n` uses.
abbrev pub with_uses : ℕ → List Rename → Rename → List Rename → List Rename
with_uses n before x after = before ++ (record x { use_count = n } ∷ after)

differs : (xs ys : List ℕ) → xs ≢ ys → same_bytes xs ys ≡ false
differs xs ys h = elim (Bool-cases (same_bytes xs ys)) [
  | inl t ↦ absurd (h (same_bytes→eq xs ys t))
  | inr f ↦ f
]

find_name-skips :
    (before after : List Rename) (x : Rename)
    → All (λ y. name y.signature ≢ name x.signature) before
    → find_name (name x.signature) (before ++ (x ∷ after)) ≡ some x
unfolding find_name
find_name-skips [] after x h = rw (same_bytes_refl (name x.signature)) refl
find_name-skips (y ∷ ys) after x (h, hs) =
    rw (differs (name y.signature) (name x.signature) h) (find_name-skips ys after x hs)

other_index : (a b : ℤ) → a ≢ b → eqb_ℤ a b ≡ false
other_index a b h = elim (Bool-cases (eqb_ℤ a b)) [
  | inl t ↦ absurd (h (eqb_ℤ→eq a b t))
  | inr f ↦ f
]

find_index-skips :
    (before after : List Rename) (x : Rename)
    → All (λ y. index y.signature ≢ index x.signature) before
    → find_index (index x.signature) (before ++ (x ∷ after)) ≡ some x
unfolding find_index
find_index-skips [] after x h = rw (eqb_ℤ-refl (index x.signature)) refl
find_index-skips (y ∷ ys) after x (h, hs) =
    rw (other_index (index y.signature) (index x.signature) h) (find_index-skips ys after x hs)

update_count-skips :
    (f : ℕ → ℕ) (before after : List Rename) (x : Rename)
    → All (λ y. index y.signature ≢ index x.signature) before
    → update_count f (index x.signature) (before ++ (x ∷ after))
      ≡ with_uses (f x.use_count) before x after
unfolding update_count
update_count-skips f [] after x h = rw (eqb_ℤ-refl (index x.signature)) refl
update_count-skips f (y ∷ ys) after x (h, hs) =
    rw (other_index (index y.signature) (index x.signature) h)
      (ap (λ t. y ∷ t) (update_count-skips f ys after x hs))

abbrev pub base_type : Signature → List Rename → Option Entry
base_type t renames = some (record { base = none; signature = t; rename = renames })

abbrev pub pointer_at : ℕ → Rename → RenamePointer
pointer_at i x = record { base = pos i; own = index x.signature }

-- What was stored at an index before.
with_entry-back :
    (i : ℤ) (x y : Option Entry) (m : ℤ → Option Entry) (j : ℤ)
    → m i ≡ x
    → with_entry i x (with_entry i y m) j ≡ m j
with_entry-back i x y m j h = elim (Bool-cases (eqb_ℤ i j)) [
  | inl t ↦ rw t (sym h ∙ ap m (eqb_ℤ→eq i j t))
  | inr f ↦ rw f refl
]

-- The entries, where a rename has one more use.
abbrev pub one_more :
    ℕ → Signature → Rename → List Rename → List Rename → (ℤ → Option Entry) → ℤ → Option Entry
one_more i t x before after m =
    with_entry (pos i) (base_type t (with_uses (x.use_count + 1) before x after)) m

module _ (i : ℕ) (t : Signature) (x : Rename) (before after : List Rename) (m : ℤ → Option Entry)
    (next : ℤ) (there : m (pos i) ≡ base_type t (with_uses x.use_count before x after))
    (others : All (λ y. index y.signature ≢ index x.signature) before) where
  release_shared :
      (r : RenamingRegistry)
      → 0 < x.use_count
      → View (one_more i t x before after m) true next r
      → Yields tt (View m true next) (
          release
            (pointer_at i x)
            (record {
              base = none;
              signature = t;
              rename = with_uses (x.use_count + 1) before x after;
            })
            (some (record x { use_count = x.use_count + 1 }))
            r)
  unfolding release
  release_shared r p v =
      let more : (x.use_count + 1 == 1) ≡ false = ground arith in
      let same : x.use_count + 1 - 1 ≡ x.use_count = omega arith in
      rw
        (
          more,
          update_count-skips (λ n. n - 1) before after (record x { use_count = x.use_count + 1 })
              others,
          same,
        )
        (weaken (set_entry-View (pos i) _ (one_more i t x before after m) true next r v)
          (λ r2 v2. as_map (λ j. with_entry-back (pos i) _ _ m j there) v2))

  pub rename_free-shared :
      (r : RenamingRegistry)
      → 0 < x.use_count
      → View (one_more i t x before after m) false next r
      → Yields tt (View m false next) (rename_free (pointer_at i x) r)
  unfolding rename_free entry_at
  rename_free-shared r p v =
      let here : one_more i t x before after m (pos i)
          ≡ base_type t (with_uses (x.use_count + 1) before x after) =
        ground arith in
      let found = find_index-skips before after (record x { use_count = x.use_count + 1 }) others in
      bind _ (data_lock-View (one_more i t x before after m) next r v) (λ r1 v1.
        rw (v1.entries (pos i) ∙ here, found)
          (bind _ (release_shared r1 p v1) (λ r2 v2. data_unlock-View m true next r2 v2)))

  pub rename_new-counts :
      (can : ℕ → Bool) (rename : List ℕ → Option (List ℕ)) (s : Signature) (r : RenamingRegistry)
      → ((k : ℕ) → can k ≡ true)
      → 0 < i
      → index s ≡ pos i
      → All (λ y. name y.signature ≢ name x.signature) before
      → rename (name s) ≡ some (name x.signature)
      → View m false next r
      → Yields
          (some (pointer_at i x))
          (View (one_more i t x before after m) false next)
          (rename_new can rename s r)
  unfolding rename_new rename_locked rename_as use_rename
  rename_new-counts can rename s r memory p ix names to v =
      let found = find_name-skips before after x names in
      let counted = update_count-skips (λ n. n + 1) before after x others in
      bind _ (data_lock-View m next r v) (λ r1 v1.
        bind _
          (bind _ (registry_new_known can memory s none i _ m true next r1 ix p there v1) (λ r2 v2.
            rw (ix, v2.entries (pos i) ∙ there, v2.entries (pos i) ∙ there, to, found, counted)
              (bind _ (set_entry-View (pos i) _ m true next r2 v2) (λ r3 v3. yields v3))))
          (λ r3 v3. bind _ (data_unlock-View _ true next r3 v3) (λ r4 v4. yields v4)))

  -- With memory and the lock free, for a signature with a positive index that is registered as
  -- a base type and has a rename in use with the new name, where no rename before this one has
  -- its name or its index: labcomm2014_renaming_rename_new hands out that rename, its use count
  -- is one higher, no other rename or entry changes, no index is used up, and the lock is free;
  -- labcomm2014_renaming_rename_free of it then leaves the registry as it was at every index,
  -- and the lock free.
  pub rename_new-shared :
      (can : ℕ → Bool) (rename : List ℕ → Option (List ℕ)) (s : Signature) (r : RenamingRegistry)
      → ((k : ℕ) → can k ≡ true)
      → 0 < i
      → 0 < x.use_count
      → index s ≡ pos i
      → All (λ y. name y.signature ≢ name x.signature) before
      → rename (name s) ≡ some (name x.signature)
      → View m false next r
      → Yields
          (some (pointer_at i x))
          (λ r1.
            View (one_more i t x before after m) false next r1
            × Yields tt (View m false next) (rename_free (pointer_at i x) r1))
          (rename_new can rename s r)
  rename_new-shared can rename s r memory p uses ix names to v =
      weaken (rename_new-counts can rename s r memory p ix names to v)
        (λ r1 v1. (v1, rename_free-shared r1 uses v1))
