-- ===== src/Signature.antt =====
-- lib/c/2014/labcomm2014_type_signature.h and .c, and the index functions of labcomm2014.c:
-- signatures, their trees, and the walks over a tree.
pub mod Walk
use labcomm_core.Common.{
  ℕ, zero, suc, ◌+◌, ◌-◌, ◌≡◌, Bool, true, false, ◌&&◌, ◌||◌, Option, none, some, List, [], ◌∷◌,
  ◌++◌, ltb, leb, if◌then◌else◌, length, take, same_bytes, ℤ, pos, suc_ℤ, is_zero, Cmd, pure, exit,
}

-- `struct labcomm2014_signature`, and the array of `struct labcomm2014_signature_data` that
-- `treedata` points at: runs of bytes (`length` > 0), references to other signatures (`length` is 0),
-- entries that are neither, and the end (`length` is -1). The name is the bytes of a C string before
-- its NUL; `size` is the number of bytes of the flat signature.
mutual
  pub data Signature : Type 0 where
    signature : (name : List ℕ) → (index : ℤ) → (bytes : List ℕ) → (treedata : Tree) → Signature

  pub data Tree : Type 0 where
    end : Tree
    bytes : List ℕ → Tree → Tree
    reference : Signature → Tree → Tree
    neither : Tree → Tree

abbrev pub name : Signature → List ℕ
name (signature n i b t) = n

abbrev pub index : Signature → ℤ
index (signature n i b t) = i

abbrev pub flat : Signature → List ℕ
flat (signature n i b t) = b

abbrev pub size : Signature → ℕ
size s = length (flat s)

abbrev pub treedata : Signature → Tree
treedata (signature n i b t) = t

-- labcomm2014_set_local_index: the signature gets the next free index; one that has an index ends
-- the process (labcomm2014_error_fatal_global). The state is the static `local_index`.
unfoldable pub set_local_index : Signature → Cmd ℤ Signature
set_local_index (signature n i b t) =
    if is_zero i then (λ next. pure (signature n next b t) (suc_ℤ next)) else exit

-- labcomm2014_get_local_index; `none` is NULL.
unfoldable pub get_local_index : {S : Type 0} → Option Signature → Cmd S ℤ
get_local_index none = pure (pos 0)
get_local_index (some s) = if is_zero (index s) then exit else pure (index s)

-- Run `f` on the bytes of one entry.
unfoldable pub each_byte : {S : Type 0} → (ℕ → Option Signature → S → S) → List ℕ → S → S
each_byte f [] s = s
each_byte f (b ∷ bs) s = each_byte f bs (f b none s)

-- map_signature, on a signature and on the entries from one on. With `flatten` a reference is
-- entered, and otherwise handed to `f`. An entry that is neither ends the walk of its array.
unfoldable mutual
  pub map_signature : {S : Type 0} → (ℕ → Option Signature → S → S) → Bool → Signature → S → S
  map_signature f flatten (signature n i b t) s = map_tree f flatten t s

  pub map_tree : {S : Type 0} → (ℕ → Option Signature → S → S) → Bool → Tree → S → S
  map_tree f flatten end s = s
  map_tree f flatten (bytes bs t) s = map_tree f flatten t (each_byte f bs s)
  map_tree f flatten (reference r t) s =
      map_tree f flatten t (if flatten then map_signature f flatten r s else f 0 (some r) s)
  map_tree f flatten (neither t) s = s

-- `buf` with the bytes that fit: those of one entry, up to `room` of them.
abbrev pub Dump : Type 0
Dump = List ℕ × Bool

unfoldable mutual
  -- sig_dump_checked: the bytes in the buffer so far, and its size. The result is TRUE on an overrun
  -- and on an entry that is neither; the result for a reference is not looked at.
  pub dump_signature : Signature → ℕ → List ℕ → Dump
  dump_signature (signature n i b t) room out = dump_tree t room out

  pub dump_tree : Tree → ℕ → List ℕ → Dump
  dump_tree end room out = (out, leb room (length out))
  dump_tree (bytes bs t) room out =
      let next = dump_tree t room (out ++ take (room - length out) bs) in
      if ltb (length out) room then next else (out, true)
  dump_tree (reference r t) room out =
      let next = dump_tree t room (dump_signature r room out).0 in
      if ltb (length out) room then next else (out, true)
  dump_tree (neither t) room out = (out, true)

-- labcomm2014_signature_dump
unfoldable pub signature_dump : Tree → ℕ → Dump
unfolding dump_tree
signature_dump t room = dump_tree t room []

-- `int buflen=512`
abbrev pub cmp_room : ℕ
cmp_room = 512

-- labcomm2014_signature_cmp: the flattened trees are equal, and neither overruns the buffer.
unfoldable pub signature_cmp : Tree → Tree → Bool
unfolding signature_dump
signature_cmp s1 s2 =
    let (buf1, res1) = signature_dump s1 cmp_room in
    let (buf2, res2) = signature_dump s2 cmp_room in
    if res1 || res2 then false else same_bytes buf1 buf2
