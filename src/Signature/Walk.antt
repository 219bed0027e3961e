-- ===== src/Signature/Walk.antt =====
-- What the walks over a signature tree come to: the flat form of the tree, and signature_cmp.
use labcomm_core.Common.{
  ℕ, ◌+◌, ◌-◌, ◌<◌, ◌≡◌, ◌↔◌, sym, ap, ◌∙◌, true, false, Option, List, [], ◌∷◌, ◌++◌, append-nil,
  append_assoc, arith, ltb, leb, length, length-append, take, take_all, same_bytes_refl,
  same_bytes→eq,
}
use labcomm_core.Signature.{
  Signature, signature, Tree, end, bytes, reference, neither, each_byte, map_signature, map_tree,
  dump_signature, dump_tree, signature_dump, cmp_room, signature_cmp,
}

-- The bytes of a tree with its references entered, in order, up to an entry that is neither.
unfoldable mutual
  pub flat_signature : Signature → List ℕ
  flat_signature (signature n i b t) = flat_tree t

  pub flat_tree : Tree → List ℕ
  flat_tree end = []
  flat_tree (bytes bs t) = bs ++ flat_tree t
  flat_tree (reference r t) = flat_signature r ++ flat_tree t
  flat_tree (neither t) = []

-- No entry is neither.
unfoldable mutual
  pub IsWellFormedSignature : Signature → Type 0
  IsWellFormedSignature (signature n i b t) = IsWellFormed t

  pub IsWellFormed : Tree → Type 0
  IsWellFormed end = Unit
  IsWellFormed (bytes bs t) = IsWellFormed t
  IsWellFormed (reference r t) = IsWellFormedSignature r × IsWellFormed t
  IsWellFormed (neither t) = ⊥

-- A callback that puts the bytes behind each other.
abbrev pub collect : ℕ → Option Signature → List ℕ → List ℕ
collect b s out = out ++ (b ∷ [])

each_byte-collect : (bs out : List ℕ) → each_byte collect bs out ≡ out ++ bs
unfolding each_byte
each_byte-collect [] out = sym (append-nil out)
each_byte-collect (b ∷ bs) out =
    each_byte-collect bs (out ++ (b ∷ [])) ∙ append_assoc out (b ∷ []) bs

mutual
  unfolding map_signature map_tree flat_signature flat_tree

  map_signature-each :
      (s : Signature) (out : List ℕ) → map_signature collect true s out ≡ out ++ flat_signature s
  map_signature-each (signature n i b t) out = map_tree-each t out

  map_tree-each : (t : Tree) (out : List ℕ) → map_tree collect true t out ≡ out ++ flat_tree t
  map_tree-each end out = sym (append-nil out)
  map_tree-each (bytes bs t) out =
      map_tree-each t (each_byte collect bs out)
      ∙ ap (λ o. o ++ flat_tree t) (each_byte-collect bs out)
      ∙ append_assoc out bs (flat_tree t)
  map_tree-each (reference r t) out =
      map_tree-each t (map_signature collect true r out)
      ∙ ap (λ o. o ++ flat_tree t) (map_signature-each r out)
      ∙ append_assoc out (flat_signature r) (flat_tree t)
  map_tree-each (neither t) out = sym (append-nil out)

-- A flattening walk with a callback that collects hands out the bytes of the flat form of any
-- signature, in order.
pub map_signature-collect :
    (s : Signature) (out : List ℕ) → map_signature collect true s out ≡ out ++ flat_signature s
map_signature-collect s out = map_signature-each s out

mutual
  unfolding dump_signature dump_tree flat_signature flat_tree IsWellFormedSignature IsWellFormed

  dump_signature-room :
      (s : Signature) (room : ℕ) (out : List ℕ)
      → IsWellFormedSignature s
      → length out + length (flat_signature s) < room
      → dump_signature s room out ≡ (out ++ flat_signature s, false)
  dump_signature-room (signature n i b t) room out w h = dump_tree-room t room out w h

  -- Where the flat form leaves room for one byte more, it is dumped whole and no overrun is told.
  pub dump_tree-room :
      (t : Tree) (room : ℕ) (out : List ℕ)
      → IsWellFormed t
      → length out + length (flat_tree t) < room
      → dump_tree t room out ≡ (out ++ flat_tree t, false)
  dump_tree-room end room out w h =
      let e : leb room (length out) ≡ false = ground arith in rw (e, append-nil out)
  dump_tree-room (bytes bs t) room out w h =
      let l = length-append bs (flat_tree t) in
      let m = length-append out bs in
      let more : ltb (length out) room ≡ true = ground (arith, h) in
      let all : take (room - length out) bs ≡ bs =
        take_all (room - length out) bs (omega (arith, h, l)) in
      rw (more, all)
        (dump_tree-room t room (out ++ bs) w (omega (arith, h, l, m))
          ∙ ap (λ o. (o, false)) (append_assoc out bs (flat_tree t)))
  dump_tree-room (reference r t) room out (w, w') h =
      let l = length-append (flat_signature r) (flat_tree t) in
      let m = length-append out (flat_signature r) in
      let more : ltb (length out) room ≡ true = ground (arith, h) in
      rw (more, dump_signature-room r room out w (omega (arith, h, l)))
        (dump_tree-room t room (out ++ flat_signature r) w' (omega (arith, h, l, m))
          ∙ ap (λ o. (o, false)) (append_assoc out (flat_signature r) (flat_tree t)))
  dump_tree-room (neither t) room out w h = absurd w

-- Two trees without an entry that is neither bytes nor a reference, whose flat forms are
-- shorter than the buffers, compare as equal just if their flat forms are equal, however they
-- are cut into runs and references.
pub signature_cmp-flat_tree :
    (s t : Tree)
    → IsWellFormed s
    → IsWellFormed t
    → length (flat_tree s) < cmp_room
    → length (flat_tree t) < cmp_room
    → (signature_cmp s t ≡ true) ↔ (flat_tree s ≡ flat_tree t)
unfolding signature_cmp signature_dump
signature_cmp-flat_tree s t v w h k =
    rw (dump_tree-room s cmp_room [] v (omega arith), dump_tree-room t cmp_room [] w (omega arith))
      (same_bytes→eq (flat_tree s) (flat_tree t), λ e. rw e (same_bytes_refl (flat_tree t)))
