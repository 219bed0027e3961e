-- ===== src/Renaming/Layers.antt =====
-- lib/c/2014/labcomm2014_renaming_encoder.c and labcomm2014_renaming_decoder.c: an encoder and a
-- decoder that hand each call on to the next one, under the new name of its signature.
pub mod Setting
pub mod Forwards
pub mod Race
use labcomm_core.Common.{
  ℕ, ◌≡◌, Bool, true, false, Option, none, some, List, [], ◌∷◌, if◌then◌else◌, ℤ, pos, minus_einval,
  Cmd, Run, ok, halt, pure, exit, gets, modify, within, ◌>>=◌, ◌>>◌,
}
use labcomm_core.Signature.{Signature, index, get_local_index}
use labcomm_core.SignatureArray.{
  SignatureArray, empty, array_ref, array_get, array_put, array_items,
}
use labcomm_core.Renaming.{
  RenamePointer, RenamingRegistry, rename_new, rename_free, rename_signature,
}

-- `struct encoder`, or `struct decoder`: the state `N` of the next one, and the lock that this
-- file takes, the writer lock of an encoder or the data lock of a decoder.
pub record Layer (N : Type 0) : Type 0 where
  pub next : N
  pub registry : RenamingRegistry
  pub renamed : SignatureArray (Option RenamePointer)
  pub layer_held : Bool

-- The functions of the next encoder; `F` is an encode function, `V` one with a value.
pub record NextEncoder (N F V : Type 0) : Type 0 where
  pub type_register : Signature → Cmd N ℤ
  pub type_bind : Signature → Bool → Cmd N ℤ
  pub sample_register : Signature → F → Cmd N ℤ
  pub ref_register : Signature → Cmd N ℤ
  pub encode : Signature → V → Cmd N ℤ
  pub ioctl : Signature → ℕ → Cmd N ℤ
  pub sample_ref_to_index : ℕ → Cmd N ℤ
  pub ref_get : Signature → Cmd N (Option ℕ)

-- The functions of the next decoder; `F` is a decode function with a handler and its context.
pub record NextDecoder (N F : Type 0) : Type 0 where
  pub sample_register : Signature → F → Cmd N ℤ
  pub ref_register : Signature → Cmd N ℤ
  pub ioctl : Signature → ℕ → Cmd N ℤ
  pub decode_one : Cmd N ℤ
  pub index_to_sample_ref : ℤ → Cmd N (Option ℕ)
  pub ref_get : Signature → Cmd N (Option ℕ)

module _ {N : Type 0} where
  abbrev pub on_next : {B : Type 0} → Cmd N B → Cmd (Layer N) B
  on_next = within (λ l. l.next) (λ n l. record l { next = n })

  abbrev pub on_registry : {B : Type 0} → Cmd RenamingRegistry B → Cmd (Layer N) B
  on_registry = within (λ l. l.registry) (λ r l. record l { registry = r })

  -- The lock is not recursive: to take it while it is held blocks for ever.
  abbrev pub layer_lock : Cmd (Layer N) (Unit {0})
  layer_lock l = if l.layer_held then halt else ok tt (record l { layer_held = true })

  abbrev pub layer_unlock : Cmd (Layer N) (Unit {0})
  layer_unlock = modify (λ l. record l { layer_held = false })

  unfoldable pub get_renamed : Signature → Cmd (Layer N) (Option RenamePointer)
  get_renamed s = get_local_index (some s) >>= λ i.
      layer_lock >> (gets (λ l. array_get none i l.renamed) >>= λ p. layer_unlock >> pure p)

  abbrev pub or_dangling : Option Signature → Cmd (Layer N) Signature
  or_dangling none l = halt
  or_dangling (some t) l = ok t l

  -- The signature of a rename; NULL cannot be followed.
  unfoldable pub followed : Option RenamePointer → Cmd (Layer N) Signature
  followed none l = halt
  followed (some p) l = or_dangling (rename_signature p l.registry) l

  -- The signature to hand on: that of the rename, where there is one.
  unfoldable pub renamed_or : Signature → Option RenamePointer → Cmd (Layer N) Signature
  renamed_or s none = pure s
  renamed_or s (some p) = followed (some p)

  -- Under the lock, the new rename is kept, or given back where another has come before.
  unfoldable pub keep :
      ℤ → RenamePointer → Option RenamePointer → Cmd (Layer N) (Option RenamePointer)
  keep i e none =
      modify (λ l. record l { renamed = array_put i (some e) l.renamed })
      >> (layer_unlock >> pure (some e))
  keep i e (some q) = on_registry (rename_free e) >> (layer_unlock >> pure (some q))

  unfoldable pub install : ℤ → Option RenamePointer → Cmd (Layer N) (Option RenamePointer)
  install i none = pure none
  install i (some e) =
      layer_lock
      >> (modify (λ l. record l { renamed = array_ref none i l.renamed })
          >> (gets (λ l. array_get none i l.renamed) >>= λ there. keep i e there))

-- `rename` is the function that the layer was made with, with its context; `others` is what other
-- threads do to the layer after a rename has been made and before the lock is taken.
module _ {N : Type 0} (can : ℕ → Bool) (rename : List ℕ → Option (List ℕ))
    (others : Layer N → Layer N) where
  unfoldable pub set_if_none :
      Signature → Option RenamePointer → Cmd (Layer N) (Option RenamePointer)
  set_if_none s (some p) = pure (some p)
  set_if_none s none = get_local_index (some s) >>= λ i.
      on_registry (rename_new can rename s) >>= λ e. modify others >> install i e

  unfoldable pub set_renamed : Signature → Cmd (Layer N) (Option RenamePointer)
  set_renamed s = get_renamed s >>= λ p. set_if_none s p

  module _ {F V : Type 0} (ops : NextEncoder N F V) where
    -- The base type first, and then the renamed type.
    unfoldable pub register_both : Signature → Option RenamePointer → Cmd (Layer N) ℤ
    register_both s none = on_next (ops.type_register s)
    register_both s (some p) =
        on_next (ops.type_register s) >> (followed (some p) >>= λ t. on_next (ops.type_register t))

    abbrev pub deps : Bool → Option RenamePointer → Bool
    deps has_deps none = has_deps
    deps has_deps (some p) = true

    unfoldable pub encode_renamed : V → Option RenamePointer → Cmd (Layer N) ℤ
    encode_renamed v none = pure minus_einval
    encode_renamed v (some p) = followed (some p) >>= λ t. on_next (ops.encode t v)

    unfoldable pub layer_type_register : Signature → Cmd (Layer N) ℤ
    layer_type_register s = get_renamed s >>= λ p. register_both s p

    unfoldable pub layer_type_bind : Signature → Bool → Cmd (Layer N) ℤ
    layer_type_bind s has_deps =
        get_renamed s >>= λ p. renamed_or s p >>= λ t. on_next (ops.type_bind t (deps has_deps p))

    unfoldable pub layer_sample_register : Signature → F → Cmd (Layer N) ℤ
    layer_sample_register s f =
        set_renamed s >>= λ p. followed p >>= λ t. on_next (ops.sample_register t f)

    unfoldable pub layer_ref_register : Signature → Cmd (Layer N) ℤ
    layer_ref_register s = set_renamed s >>= λ p. followed p >>= λ t. on_next (ops.ref_register t)

    unfoldable pub layer_encode : Signature → V → Cmd (Layer N) ℤ
    layer_encode s v = get_renamed s >>= λ p. encode_renamed v p

    unfoldable pub layer_ioctl : Signature → ℕ → Cmd (Layer N) ℤ
    layer_ioctl s request =
        get_renamed s >>= λ p. renamed_or s p >>= λ t. on_next (ops.ioctl t request)

    unfoldable pub layer_sample_ref_to_index : ℕ → Cmd (Layer N) ℤ
    layer_sample_ref_to_index ref = on_next (ops.sample_ref_to_index ref)

    unfoldable pub layer_ref_get : Signature → Cmd (Layer N) (Option ℕ)
    layer_ref_get s = get_renamed s >>= λ p. renamed_or s p >>= λ t. on_next (ops.ref_get t)

  module _ {F : Type 0} (ops : NextDecoder N F) where
    unfoldable pub decoder_sample_register : Signature → F → Cmd (Layer N) ℤ
    decoder_sample_register s f =
        set_renamed s >>= λ p. followed p >>= λ t. on_next (ops.sample_register t f)

    unfoldable pub decoder_ref_register : Signature → Cmd (Layer N) ℤ
    decoder_ref_register s = set_renamed s >>= λ p. followed p >>= λ t. on_next (ops.ref_register t)

    unfoldable pub decoder_ioctl : Signature → ℕ → Cmd (Layer N) ℤ
    decoder_ioctl s request =
        get_renamed s >>= λ p. followed p >>= λ t. on_next (ops.ioctl t request)

    unfoldable pub decoder_decode_one : Cmd (Layer N) ℤ
    decoder_decode_one = on_next ops.decode_one

    unfoldable pub decoder_index_to_sample_ref : ℤ → Cmd (Layer N) (Option ℕ)
    decoder_index_to_sample_ref i = on_next (ops.index_to_sample_ref i)

    unfoldable pub decoder_ref_get : Signature → Cmd (Layer N) (Option ℕ)
    decoder_ref_get s = get_renamed s >>= λ p. renamed_or s p >>= λ t. on_next (ops.ref_get t)

-- do_free, of both: every rename of the array is given back, in its order.
unfoldable pub free_all : {N : Type 0} → List (ℤ × Option RenamePointer) → Cmd (Layer N) (Unit {0})
free_all [] = pure tt
free_all ((i, none) ∷ more) = free_all more
free_all ((i, some p) ∷ more) = on_registry (rename_free p) >> free_all more

unfoldable pub layer_free : {N : Type 0} → Cmd (Layer N) (Unit {0})
layer_free = gets (λ l. array_items l.renamed) >>= λ items. free_all items

-- The constructors of both; `none` where there is no memory.
unfoldable pub layer_new : {N : Type 0} → Bool → RenamingRegistry → N → Option (Layer N)
layer_new allocated registry next =
    if allocated
    then some (record { next = next; registry = registry; renamed = empty; layer_held = false })
    else none
