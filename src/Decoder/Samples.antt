-- ===== src/Decoder/Samples.antt =====
-- What a decoder does with a packet that has a registered decoder function: lookup_h, call_handler,
-- decode_and_handle, the functions for type definitions and bindings; and decode_pragma.
pub mod Dispatch
use labcomm_core.Common.{
  ℕ, zero, suc, ◌+◌, ◌-◌, ◌||◌, not, leb, ◌==◌, ◌≡◌, Bool, true, false, Option, none, some, List,
  [], ◌∷◌, if◌then◌else◌, ℤ, pos, negsuc, is_neg, is_zero, to_int, minus_enoent, Cmd, Run, pure,
  exit, gets, modify, ◌>>=◌, ◌>>◌,
}
use labcomm_core.Wire.{tag_pragma}
use labcomm_core.Reader.{Reader, ReaderAction, rounds, read_byte, read_packed32, read_string}
use labcomm_core.Writer.{size_string}
use labcomm_core.SignatureArray.{array_ref, array_get}
use labcomm_core.Decoder.{
  Value, raw_type_def, type_binding, DecoderFunction, SampleEntry, Decoder, nil_entry, data_lock,
  data_unlock, on_reader,
}
use labcomm_core.Decoder.Definitions.{c_string, to_size, read_bytes, reader_skip, read_intentions}

-- `len - bytes`
abbrev pub minus : ℤ → ℕ → ℤ
minus (pos n) b = if leb b n then pos (n - b) else negsuc (b - n - 1)
minus (negsuc n) b = negsuc (n + b)

module _ {C V : Type 0} where
  -- lookup_h: the local index (0 if there is none) and its entry.
  pub lookup_h : ℤ → Cmd (Decoder C V) (ℤ × SampleEntry C V)
  lookup_h remote_index = do
    data_lock
    modify (λ d. record d { remote_to_local = array_ref (pos 0) remote_index d.remote_to_local })
    local_index ← gets (λ d. array_get (pos 0) remote_index d.remote_to_local)
    entry ← if is_zero local_index then pure nil_entry else (do
      modify (λ d. record d { local = array_ref nil_entry local_index d.local })
      gets (λ d. array_get nil_entry local_index d.local))
    data_unlock
    pure (local_index, entry)

module _ {C V : Type 0} (act : ReaderAction C) where
  -- call_handler
  pub call_handler : ℤ → ℤ → SampleEntry C V → Value V → Cmd (Decoder C V) (Unit {0})
  call_handler local_index remote_index entry value d =
      if is_neg d.reader.error
      then pure tt d
      else pure tt (record d {
        reader = (act.finish (act.start local_index remote_index true d.reader).0).0;
        handled = (entry.handler, entry.context, value) ∷ d.handled;
      })

  pub decode_and_handle : ℤ → Cmd (Decoder C V) ℤ
  unfolding lookup_h call_handler
  decode_and_handle remote_index = do
    (local_index, entry) ← lookup_h remote_index
    elim entry.decode [
      | none ↦ pure minus_enoent
      | some do_decode ↦ (do
        value ← on_reader do_decode
        elim value [ none ↦ pure tt | some v ↦ call_handler local_index remote_index entry v ]
        error ← gets (λ d. d.reader.error)
        pure (if is_neg error then error else local_index))
    ]

  module _ (fuel : ℕ) where
    pub decode_pragma : ℤ → Cmd (Decoder C V) ℤ
    decode_pragma len = do
      pragma_type ← on_reader (read_string act fuel)
      error ← gets (λ d. d.reader.error)
      if is_neg error then pure error else elim pragma_type [
        | none ↦ exit
        | some t ↦
            on_reader (reader_skip act (minus len (size_string (c_string t))) (pos tag_pragma))
      ]

    -- decode_raw_type_def, without memory for the bytes of the signature too.
    pub decode_raw_type_def : DecoderFunction C V
    decode_raw_type_def = do
      index ← read_packed32 act fuel
      error ← gets (λ r. r.error)
      if is_neg error then pure none else (do
        name ← read_intentions act fuel
        error ← gets (λ r. r.error)
        if is_neg error then pure none else (do
          length ← read_packed32 act fuel
          error ← gets (λ r. r.error)
          memory ← gets (λ r. r.memory)
          if is_neg error || not (memory (to_size (to_int length))) then pure none else (do
            bytes ← read_bytes act (rounds (to_int length))
            error ← gets (λ r. r.error)
            pure (if is_neg error then none else some (raw_type_def (to_int index) name bytes)))))

    pub decode_type_binding : DecoderFunction C V
    decode_type_binding = do
      sample_index ← read_packed32 act fuel
      error ← gets (λ r. r.error)
      if is_neg error then pure none else (do
        type_index ← read_packed32 act fuel
        error ← gets (λ r. r.error)
        pure (
            if is_neg error
            then none
            else some (type_binding (to_int sample_index) (to_int type_index))))
