-- ===== src/Decoder/Packets.antt =====
-- do_decode_one, which takes one packet, and labcomm2014_decoder_run.
pub mod Delivery
pub mod Reserved
pub mod Session
pub mod Definition
pub mod Version
use labcomm_core.Common.{
  ℕ, zero, suc, ◌+◌, ◌==◌, ◌≡◌, Bool, true, false, Option, none, some, List, [], ◌∷◌, if◌then◌else◌,
  same_bytes, ltb_ℤ, leb_ℤ, eqb_ℤ, ℤ, pos, negsuc, is_neg, is_zero, to_int, minus_enoent,
  minus_econnreset, Cmd, Run, out_of_fuel, pure, exit, gets, modify, ◌>>=◌, ◌>>◌,
}
use labcomm_core.Wire.{
  tag_version, tag_sample_def, tag_sample_ref, tag_type_def, tag_type_binding, tag_pragma, tag_user,
}
use labcomm_core.Reader.{Reader, ReaderAction, read_packed32, read_string}
use labcomm_core.Encoder.{current_version}
use labcomm_core.Decoder.{Decoder, on_reader, reader_alloc}
use labcomm_core.Decoder.Definitions.{c_string, reader_skip, decode_sample_def, decode_sample_ref}
use labcomm_core.Decoder.Samples.{decode_and_handle, decode_pragma}

module _ {C V : Type 0} (act : ReaderAction C) (fuel : ℕ) (junk : ℤ) where
  -- The branch for LABCOMM_VERSION.
  pub decode_version : Cmd (Decoder C V) ℤ
  decode_version = do
    version ← on_reader (read_string act fuel)
    error ← gets (λ d. d.reader.error)
    if is_neg error then pure error else elim version [
      | none ↦ exit
      | some v ↦
          if same_bytes (c_string v) current_version
          then (do modify (λ d. record d { version_ok = true }); pure (pos tag_version))
          else pure minus_econnreset
    ]

  -- The branches for LABCOMM_TYPE_DEF and LABCOMM_TYPE_BINDING: skipped without a handler.
  handle_or_skip : ℤ → ℤ → Cmd (Decoder C V) ℤ
  handle_or_skip remote_index length = do
    result ← decode_and_handle act remote_index
    if eqb_ℤ result minus_enoent
        then on_reader (reader_skip act length remote_index)
        else pure result

  -- The other branches of do_decode_one, once the version is known to be right.
  pub decode_body : ℤ → ℤ → Cmd (Decoder C V) ℤ
  unfolding handle_or_skip
  decode_body remote_index length =
      if eqb_ℤ remote_index (pos tag_sample_def)
      then decode_sample_def act fuel junk
      else if eqb_ℤ remote_index (pos tag_sample_ref)
      then decode_sample_ref act fuel junk
      else if eqb_ℤ remote_index (pos tag_type_def)
      then handle_or_skip remote_index length
      else if eqb_ℤ remote_index (pos tag_type_binding)
      then handle_or_skip remote_index length
      else if eqb_ℤ remote_index (pos tag_pragma)
      then decode_pragma act fuel length
      else if ltb_ℤ remote_index (pos tag_user)
      then on_reader (reader_skip act length remote_index)
      else decode_and_handle act remote_index

  pub do_decode_one : Cmd (Decoder C V) ℤ
  unfolding decode_version decode_body
  do_decode_one = do
    reader_alloc act
    index ← on_reader (read_packed32 act fuel)
    error ← gets (λ d. d.reader.error)
    if is_neg error then pure error else (do
      length ← on_reader (read_packed32 act fuel)
      error ← gets (λ d. d.reader.error)
      version_ok ← gets (λ d. d.version_ok)
      if is_neg error
          then pure error
          else if eqb_ℤ (to_int index) (pos tag_version)
          then decode_version
          else if version_ok
          then decode_body (to_int index) (to_int length)
          else pure minus_econnreset)

  -- labcomm2014_decoder_run, for at most `packets` packets. The result is that of the last one.
  pub decoder_run : ℕ → Cmd (Decoder C V) ℤ
  unfolding do_decode_one
  decoder_run zero = λ d. out_of_fuel
  decoder_run (suc packets) = do
    result ← do_decode_one
    elim (leb_ℤ result (pos 0)) [ true ↦ pure result | false ↦ decoder_run packets ]
