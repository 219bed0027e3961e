-- ===== src/Examples/Encoding.antt =====
-- The theorems on the encoder at concrete inputs.
use labcomm_core.Common.{
  ◌<◌, ◌^◌, ℕ, ◌≡◌, refl, false, [], ◌∷◌, ◌++◌, arith, length, ℤ, pos, minus_einval, Yields,
}
use labcomm_core.Wire.{packed32, string, tag_version, tag_sample_def, tag_type_binding, bind_self}
use labcomm_core.Writer.{Writer, write_packed32}
use labcomm_core.Writer.Sink.{Holds-le}
use labcomm_core.Writer.Numbers.{write_packed32-Wrote}
use labcomm_core.SignatureArray.{SignatureArray, empty, array_get, array_set}
use labcomm_core.SignatureArray.Laws.{
  empty-IsArray, array_get-empty, array_get-array_set, array_set-IsArray,
}
use labcomm_core.Encoder.{
  Encoder, current_version, write_version, do_sample_register, do_encode, do_type_bind,
}
use labcomm_core.Encoder.Packets.{packet, definition, Fits, Sent, Encodes, write_version-Sent}
use labcomm_core.Encoder.Registers.{
  Idle, Done, Marked, do_sample_register-sends, do_sample_register-twice, do_encode-sends,
  do_type_bind-sends,
}
use labcomm_core.Examples.{OutputContext, out_action, sink, writer, writer-IsOpen, ab}

-- An encoder that has registered `ab`, and one that has not.
abbrev one : SignatureArray ℕ
one = array_set 0 (pos 64) 1 empty

abbrev with_registered : SignatureArray ℕ → Encoder OutputContext
with_registered a = record {
  writer = writer;
  registered = a;
  sample_ref = empty;
  typedefs = empty;
  writer_held = false;
}

new-Idle : Idle sink (9 ∷ []) (with_registered empty)
new-Idle = record {
  unlocked = refl;
  is_open = writer-IsOpen;
  same_memory = refl;
  keeps = refl;
  registered_array = empty-IsArray;
  sample_ref_array = empty-IsArray;
  typedefs_array = empty-IsArray;
}

used-Idle : Idle sink (9 ∷ []) (with_registered one)
used-Idle = record {
  unlocked = refl;
  is_open = writer-IsOpen;
  same_memory = refl;
  keeps = refl;
  registered_array = array_set-IsArray 0 (pos 64) 1 empty empty-IsArray;
  sample_ref_array = empty-IsArray;
  typedefs_array = empty-IsArray;
}

one-registered : array_get 0 (pos 64) one ≡ 1
one-registered = array_get-array_set 0 1 (pos 64) (pos 64) empty empty-IsArray

ab-Fits : Fits ab
ab-Fits = record { name_fits = omega arith; size_fits = omega arith }

do_sample_register-sends_example :
    Yields
      (pos 0)
      (λ e.
        Done sink ((9 ∷ []) ++ packet tag_sample_def (definition 64 ab)) e
        × Marked sink (pos 64) empty e.registered
        × (e.sample_ref ≡ empty)
        × (e.typedefs ≡ empty))
      (do_sample_register out_action ab (with_registered empty))
do_sample_register-sends_example =
    do_sample_register-sends sink ab 64 (9 ∷ []) (with_registered empty) refl (omega arith)
      (omega arith) ab-Fits new-Idle (array_get-empty 0 (pos 64))

do_sample_register-twice_example :
    Yields minus_einval
      (λ e.
        (e.writer ≡ writer)
        × (e.writer_held ≡ false)
        × ((j : ℤ) → array_get 0 j e.registered ≡ array_get 0 j one))
      (do_sample_register out_action ab (with_registered one))
do_sample_register-twice_example =
    do_sample_register-twice sink ab 64 (9 ∷ []) (with_registered one) refl (omega arith) used-Idle
      one-registered

-- A generated function that encodes the number 500 as a packed number.
abbrev encode_500 : Writer OutputContext → Writer OutputContext × ℤ
encode_500 w = write_packed32 out_action 500 w

encode_500-Encodes : Encodes sink (packed32 500) encode_500
encode_500-Encodes bytes w h = write_packed32-Wrote sink 500 bytes w (Holds-le sink h)

body_short : length (packed32 500) < 2 ^ 31
unfolding packed32
body_short = omega arith

do_encode-sends_example :
    Yields
      (pos 0)
      (λ e. Done sink ((9 ∷ []) ++ packet 64 (packed32 500)) e × (e.registered ≡ one))
      (do_encode out_action ab (length (packed32 500)) encode_500 (with_registered one))
do_encode-sends_example =
    do_encode-sends sink ab 64 (packed32 500) (9 ∷ []) encode_500 (with_registered one) refl
      (omega arith) (omega arith) body_short encode_500-Encodes used-Idle one-registered

do_type_bind-sends_example :
    Yields
      (pos 0)
      (Done sink ((9 ∷ []) ++ packet tag_type_binding (packed32 64 ++ packed32 bind_self)))
      (do_type_bind out_action ab false (with_registered empty))
do_type_bind-sends_example =
    do_type_bind-sends sink ab 64 false (9 ∷ []) (with_registered empty) refl (omega arith)
      (omega arith) new-Idle

write_version-Sent_example :
    Sent sink
      ((9 ∷ []) ++ packet tag_version (string current_version))
      (write_version out_action writer)
write_version-Sent_example = write_version-Sent sink writer writer-IsOpen refl
