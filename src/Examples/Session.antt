-- ===== src/Examples/Session.antt =====
-- The theorems on a definition and on a whole stream at concrete inputs.
use labcomm_core.Common.{
  ℕ, suc, ◌<◌, ◌^◌, ◌≡◌, refl, Bool, true, false, some, List, [], ◌∷◌, ◌++◌, arith, length, pos,
  Yields,
}
use labcomm_core.Wire.{packed32, string, tag_version, tag_sample_def}
use labcomm_core.SignatureArray.{empty, array_get, array_items}
use labcomm_core.SignatureArray.Laws.{empty-IsArray}
use labcomm_core.Encoder.{current_version}
use labcomm_core.Encoder.Packets.{packet, definition}
use labcomm_core.Decoder.{SampleEntry, Decoder, sample}
use labcomm_core.Decoder.Definitions.{is_received, find_received, signatures}
use labcomm_core.Decoder.Definitions.RoundTrip.{received}
use labcomm_core.Decoder.Samples.Dispatch.{IsIdle, entry_of}
use labcomm_core.Decoder.Packets.{do_decode_one, decoder_run}
use labcomm_core.Decoder.Packets.Definition.{Bound, do_decode_one-binds}
use labcomm_core.Decoder.Packets.Version.{Moved}
use labcomm_core.Decoder.Packets.Reserved.{do_decode_one-reserved}
use labcomm_core.Decoder.Packets.Session.{Stops, decoder_run-session}
use labcomm_core.Examples.{
  InputContext, plenty, in_action, source, reader, reader-At, ab, decode_number,
  decode_number-Decodes,
}

abbrev registered : SampleEntry InputContext ℕ
registered = record {
  remote_index = pos 0;
  signature = some ab;
  decode = some decode_number;
  handler = 1;
  context = 2;
}

-- A decoder with `ab` registered at its local index, 64.
abbrev decoder : Bool → List ℕ → Decoder InputContext ℕ
decoder version_ok xs = record {
  reader = reader xs;
  reader_allocated = true;
  version_ok = version_ok;
  memory = plenty;
  local = record { first = pos 64; last = pos 65; items = registered ∷ [] };
  remote_to_local = empty;
  local_ref = empty;
  remote_to_local_ref = empty;
  data_held = false;
  handled = [];
}

decoder-IsIdle : (b : Bool) (xs : List ℕ) → IsIdle (decoder b xs)
decoder-IsIdle b xs = record {
  unlocked = refl;
  local_array = record { range = omega arith; full = omega arith };
  remote_to_local_array = empty-IsArray;
  local_ref_array = empty-IsArray;
  remote_to_local_ref_array = empty-IsArray;
}

found :
    (b : Bool) (xs : List ℕ)
    → find_received (received ab) (signatures (array_items (decoder b xs).local))
      ≡ some (some (pos 64))
unfolding find_received is_received signatures array_items
found b xs = refl

has : (b : Bool) (xs : List ℕ) → (entry_of (pos 64) (decoder b xs)).decode ≡ some decode_number
unfolding array_get
has b xs = refl

short : length (definition 80 ab) < 2 ^ 31
unfolding definition packed32 string
short = omega arith

short_body : length (packed32 500) < 2 ^ 31
unfolding packed32
short_body = omega arith

abbrev defining : Decoder InputContext ℕ
defining = decoder true (packet tag_sample_def (definition 80 ab) ++ (3 ∷ []))

do_decode_one-binds_example :
    Yields
      (pos 80)
      (Bound source 5 (pos 0) (omega arith) (pos 80) (pos 64) (3 ∷ []) defining)
      (do_decode_one in_action 5 (pos 0) defining)
do_decode_one-binds_example =
    do_decode_one-binds source 5 (pos 0) (omega arith) 80 (pos 64) ab (3 ∷ []) defining
      (omega arith) (omega arith) (omega arith) short (omega arith, (omega arith, tt)) refl refl
      refl refl (decoder-IsIdle true _) (found true []) (reader-At _)

abbrev session : Decoder InputContext ℕ
session = decoder false (
    packet tag_version (string current_version)
    ++ (packet tag_sample_def (definition 80 ab) ++ (packet 80 (packed32 500) ++ [])))

decoder_run-session_example :
    Stops
      (λ d.
        d.handled
        ≡ ((entry_of (pos 64) session).handler, (entry_of (pos 64) session).context, sample 500)
          ∷ [])
      (decoder_run in_action 5 (pos 0) (suc (suc (suc (suc 0)))) session)
decoder_run-session_example =
    decoder_run-session source 5 (pos 0) (omega arith) 80 (pos 64) ab (packed32 500) decode_number
      (sample 500) 0 session (omega arith) (omega arith) (omega arith) (omega arith) short
      short_body (omega arith, (omega arith, tt)) (λ n. refl) refl refl (decoder-IsIdle false _)
      (found false []) refl (has false []) decode_number-Decodes (reader-At _)

abbrev reserved : Decoder InputContext ℕ
reserved = decoder true (packet 9 (1 ∷ 2 ∷ []) ++ (3 ∷ []))

do_decode_one-reserved_example :
    Yields
      (pos 9)
      (Moved source 5 (pos 0) (omega arith) (3 ∷ []) reserved)
      (do_decode_one in_action 5 (pos 0) reserved)
do_decode_one-reserved_example =
    do_decode_one-reserved source 5 (pos 0) (omega arith) 9 (1 ∷ 2 ∷ []) (3 ∷ []) reserved
      (omega arith) (omega arith) (omega arith) (omega arith, (omega arith, tt)) refl refl
      (reader-At _)
