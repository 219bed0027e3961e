-- ===== src/Examples/Definitions.antt =====
-- The theorems on definitions and registrations at concrete inputs.
use labcomm_core.Common.{
  ℕ, ◌≡◌, refl, true, false, some, List, [], ◌∷◌, ◌++◌, arith, if◌then◌else◌, ℤ, pos, eqb_ℤ, Yields,
  yields, pure,
}
use labcomm_core.Reader.Source.{At}
use labcomm_core.SignatureArray.{empty, array_get, array_items}
use labcomm_core.SignatureArray.Laws.{empty-IsArray}
use labcomm_core.Encoder.Packets.{definition}
use labcomm_core.Decoder.{SampleEntry, Decoder, do_register_sample}
use labcomm_core.Decoder.Definitions.{
  is_received, find_received, handle_sample_def, handle_sample_ref, signatures, decode_definition,
}
use labcomm_core.Decoder.Definitions.RoundTrip.{received, decode_definition-definition}
use labcomm_core.Decoder.Definitions.Binding.{handle_sample_def-binds, handle_sample_ref-binds}
use labcomm_core.Decoder.Registration.{do_register_sample-registers}
use labcomm_core.Decoder.Samples.Dispatch.{IsIdle, local_index_of, entry_of}
use labcomm_core.Examples.{
  InputContext, plenty, in_action, source, reader, reader-At, ab, decode_number,
}

abbrev registered : SampleEntry InputContext ℕ
registered = record {
  remote_index = pos 0;
  signature = some ab;
  decode = some decode_number;
  handler = 1;
  context = 2;
}

-- A decoder with `ab` registered at its local index, 64.
abbrev decoder : List ℕ → Decoder InputContext ℕ
decoder xs = record {
  reader = reader xs;
  reader_allocated = true;
  version_ok = true;
  memory = plenty;
  local = record { first = pos 64; last = pos 65; items = registered ∷ [] };
  remote_to_local = empty;
  local_ref = empty;
  remote_to_local_ref = empty;
  data_held = false;
  handled = [];
}

decoder-IsIdle : (xs : List ℕ) → IsIdle (decoder xs)
decoder-IsIdle xs = record {
  unlocked = refl;
  local_array = record { range = omega arith; full = omega arith };
  remote_to_local_array = empty-IsArray;
  local_ref_array = empty-IsArray;
  remote_to_local_ref_array = empty-IsArray;
}

abbrev defining : Decoder InputContext ℕ
defining = decoder (definition 80 ab ++ (3 ∷ []))

-- A stand-in for handle_sample_def that remembers the index.
decode_definition-definition_example :
    Yields
      (pos 80)
      (λ d. At source plenty (3 ∷ []) d.reader)
      (decode_definition in_action 5 (λ i r. pure i) defining)
decode_definition-definition_example =
    decode_definition-definition source 5 (omega arith) plenty 80 ab (3 ∷ []) (λ i r. pure i)
      defining (omega arith) (omega arith) (omega arith) (omega arith, (omega arith, tt)) refl refl
      (reader-At _) refl (λ r a. yields a)

found :
    find_received (received ab) (signatures (array_items (decoder []).local)) ≡ some (some (pos 64))
unfolding find_received is_received signatures array_items
found = refl

handle_sample_def-binds_example :
    Yields
      (pos 80)
      (λ d.
        IsIdle d
        × ((j : ℤ)
            → local_index_of j d
              ≡ (if eqb_ℤ (pos 80) j then pos 64 else local_index_of j (decoder [])))
        × ((j : ℤ)
            → entry_of j d ≡ (
                if eqb_ℤ (pos 64) j
                then record (entry_of (pos 64) (decoder [])) { remote_index = pos 80 }
                else entry_of j (decoder [])))
        × (d.reader ≡ reader [])
        × (d.handled ≡ [])
        × (d.version_ok ≡ true)
        × (d.reader_allocated ≡ true))
      (handle_sample_def in_action (pos 0) (pos 80) (received ab) (decoder []))
handle_sample_def-binds_example =
    handle_sample_def-binds source (pos 0) (pos 80) (pos 64) (received ab) (decoder [])
      (decoder-IsIdle []) found

do_register_sample-registers_example :
    Yields
      (pos 64)
      (λ d.
        IsIdle d
        × ((j : ℤ)
            → entry_of j d ≡ (if eqb_ℤ (pos 64) j then registered else entry_of j (decoder [])))
        × ((j : ℤ) → local_index_of j d ≡ local_index_of j (decoder []))
        × (d.reader ≡ reader []))
      (do_register_sample in_action ab decode_number 1 2 (decoder []))
do_register_sample-registers_example =
    do_register_sample-registers source ab 64 decode_number 1 2 (decoder []) refl (omega arith) refl
      (decoder-IsIdle [])

-- A decoder with a reference to `ab` registered at its local index.
abbrev referring : Decoder InputContext ℕ
referring = record (decoder []) {
  local_ref = record { first = pos 64; last = pos 65; items = some ab ∷ [] };
}

referring-IsIdle : IsIdle referring
referring-IsIdle = record {
  unlocked = refl;
  local_array = record { range = omega arith; full = omega arith };
  remote_to_local_array = empty-IsArray;
  local_ref_array = record { range = omega arith; full = omega arith };
  remote_to_local_ref_array = empty-IsArray;
}

found_ref : find_received (received ab) (array_items referring.local_ref) ≡ some (some (pos 64))
unfolding find_received is_received array_items
found_ref = refl

handle_sample_ref-binds_example :
    Yields
      (pos 80)
      (λ d.
        IsIdle d
        × ((j : ℤ)
            → array_get (pos 0) j d.remote_to_local_ref
              ≡ (if eqb_ℤ (pos 80) j then pos 64 else array_get (pos 0) j empty))
        × (d.local_ref ≡ referring.local_ref)
        × (d.reader ≡ reader [])
        × (d.handled ≡ []))
      (handle_sample_ref in_action (pos 0) (pos 80) (received ab) referring)
handle_sample_ref-binds_example =
    handle_sample_ref-binds {act = in_action} source (pos 0) (pos 80) (pos 64) (received ab)
      referring referring-IsIdle found_ref
