-- ===== src/Examples/Decoding.antt =====
-- The theorems on packets that are decoded at concrete inputs.
use labcomm_core.Common.{
  ℕ, ◌≡◌, refl, ap, ◌∙◌, Bool, true, false, some, List, [], ◌∷◌, ◌++◌, arith, ℤ, pos,
  minus_econnreset, Yields,
}
use labcomm_core.Wire.{packed32, string, tag_version}
use labcomm_core.Reader.{Reader}
use labcomm_core.Reader.Source.{At}
use labcomm_core.SignatureArray.{SignatureArray, empty, array_get, array_set}
use labcomm_core.SignatureArray.Laws.{
  empty-IsArray, array_get-empty, array_get-array_set, array_set-IsArray,
}
use labcomm_core.Encoder.{current_version}
use labcomm_core.Encoder.Packets.{packet}
use labcomm_core.Decoder.{sample, SampleEntry, Decoder, nil_entry}
use labcomm_core.Decoder.Samples.Dispatch.{IsIdle, SameTables, Told, entry_of}
use labcomm_core.Decoder.Packets.{do_decode_one}
use labcomm_core.Decoder.Packets.Version.{Moved, do_decode_one-version, do_decode_one-early}
use labcomm_core.Decoder.Packets.Delivery.{do_decode_one-delivers}
use labcomm_core.Examples.{
  InputContext, plenty, in_action, source, reader, reader-At, ab, decode_number,
  decode_number-Decodes,
}

abbrev entry : SampleEntry InputContext ℕ
entry = record {
  remote_index = pos 80;
  signature = some ab;
  decode = some decode_number;
  handler = 1;
  context = 2;
}

abbrev entries : SignatureArray (SampleEntry InputContext ℕ)
entries = array_set nil_entry (pos 64) entry empty

abbrev bindings : SignatureArray ℤ
bindings = array_set (pos 0) (pos 80) (pos 64) empty

-- A decoder for which the remote index 80 is bound to the sample `ab`.
abbrev bound : Bool → List ℕ → Decoder InputContext ℕ
bound version_ok xs = record {
  reader = reader xs;
  reader_allocated = true;
  version_ok = version_ok;
  memory = plenty;
  local = entries;
  remote_to_local = bindings;
  local_ref = empty;
  remote_to_local_ref = empty;
  data_held = false;
  handled = [];
}

bound-IsIdle : (b : Bool) (xs : List ℕ) → IsIdle (bound b xs)
bound-IsIdle b xs = record {
  unlocked = refl;
  local_array = array_set-IsArray nil_entry (pos 64) entry empty empty-IsArray;
  remote_to_local_array = array_set-IsArray (pos 0) (pos 80) (pos 64) empty empty-IsArray;
  local_ref_array = empty-IsArray;
  remote_to_local_ref_array = empty-IsArray;
}

bindings-80 : array_get (pos 0) (pos 80) bindings ≡ pos 64
bindings-80 = array_get-array_set (pos 0) (pos 64) (pos 80) (pos 80) empty empty-IsArray

bindings-81 : array_get (pos 0) (pos 81) bindings ≡ pos 0
bindings-81 =
    array_get-array_set (pos 0) (pos 64) (pos 80) (pos 81) empty empty-IsArray
    ∙ array_get-empty (pos 0) (pos 81)

entries-64 : array_get nil_entry (pos 64) entries ≡ entry
entries-64 = array_get-array_set nil_entry entry (pos 64) (pos 64) empty empty-IsArray

abbrev delivery : Decoder InputContext ℕ
delivery = bound true (packet 80 (packed32 500) ++ (3 ∷ []))

do_decode_one-delivers_example :
    Yields
      (pos 64)
      (λ d.
        SameTables delivery d
        × (At source plenty (3 ∷ []) d.reader
            × Told (entry_of (pos 64) delivery) (sample 500) delivery d))
      (do_decode_one in_action 5 (pos 0) delivery)
unfolding packed32
do_decode_one-delivers_example =
    do_decode_one-delivers source 5 (pos 0) (omega arith) 80 (pos 64) (packed32 500) (3 ∷ [])
      decode_number (sample 500) delivery (omega arith) (omega arith) (omega arith) refl refl
      (bound-IsIdle true _) bindings-80 refl (ap (λ e. e.decode) entries-64) decode_number-Decodes
      (reader-At _)

abbrev versioned : Decoder InputContext ℕ
versioned = bound false (packet tag_version (string current_version) ++ (3 ∷ []))

do_decode_one-version_example :
    Yields
      (pos tag_version)
      (λ d.
        (r : Reader InputContext) × (At source plenty (3 ∷ []) r
          × (d ≡ record versioned { reader = r; version_ok = true })))
      (do_decode_one in_action 5 (pos 0) versioned)
unfolding string
do_decode_one-version_example =
    do_decode_one-version source 5 (pos 0) (omega arith) current_version (3 ∷ []) versioned
      (
        omega arith,
        (
          omega arith,
          (
            omega arith,
            (
              omega arith,
              (
                omega arith,
                (
                  omega arith,
                  (omega arith, (omega arith, (omega arith, (omega arith, (omega arith, tt))))),
                ),
              ),
            ),
          ),
        ),
      )
      (omega arith) refl refl (reader-At _)

abbrev early : Decoder InputContext ℕ
early = bound false (packed32 80 ++ (packed32 2 ++ (1 ∷ 2 ∷ [])))

do_decode_one-early_example :
    Yields minus_econnreset
      (Moved source 5 (pos 0) (omega arith) (1 ∷ 2 ∷ []) early)
      (do_decode_one in_action 5 (pos 0) early)
do_decode_one-early_example =
    do_decode_one-early source 5 (pos 0) (omega arith) 80 2 (1 ∷ 2 ∷ []) early (omega arith)
      (omega arith) (omega arith) refl refl (reader-At _)

abbrev cut : Decoder InputContext ℕ
cut = bound true (129 ∷ [])

abbrev unbound : Decoder InputContext ℕ
unbound = bound true (1 ∷ [])
