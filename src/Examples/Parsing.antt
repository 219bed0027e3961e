-- ===== src/Examples/Parsing.antt =====
-- The theorems on the signature parser at concrete inputs: the definition of an integer `a` with
-- the id 70, and an array of two strings.
use mathlib.Core.Path.{subst}
use labcomm_core.Common.{
  drop, ◌%◌, ◌+◌, ℕ, ◌≡◌, ◌<◌, refl, true, false, some, List, [], ◌∷◌, ◌++◌, arith, length, pos,
  replicate, Yields, sym, append-nil, ◌^◌,
}
use labcomm_core.Wire.{packed32, string, tag_sample_def}
use labcomm_core.Signature.{Signature, signature, end, bytes}
use labcomm_core.Encoder.Packets.{packet, definition}
use labcomm_core.SigParser.{array_decl, SigParser, type_integer, type_string, accept_type}
use labcomm_core.SigParser.Stack.{HasStack}
use labcomm_core.SigParser.Input.{State}
use labcomm_core.SigParser.Skip.{sizeof_primitive, skip_type}
use labcomm_core.SigParser.Skip.Values.{length_bytes, skip_type-array}
use labcomm_core.SigParser.Types.{numbers, Ty, simple, array, ty, byte_size, has_var}
use labcomm_core.SigParser.Types.Structs.{accept_type-type}
use labcomm_core.SigParser.Packets.{empty_slot, accept_packet}
use labcomm_core.SigParser.Packets.Names.{with_slot}
use labcomm_core.SigParser.Packets.Samples.{IsRecordable, recorded, accept_packet-definition}

abbrev pub level : Signature
level = signature (97 ∷ []) (pos 70) (35 ∷ []) (bytes (35 ∷ []) end)

-- A parser on a buffer.
abbrev parser : List ℕ → SigParser
parser buf = record {
  c = buf;
  capacity = length buf;
  size = length buf;
  idx = 0;
  stacksize = 5;
  val_stack = [];
  val_top = 0;
  current_decl_is_varsize = false;
  max_name_len = 4;
  max_sig_len = 8;
  slots = replicate 7 empty_slot;
}

abbrev ready : List ℕ → SigParser
ready buf = record (parser buf) { val_stack = replicate 5 0; val_top = 4 }

ready-HasStack : (buf : List ℕ) → HasStack [] (ready buf)
ready-HasStack buf = record { full = refl; within = omega arith; stack = refl }

ready-State : (buf : List ℕ) → length buf < 2 ^ 31 → State [] (parser buf) buf [] false (ready buf)
ready-State buf h = record {
  has_stack = ready-HasStack buf;
  place = record {
    input = sym (append-nil buf);
    ends = omega arith;
    small = h;
    placed = omega arith;
    var_eq = refl;
    frame = refl;
  };
}

abbrev sent : List ℕ
sent = 2 ∷ (7 ∷ (70 ∷ (1 ∷ (0 ∷ (1 ∷ (97 ∷ (1 ∷ (35 ∷ []))))))))

sent_lem : sent ≡ packet tag_sample_def (definition 70 level) ++ []
unfolding packet definition packed32 string
sent_lem = refl

level-IsRecordable : IsRecordable (parser sent) 1 70 level (simple type_integer) empty_slot
unfolding packed32
level-IsRecordable = record {
  lo = omega arith;
  hi = omega arith;
  size_fits = omega arith;
  same = refl;
  deep = omega arith;
  is_ty = (omega arith, ((λ e. omega (arith, e)), (λ e. omega (arith, e))));
  slot = refl;
  name_fits = omega arith;
  sig_fits = omega arith;
}

short : length (definition 70 level) < 2 ^ 32
unfolding definition packed32 string
short = omega arith

accept_packet-definition_example :
    Yields true
      (State [] (with_slot (parser sent) 70 (recorded level empty_slot)) [] [] false)
      (accept_packet 1 (ready sent))
accept_packet-definition_example =
    accept_packet-definition [] (parser sent) 1 70 level (simple type_integer) empty_slot [] []
      false (ready sent) level-IsRecordable short (omega arith)
      (subst (λ b. State [] (parser sent) b [] false (ready sent)) sent_lem
        (ready-State sent (omega arith)))

-- Two strings.
abbrev pair : Ty
pair = array (2 ∷ []) (simple type_string)

abbrev pair_bytes : List ℕ
pair_bytes = 0x10 ∷ (1 ∷ (2 ∷ (0x27 ∷ [])))

pair_lem : pair_bytes ≡ ty pair ++ []
unfolding packed32
pair_lem = refl

accept_type-type_example :
    Yields true
      (State [] (parser pair_bytes) [] (0x10 ∷ (byte_size pair ∷ [])) (has_var pair))
      (accept_type 2 (ready pair_bytes))
accept_type-type_example =
    accept_type-type [] (parser pair_bytes) 2 pair [] [] false (ready pair_bytes) (omega arith)
      (
        omega arith,
        ((omega arith, tt), (omega arith, ((λ e. omega (arith, e)), (λ e. omega (arith, e))))),
      )
      (omega arith)
      (subst (λ b. State [] (parser pair_bytes) b [] false (ready pair_bytes)) pair_lem
        (ready-State pair_bytes (omega arith)))

three_hundred : 0x82 ∷ (0x2c ∷ []) ≡ packed32 300 ++ []
unfolding packed32
three_hundred = refl

-- Bytes in an array of a variable and a fixed dimension, three by two.
abbrev six : List ℕ
six = 1 ∷ (2 ∷ (3 ∷ (4 ∷ (5 ∷ (6 ∷ [])))))

abbrev table : List ℕ
table = 0x10 ∷ (2 ∷ (0 ∷ (2 ∷ (0x21 ∷ []))))

table_lem : drop 1 table ≡ packed32 2 ++ (numbers (0 ∷ (2 ∷ [])) ++ (packed32 0x21 ++ []))
unfolding packed32
table_lem = refl

three_lem : 3 ∷ six ≡ numbers (3 ∷ []) ++ (six ++ [])
unfolding packed32
three_lem = refl

one_byte_size : sizeof_primitive 0x21 ≡ some 1
unfolding sizeof_primitive
one_byte_size = refl

skip_type-array_example :
    Yields
      (
        (6 + length_bytes 0 (3 ∷ [])) % 2 ^ 32,
        1 + length (packed32 2) + length (numbers (0 ∷ (2 ∷ []))) + length (packed32 0x21),
      )
      (State [] (parser (3 ∷ six)) [] [] false)
      (skip_type 1 table array_decl 1 (ready (3 ∷ six)))
skip_type-array_example =
    skip_type-array [] (parser (3 ∷ six)) 1 table (0 ∷ (2 ∷ [])) (3 ∷ []) [] 0x21 1 1 six [] []
      false (ready (3 ∷ six)) (omega arith) (omega arith) (omega arith, (omega arith, tt))
      (omega arith, tt) (omega arith) one_byte_size refl refl table_lem
      (subst (λ b. State [] (parser (3 ∷ six)) b [] false (ready (3 ∷ six))) three_lem
        (ready-State (3 ∷ six) (omega arith)))
