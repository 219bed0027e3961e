-- ===== src/Wire.antt =====
-- lib/c/2014/labcomm2014_private.h, the tags of packets; and the wire format of numbers and strings
-- as plain arithmetic, which the reader and the writer are compared with.
use labcomm_core.Common.{
  ℕ, zero, suc, ◌+◌, ◌/◌, ◌%◌, ◌^◌, ◌≡◌, arith, List, [], ◌∷◌, ◌++◌, ◌==◌, if◌then◌else◌, length,
}

abbrev pub tag_version : ℕ
tag_version = 0x01

abbrev pub tag_sample_def : ℕ
tag_sample_def = 0x02

abbrev pub tag_sample_ref : ℕ
tag_sample_ref = 0x03

abbrev pub tag_type_def : ℕ
tag_type_def = 0x04

abbrev pub tag_type_binding : ℕ
tag_type_binding = 0x05

abbrev pub tag_pragma : ℕ
tag_pragma = 0x3f

abbrev pub tag_user : ℕ
tag_user = 0x40

-- LABCOMM_BIND_SELF
abbrev pub bind_self : ℕ
bind_self = 0

-- The `size` bytes of a number, highest first.
unfoldable pub word : ℕ → ℕ → List ℕ
word zero v = []
word (suc size) v = (v / 256 ^ size % 256) ∷ word size v

-- The groups of seven bits of a number, highest first, each with the top bit; none for 0.
unfoldable pub leading : ℕ → ℕ → List ℕ
leading zero v = []
leading (suc k) v = if v == 0 then [] else leading k (v / 128) ++ ((v % 128 + 128) ∷ [])

-- A number of 32 bits, packed: the last byte alone lacks the top bit.
unfoldable pub packed32 : ℕ → List ℕ
unfolding leading
packed32 v = leading 4 (v / 128) ++ ((v % 128) ∷ [])

-- A string: its length, packed, and its bytes.
unfoldable pub string : List ℕ → List ℕ
unfolding packed32
string chars = packed32 (length chars) ++ chars

pub length-word : (size v : ℕ) → length (word size v) ≡ size
unfolding word
length-word zero v = omega arith
length-word (suc size) v = omega (arith, length-word size v)
