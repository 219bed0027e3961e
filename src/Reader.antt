-- ===== src/Reader.antt =====
-- lib/c/2014/labcomm2014_private.h, the reader: `struct labcomm2014_reader`, its action table, and
-- the functions labcomm2014_read_* that take bytes from its buffer and fill it when it is empty.
pub mod Packed
pub mod Source
pub mod Strings
pub mod Words
use labcomm_core.Common.{
  ℕ, zero, suc, ◌+◌, ◌-◌, ◌*◌, ◌%◌, ◌^◌, Bool, Option, none, some, List, [], ◌∷◌, ltb, leb,
  if◌then◌else◌, get_or, ℤ, pos, negsuc, is_neg, is_nonzero, to_int, Run, Cmd, ok, out_of_fuel,
  pure, gets, ◌>>=◌,
}

-- `memory` says which sizes an allocation is given; `context` is what the actions keep for themselves.
pub record Reader (C : Type 0) : Type 0 where
  pub buf : List ℕ
  pub data_size : ℕ
  pub count : ℕ
  pub pos : ℕ
  pub error : ℤ
  pub memory : ℕ → Bool
  pub context : C

-- `struct labcomm2014_reader_action`; `start` is given the local and the remote index and whether
-- there is a value.
pub record ReaderAction (C : Type 0) : Type 0 where
  pub alloc : Reader C → Reader C × ℤ
  pub free : Reader C → Reader C × ℤ
  pub start : ℤ → ℤ → Bool → Reader C → Reader C × ℤ
  pub finish : Reader C → Reader C × ℤ
  pub fill : Reader C → Reader C × ℤ

-- `result[i] = r->data[r->pos]; r->pos++`: what stands behind the buffer is some byte.
abbrev taken : {C : Type 0} → Reader C → Run (Reader C) (Option ℕ)
taken r = ok (some (get_or r.buf r.pos 0)) (record r { pos = r.pos + 1 })

-- The C size of an allocation of `length + 1` bytes: the sum is an `int` and becomes a `size_t`.
abbrev pub size_plus_one : ℤ → ℕ
size_plus_one (pos n) = n + 1
size_plus_one (negsuc zero) = 0
size_plus_one (negsuc (suc n)) = 2 ^ 64 - suc n

-- How often `for (i = 0 ; i < length ; i++)` goes round.
abbrev pub rounds : ℤ → ℕ
rounds (pos n) = n
rounds (negsuc n) = 0

module _ {C : Type 0} (act : ReaderAction C) where
  -- The part that all loops share: fill an empty buffer, stop if the fill failed by the caller's
  -- test (`none`), and take a byte.
  pub next_byte : (ℤ → Bool) → Cmd (Reader C) (Option ℕ)
  next_byte failed r =
      let r' = (act.fill r).0 in
      if leb r.count r.pos then (if failed r'.error then ok none r' else taken r') else taken r

  -- LABCOMM_DECODE on a little endian machine: bytes `i - 1` down to 0 of the result.
  read_word_loop : ℕ → ℕ → Cmd (Reader C) ℕ
  read_word_loop zero result = pure result
  read_word_loop (suc i) result = do
    b ← next_byte is_neg
    elim b [ none ↦ pure 0 | some x ↦ read_word_loop i (result + x * 256 ^ i) ]

  -- labcomm2014_read_boolean, _byte, _short, _int, _long, _float and _double, by their size.
  pub read_word : ℕ → Cmd (Reader C) ℕ
  unfolding read_word_loop
  read_word size = read_word_loop size 0

  pub read_byte : Cmd (Reader C) ℕ
  unfolding read_word
  read_byte = read_word 1

  -- `result = (result << 7) | (tmp & 0x7f)`, until a byte without the top bit.
  read_packed32_loop : ℕ → ℕ → Cmd (Reader C) ℕ
  read_packed32_loop zero result = λ _. out_of_fuel
  read_packed32_loop (suc fuel) result = do
    b ← next_byte is_nonzero
    elim b [
      | none ↦ pure result
      | some tmp ↦
          let result' = (result * 128 + tmp % 128) % 2 ^ 32 in
          if ltb tmp 128 then pure result' else read_packed32_loop fuel result'
    ]

  -- The bytes of a string, up to the first failure.
  read_chars : ℕ → Cmd (Reader C) (List ℕ)
  read_chars zero = pure []
  read_chars (suc n) = do
    b ← next_byte is_neg
    elim b [ none ↦ pure [] | some x ↦ (do rest ← read_chars n; pure (x ∷ rest)) ]

  module _ (fuel : ℕ) where
    pub read_packed32 : Cmd (Reader C) ℕ
    unfolding read_packed32_loop
    read_packed32 = read_packed32_loop fuel 0

    -- `none` is NULL.
    pub read_string : Cmd (Reader C) (Option (List ℕ))
    unfolding read_packed32 read_chars
    read_string = do
      length ← read_packed32
      memory ← gets (λ r. r.memory)
      if memory (size_plus_one (to_int length))
          then (do chars ← read_chars (rounds (to_int length)); pure (some chars))
          else pure none
