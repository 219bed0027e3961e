-- ===== src/Writer.antt =====
-- lib/c/2014/labcomm2014_private.h, the writer: `struct labcomm2014_writer`, its action table, and
-- the functions labcomm2014_write_* that put bytes into its buffer and flush it when it is full.
pub mod Numbers
pub mod Sink
pub mod Sizes
use labcomm_core.Common.{
  ℕ, zero, suc, ◌+◌, ◌-◌, ◌*◌, ◌/◌, ◌%◌, ◌^◌, Bool, List, [], ◌∷◌, leb, ◌==◌, if◌then◌else◌, length,
  get_or, set, ℤ, pos, is_nonzero,
}

pub record Writer (C : Type 0) : Type 0 where
  pub buf : List ℕ
  pub data_size : ℕ
  pub count : ℕ
  pub pos : ℕ
  pub error : ℤ
  pub memory : ℕ → Bool
  pub context : C

-- `struct labcomm2014_writer_action`; `start` is given the index and whether there is a value.
pub record WriterAction (C : Type 0) : Type 0 where
  pub alloc : Writer C → Writer C × ℤ
  pub free : Writer C → Writer C × ℤ
  pub start : ℤ → Bool → Writer C → Writer C × ℤ
  pub finish : Writer C → Writer C × ℤ
  pub flush : Writer C → Writer C × ℤ

-- `w->data[w->pos] = b; w->pos++`
abbrev pub stored : {C : Type 0} → ℕ → Writer C → Writer C
stored b w = record w { buf = set w.buf w.pos b; pos = w.pos + 1 }

-- The loop `for (i = 0 ; i == 0 || data ; i++, data = (data >> 7)) tmp[i] = data & 0x7f`, for at
-- most as many rounds as `tmp` has elements.
unfoldable pub groups : ℕ → ℕ → List ℕ
groups zero v = []
groups (suc k) v = (v % 128) ∷ (if v / 128 == 0 then [] else groups k (v / 128))

-- `unsigned char tmp[5]`
abbrev pub tmp_size : ℕ
tmp_size = 5

size_packed32_loop : ℕ → ℕ → ℕ → ℕ
size_packed32_loop zero v result = result
size_packed32_loop (suc k) v result =
    if v / 128 == 0 then result + 1 else size_packed32_loop k (v / 128) (result + 1)

-- labcomm2014_size_packed32; an `unsigned int` is used up in five rounds.
unfoldable pub size_packed32 : ℕ → ℕ
unfolding size_packed32_loop
size_packed32 v = size_packed32_loop 5 v 0

-- labcomm2014_size_string. A C string is the list of its bytes before the NUL.
unfoldable pub size_string : List ℕ → ℕ
size_string s = size_packed32 (length s) + length s

module _ {C : Type 0} (act : WriterAction C) where
  -- The part that all loops share: flush a full buffer, return its error, and store a byte.
  pub put_byte : ℕ → Writer C → Writer C × ℤ
  put_byte b w =
      let (w', err) = act.flush w in
      if leb w.count w.pos
      then (if is_nonzero err then (w', err) else (stored b w', pos 0))
      else (stored b w, pos 0)

  -- The same where the code does not look at the result of the flush.
  pub put_byte_unchecked : ℕ → Writer C → Writer C
  put_byte_unchecked b w = if leb w.count w.pos then stored b (act.flush w).0 else stored b w

  -- LABCOMM_ENCODE on a little endian machine: bytes `i - 1` down to 0 of the value.
  pub write_word : ℕ → ℕ → Writer C → Writer C × ℤ
  write_word zero v w = (w, pos 0)
  write_word (suc i) v w =
      let (w', err) = put_byte (v / 256 ^ i % 256) w in
      if is_nonzero err then (w', err) else write_word i v w'

  -- `for (i = i - 1 ; i >= 0 ; i--)` over `tmp`; the first `i` is the number of groups.
  write_groups : List ℕ → ℕ → Writer C → Writer C × ℤ
  write_groups tmp zero w = (w, pos 0)
  write_groups tmp (suc i) w =
      let (w', err) = put_byte (get_or tmp i 0 + (if i == 0 then 0 else 128)) w in
      if is_nonzero err then (w', err) else write_groups tmp i w'

  pub write_packed32 : ℕ → Writer C → Writer C × ℤ
  unfolding write_groups
  write_packed32 v w = let tmp = groups tmp_size v in write_groups tmp (length tmp) w

  write_chars : List ℕ → Writer C → Writer C × ℤ
  write_chars [] w = (w, pos 0)
  write_chars (x ∷ xs) w =
      let (w', err) = put_byte x w in if is_nonzero err then (w', err) else write_chars xs w'

  pub write_string : List ℕ → Writer C → Writer C × ℤ
  unfolding write_packed32 write_chars
  write_string s w =
      let (w', err) = write_packed32 (length s) w in
      if is_nonzero err then (w', err) else write_chars s w'
