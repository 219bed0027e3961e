-- ===== src/SigParser.antt =====
-- lib/c/2014/experimental/labcomm2014_sig_parser.c and .h: the buffer, the value stack, and the
-- parser of packets and signatures. An access outside an array is `halt`, like error().
pub mod Skip
pub mod Stack
pub mod Input
pub mod Types
pub mod Packets
use labcomm_core.Common.{
  ℕ, zero, suc, ◌+◌, ◌-◌, ◌*◌, ◌/◌, ◌%◌, ◌^◌, ◌≡◌, Bool, true, false, ◌&&◌, ◌||◌, Option, none,
  some, List, [], ◌∷◌, ◌++◌, arith, ltb, leb, ◌==◌, if◌then◌else◌, length, set, take, drop,
  replicate, Cmd, Run, ok, halt, out_of_fuel, pure, ◌>>=◌, ◌>>◌, gets, modify, exit,
}
use labcomm_core.Wire.{
  tag_version, tag_sample_def, tag_sample_ref, tag_type_def, tag_type_binding, tag_user,
}

abbrev pub array_decl : ℕ
array_decl = 0x10

abbrev pub struct_decl : ℕ
struct_decl = 0x11

abbrev pub type_boolean : ℕ
type_boolean = 0x20

abbrev pub type_byte : ℕ
type_byte = 0x21

abbrev pub type_short : ℕ
type_short = 0x22

abbrev pub type_integer : ℕ
type_integer = 0x23

abbrev pub type_long : ℕ
type_long = 0x24

abbrev pub type_float : ℕ
type_float = 0x25

abbrev pub type_double : ℕ
type_double = 0x26

abbrev pub type_string : ℕ
type_string = 0x27

abbrev pub type_sample_ref : ℕ
type_sample_ref = 0x28

-- What the arrays of the parser hold for one user id. `sig_size` is the field of the signature;
-- `filled` tells whether its pointers have been set, to the two buffers here.
pub record Slot : Type 0 where
  pub signatures_length : ℕ
  pub signatures : List ℕ
  pub signatures_name_length : ℕ
  pub signatures_name : List ℕ
  pub sig_size : ℕ
  pub filled : Bool

-- The stack of pointers is not used, as RETURN_STRINGS is not defined.
pub record SigParser : Type 0 where
  pub c : List ℕ
  pub capacity : ℕ
  pub size : ℕ
  pub idx : ℕ
  pub stacksize : ℕ
  pub val_stack : List ℕ
  pub val_top : ℕ
  pub current_decl_is_varsize : Bool
  pub max_name_len : ℕ
  pub max_sig_len : ℕ
  pub slots : List Slot

-- The element at the front of what is left of an array.
abbrev pub first_of : {A : Type 0} → List A → Option A
first_of [] = none
first_of (x ∷ xs) = some x

abbrev pub or_halt : {A : Type 0} → Option A → Cmd SigParser A
or_halt none p = halt
or_halt (some a) p = ok a p

-- The stack grows towards index 0; the write that would take its top to -1 is followed by error().
pub push_val : ℕ → Cmd SigParser (Unit {0})
push_val e p =
    if p.val_top == 0
    then halt
    else ok tt (record p { val_stack = set p.val_stack p.val_top e; val_top = p.val_top - 1 })

pub pop_val : Cmd SigParser ℕ
pop_val p =
    let top = p.val_top + 1 in
    if ltb p.stacksize top
    then halt
    else or_halt (first_of (drop top p.val_stack)) (record p { val_top = top })

-- `idx` is an `int`; where it would be negative every access is outside the buffer.
pub advancen : ℕ → Cmd SigParser (Unit {0})
advancen n p =
    let i = (p.idx + n) % 2 ^ 32 in if ltb i (2 ^ 31) then ok tt (record p { idx = i }) else halt

-- The value and the number of bytes of a number of groups of seven bits.
unfoldable pub unpack_loop : ℕ → ℕ → List ℕ → Option (ℕ × ℕ)
unpack_loop res i [] = none
unpack_loop res i (b ∷ rest) =
    let res' = (res * 128 + b % 128) % 2 ^ 32 in
    let more = unpack_loop res' (i + 1) rest in
    if b / 128 % 2 == 0 then some (res', i + 1) else more

unfoldable pub unpack_varint : List ℕ → ℕ → Option (ℕ × ℕ)
unpack_varint buf idx = unpack_loop 0 0 (drop idx buf)

pub peek_varint : Cmd SigParser (ℕ × ℕ)
peek_varint p = or_halt (unpack_varint p.c p.idx) p

pub get_varint : Cmd SigParser ℕ
get_varint = peek_varint >>= λ r. advancen r.1 >> pure r.0

-- `rem` is an `int`, and negative behind the end: as a size_t that is more than any length.
unfoldable pub str_size : ℕ → ℕ → ℕ → ℕ
str_size len size idx =
    if ltb size idx then len else if ltb (size - idx) len then size - idx else len

pub get_str : ℕ → Cmd SigParser (Unit {0})
get_str len p = advancen (str_size len p.size p.idx) p

pub set_varsize : Cmd SigParser (Unit {0})
set_varsize = modify (λ p. record p { current_decl_is_varsize = true })

pub clear_varsize : Cmd SigParser (Unit {0})
clear_varsize = modify (λ p. record p { current_decl_is_varsize = false })

pub accept_string : Cmd SigParser Bool
accept_string = get_varint >>= λ len. get_str len >> (push_val len >> pure true)

-- An `int`, so that ids from 2^31 on are less than LABCOMM_USER.
pub accept_user_id : Cmd SigParser Bool
accept_user_id = peek_varint >>= λ r.
    if ltb r.0 tag_user || leb (2 ^ 31) r.0
    then exit
    else (advancen r.1 >> (push_val r.0 >> pure true))

unfoldable pub intentions_loop : ℕ → ℕ → ℕ → Cmd SigParser (ℕ × ℕ)
intentions_loop zero npos nlen = pure (npos, nlen)
intentions_loop (suc num) npos nlen =
    accept_string
    >> (pop_val >>= λ klen. gets (λ p. p.idx) >>= λ here.
        accept_string
        >> (pop_val >>= λ vlen.
            intentions_loop num (if klen == 0 then here else npos)
              (if klen == 0 then vlen else nlen)))

pub accept_intentions : Cmd SigParser Bool
accept_intentions = get_varint >>= λ num.
    intentions_loop num 0 0 >>= λ r. push_val r.1 >> (push_val r.0 >> pure true)

-- The numbers of an array's dimensions: how many are 0, and the product of the others.
unfoldable pub indices_loop : ℕ → ℕ → ℕ → Cmd SigParser (ℕ × ℕ)
indices_loop zero num_var size = pure (num_var, size)
indices_loop (suc n) num_var size = get_varint >>= λ idx.
    (if idx == 0 then set_varsize else pure tt)
    >> indices_loop n (if idx == 0 then num_var + 1 else num_var)
        (if idx == 0 then size else size * idx % 2 ^ 32)

module _ (accept_type : Cmd SigParser Bool) where
  pub accept_array_decl : Cmd SigParser Bool
  accept_array_decl = peek_varint >>= λ r.
      if r.0 == array_decl
      then (advancen r.1
          >> (get_varint >>= λ nidx. indices_loop nidx 0 1 >>= λ dims.
              accept_type
              >> (pop_val >>= λ et. pop_val >>= λ es.
                  push_val (if dims.0 == 0 then dims.1 * es % 2 ^ 32 else 0)
                  >> (push_val et >> pure true))))
      else (push_val 0 >> (push_val r.0 >> pure false))

  pub accept_field : Cmd SigParser Bool
  accept_field =
      accept_intentions >> (pop_val >> (pop_val >> (accept_type >> (pop_val >> pure true))))

  unfoldable pub fields_loop : ℕ → ℕ → Cmd SigParser ℕ
  fields_loop zero fieldsizes = pure fieldsizes
  fields_loop (suc nf) fieldsizes =
      accept_field >> (pop_val >>= λ size. fields_loop nf ((fieldsizes + size) % 2 ^ 32))

  pub accept_struct_decl : Cmd SigParser Bool
  accept_struct_decl = peek_varint >>= λ r.
      if r.0 == struct_decl
      then (advancen r.1
          >> (get_varint >>= λ nf. fields_loop nf 0 >>= λ sizes. push_val sizes >> pure true))
      else (push_val 0 >> pure false)

-- The sizes that accept_type pushes; for a string it pushes 0, and for a user type too.
unfoldable pub pushed_size : ℕ → Option ℕ
pushed_size type =
    if (type == type_boolean) || (type == type_byte)
    then some 1
    else if type == type_short
    then some 2
    else if (type == type_integer) || ((type == type_float) || (type == type_sample_ref))
    then some 4
    else if (type == type_long) || (type == type_double)
    then some 8
    else if type == type_string
    then some 0
    else none

pub accept_primitive : ℕ → ℕ → Option ℕ → Cmd SigParser Bool
accept_primitive type nbytes (some size) =
    advancen nbytes
    >> ((if type == type_string then set_varsize else pure tt)
        >> (push_val size >> (push_val type >> pure true)))
accept_primitive type nbytes none = advancen nbytes >> (push_val 0 >> (push_val type >> pure false))

-- The fuel bounds the nesting of the type.
unfoldable pub accept_type : ℕ → Cmd SigParser Bool
accept_type zero p = out_of_fuel
accept_type (suc fuel) p =
    let inner = accept_type fuel in
    (peek_varint >>= λ r.
    if r.0 == array_decl
    then (accept_array_decl inner >> (pop_val >> (push_val r.0 >> pure true)))
    else if r.0 == struct_decl
    then (accept_struct_decl inner >> (push_val r.0 >> pure true))
    else accept_primitive r.0 r.1 (pushed_size r.0))
      p
