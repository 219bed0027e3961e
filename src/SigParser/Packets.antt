-- ===== src/SigParser/Packets.antt =====
-- accept_packet and the functions below it, in
-- lib/c/2014/experimental/labcomm2014_sig_parser.c. None of VERBOSE's output is modelled.
pub mod Names
pub mod Samples
use labcomm_core.Common.{
  ℕ, zero, suc, ◌+◌, ◌-◌, ◌/◌, ◌^◌, ◌≡◌, Bool, true, false, ◌&&◌, ◌||◌, Option, none, some, List,
  [], ◌∷◌, ◌++◌, arith, ltb, leb, ◌==◌, not, if◌then◌else◌, length, set, take, drop, replicate, Cmd,
  Run, ok, halt, pure, ◌>>=◌, ◌>>◌, gets, modify, exit,
}
use labcomm_core.Wire.{
  tag_version, tag_sample_def, tag_sample_ref, tag_type_def, tag_type_binding, tag_user,
}
use labcomm_core.SigParser.{
  Slot, SigParser, first_of, or_halt, push_val, pop_val, advancen, peek_varint, get_varint,
  clear_varsize, accept_string, accept_user_id, accept_intentions, accept_type,
}

abbrev pub empty_slot : Slot
empty_slot = record {
  signatures_length = 0;
  signatures = [];
  signatures_name_length = 0;
  signatures_name = [];
  sig_size = 0;
  filled = false;
}

-- The sizes as given; `allocated` tells which of malloc and calloc for the buffer and the two
-- stacks succeed. What they return is filled with 0 here.
unfoldable pub sig_parser_init : Bool → Bool → Bool → ℕ → ℕ → ℕ → ℕ → ℕ → SigParser × ℕ
sig_parser_init c_ok val_ok ptr_ok buffer_size stacksize num_signatures max_name_len max_sig_len = (
  record {
    c = if c_ok then replicate buffer_size 0 else [];
    capacity = buffer_size;
    size = 0;
    idx = 0;
    stacksize = stacksize;
    val_stack = if val_ok then replicate stacksize 0 else [];
    val_top = stacksize - 1;
    current_decl_is_varsize = false;
    max_name_len = max_name_len;
    max_sig_len = max_sig_len;
    slots = replicate num_signatures (record empty_slot {
      signatures = replicate max_sig_len 0;
      signatures_name = replicate max_name_len 0;
    });
  },
  if c_ok && (val_ok && ptr_ok) then 0 else 1,
)

-- `got` are the bytes that fread returns, at most `capacity` of them.
unfoldable pub read_file : List ℕ → Cmd SigParser ℕ
read_file got p =
    ok (length got) (record p { c = got ++ drop (length got) p.c; size = length got; idx = 0 })

unfoldable pub more : SigParser → Bool
more p = ltb p.idx p.size

-- memcpy from the buffer.
unfoldable pub copied : ℕ → ℕ → List ℕ → Option (List ℕ)
copied start len c = if leb (start + len) (length c) then some (take len (drop start c)) else none

-- The slot of a user id, `uid - LABCOMM_USER`.
unfoldable pub get_slot : ℕ → Cmd SigParser Slot
get_slot uid p = or_halt (first_of (drop (uid - tag_user) p.slots)) p

unfoldable pub put_slot : ℕ → Slot → Cmd SigParser (Unit {0})
put_slot uid slot = modify (λ p. record p { slots = set p.slots (uid - tag_user) slot })

unfoldable pub varint_loop : ℕ → ℕ → ℕ → ℕ
varint_loop zero i res = res
varint_loop (suc k) i res = if i / 128 == 0 then res else varint_loop k (i / 128) (res + 1)

-- An `unsigned int` is used up in five rounds.
unfoldable pub varint_sizeof : ℕ → ℕ
varint_sizeof i = if ltb i 128 then 1 else varint_loop 5 i 1

unfoldable pub store_name : ℕ → ℕ → ℕ → Cmd SigParser (Unit {0})
store_name uid start nlen = get_slot uid >>= λ slot.
    (λ p. or_halt (copied start nlen p.c) p) >>= λ name. put_slot uid (record slot {
      signatures_name_length = nlen;
      signatures_name = name ++ (0 ∷ drop (nlen + 1) slot.signatures_name);
    })

unfoldable pub store_signature : ℕ → ℕ → ℕ → Cmd SigParser (Unit {0})
store_signature uid start len = get_slot uid >>= λ slot.
    (λ p. or_halt (copied start len p.c) p) >>= λ bytes. put_slot uid (record slot {
      signatures_length = len;
      signatures = bytes ++ drop len slot.signatures;
      sig_size = len;
      filled = true;
    })

-- `end - start` of two `unsigned int`.
abbrev pub span : ℕ → ℕ → ℕ
span end start = if leb start end then end - start else end + 2 ^ 32 - start

unfoldable pub accept_signature : ℕ → ℕ → ℕ → ℕ → Cmd SigParser Bool
accept_signature fuel type start uid =
    get_varint
    >> (accept_type fuel
        >> (pop_val
            >> (pop_val
                >> (if type == tag_sample_def
                    then (λ p.
                        let len = span p.idx start in
                        if leb len p.max_sig_len
                        then (store_signature uid start len >> pure true) p
                        else halt)
                    else if (type == tag_sample_ref) || (type == tag_type_def)
                    then pure true
                    else exit))))

-- accept_decl behind the intentions.
unfoldable pub accept_named : ℕ → ℕ → ℕ → ℕ → Cmd SigParser Bool
accept_named fuel type uid start = pop_val >>= λ nstart. pop_val >>= λ nlen.
    if type == tag_sample_def
    then (λ p.
        if ltb nlen p.max_name_len
        then (store_name uid (nstart + varint_sizeof nlen) nlen
              >> accept_signature fuel type start uid)
            p
        else halt)
    else accept_signature fuel type start uid

unfoldable pub accept_decl : ℕ → ℕ → Cmd SigParser Bool
accept_decl fuel type =
    accept_user_id
    >> (pop_val >>= λ uid.
        accept_intentions >> (gets (λ p. p.idx) >>= λ start. accept_named fuel type uid start))

-- SKIP_BY_PARSING is not defined.
unfoldable pub accept_sample_data : Cmd SigParser Bool
accept_sample_data =
    accept_user_id >> (pop_val >> (get_varint >>= λ len. advancen len >> pure true))

unfoldable pub accept_packet : ℕ → Cmd SigParser Bool
accept_packet fuel = peek_varint >>= λ r.
    let type = r.0 in
    if type == tag_version
    then (advancen r.1 >> (get_varint >> (accept_string >> (pop_val >> pure true))))
    else if (type == tag_sample_def) || ((type == tag_sample_ref) || (type == tag_type_def))
    then (clear_varsize >> (advancen r.1 >> (get_varint >> (accept_decl fuel type >> pure true))))
    else if type == tag_type_binding
    then (advancen r.1 >> (get_varint >> (get_varint >> (get_varint >> pure true))))
    else if leb tag_user type
    then (accept_sample_data >> pure true)
    else (get_varint >>= λ len. advancen len >> pure true)
