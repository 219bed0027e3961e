-- ===== src/SigParser/Skip.antt =====
-- lib/c/2014/experimental/labcomm2014_sig_parser.c: passing over a sample by its signature, the
-- variant that prints. `pos` is the place in the signature; a read behind its end is `halt`.
pub mod Values
use labcomm_core.Common.{
  ℕ, zero, suc, ◌+◌, ◌*◌, ◌%◌, ◌^◌, ◌≡◌, Bool, true, false, ◌||◌, Option, none, some, List, [], ◌∷◌,
  ltb, ◌==◌, if◌then◌else◌, length, drop, Cmd, Run, ok, halt, out_of_fuel, pure, ◌>>=◌, ◌>>◌, exit,
  to_int,
}
use labcomm_core.Reader.{rounds}
use labcomm_core.SigParser.{
  SigParser, first_of, or_halt, advancen, unpack_varint, peek_varint, array_decl, struct_decl,
  type_boolean, type_byte, type_short, type_integer, type_long, type_float, type_double,
  type_string, type_sample_ref,
}

-- For another type it ends the process.
unfoldable pub sizeof_primitive : ℕ → Option ℕ
sizeof_primitive type =
    if (type == type_boolean) || (type == type_byte)
    then some 1
    else if type == type_short
    then some 2
    else if (type == type_integer) || ((type == type_float) || (type == type_sample_ref))
    then some 4
    else if (type == type_long) || (type == type_double)
    then some 8
    else none

-- `get`, whose byte is only printed.
unfoldable pub get : Cmd SigParser ℕ
get = (λ p. or_halt (first_of (drop p.idx p.c)) p) >>= λ b. advancen 1 >> pure b

unfoldable pub get_many : ℕ → Cmd SigParser (Unit {0})
get_many zero = pure tt
get_many (suc n) = get >> get_many n

-- A number, and how many bytes it took.
unfoldable pub get_varint_size : Cmd SigParser (ℕ × ℕ)
get_varint_size = peek_varint >>= λ r. advancen r.1 >> pure r

unfoldable pub sig_varint : List ℕ → ℕ → Cmd SigParser (ℕ × ℕ)
sig_varint sig pos = or_halt (unpack_varint sig pos)

-- The dimensions: the place behind them, how many are variable, and the product of the others.
unfoldable pub skip_indices : List ℕ → ℕ → ℕ → ℕ → ℕ → Cmd SigParser (ℕ × (ℕ × ℕ))
skip_indices sig zero pos n_var total = pure (pos, (n_var, total))
skip_indices sig (suc n) pos n_var total = sig_varint sig pos >>= λ r.
    skip_indices sig n (pos + r.1) (if r.0 == 0 then n_var + 1 else n_var)
      (if r.0 == 0 then total else total * r.0 % 2 ^ 32)

-- The lengths in the sample: how many bytes they take, in an `unsigned char`, and the product.
unfoldable pub skip_lengths : ℕ → ℕ → ℕ → Cmd SigParser (ℕ × ℕ)
skip_lengths zero var_size total = pure (var_size, total)
skip_lengths (suc n) var_size total =
    get_varint_size >>= λ r. skip_lengths n ((var_size + r.1) % 2 ^ 8) (total * r.0 % 2 ^ 32)

-- How many bytes have been passed over, and the place in the signature.
unfoldable pub skip_array : List ℕ → ℕ → Cmd SigParser (ℕ × ℕ)
skip_array sig pos = sig_varint sig pos >>= λ n_idx.
    skip_indices sig n_idx.0 (pos + n_idx.1) 0 1 >>= λ dims.
    skip_lengths dims.1.0 0 dims.1.1 >>= λ lengths. sig_varint sig dims.0 >>= λ type.
    or_halt (sizeof_primitive type.0) >>= λ elem_size.
    advancen (elem_size * lengths.1 % 2 ^ 32)
    >> pure ((elem_size * lengths.1 % 2 ^ 32 + lengths.0) % 2 ^ 32, dims.0 + type.1)

module _ (skip : ℕ → ℕ → Cmd SigParser (ℕ × ℕ)) (sig : List ℕ) where
  unfoldable pub skip_fields : ℕ → ℕ → ℕ → Cmd SigParser (ℕ × ℕ)
  skip_fields zero pos skipped = pure (skipped, pos)
  skip_fields (suc n) pos skipped = sig_varint sig pos >>= λ namelen.
      sig_varint sig (pos + (namelen.1 + namelen.0)) >>= λ type.
      skip type.0 (pos + (namelen.1 + namelen.0) + type.1) >>= λ r.
      skip_fields n r.1 ((skipped + r.0) % 2 ^ 32)

  unfoldable pub skip_struct : ℕ → Cmd SigParser (ℕ × ℕ)
  skip_struct pos = sig_varint sig pos >>= λ n. skip_fields n.0 (pos + n.1) 0

unfoldable pub skip_fixed : ℕ → ℕ → Cmd SigParser (ℕ × ℕ)
skip_fixed n pos = advancen n >> pure (n, pos)

-- The fuel bounds the nesting of structs. The length of a string is an `int`, which the loop counts
-- up to.
unfoldable pub skip_type : ℕ → List ℕ → ℕ → ℕ → Cmd SigParser (ℕ × ℕ)
skip_type zero sig type pos = λ p. out_of_fuel
skip_type (suc fuel) sig type pos =
    let inner = skip_type fuel sig in
    if (type == type_boolean) || (type == type_byte)
    then (get >> pure (1, pos))
    else if type == type_short
    then skip_fixed 2 pos
    else if type == type_integer
    then (get >> (get >> (get >> (get >> pure (4, pos)))))
    else if type == type_float
    then skip_fixed 4 pos
    else if (type == type_long) || (type == type_double)
    then skip_fixed 8 pos
    else if type == type_string
    then (get_varint_size >>= λ r.
        get_many (rounds (to_int r.0)) >> pure ((r.0 + r.1) % 2 ^ 32, pos))
    else if type == array_decl
    then skip_array sig pos
    else if type == struct_decl
    then skip_struct inner sig pos
    else exit

-- `rounds` bounds the types that stand one behind the other.
unfoldable pub skip_loop : ℕ → ℕ → List ℕ → ℕ → Cmd SigParser (Unit {0})
skip_loop fuel zero sig pos = λ p. out_of_fuel
skip_loop fuel (suc rounds) sig pos =
    if ltb pos (length sig)
    then (sig_varint sig pos >>= λ type.
        skip_type fuel sig type.0 (pos + type.1) >>= λ r. skip_loop fuel rounds sig r.1)
    else pure tt

unfoldable pub skip_packed_sample_data : ℕ → ℕ → List ℕ → Cmd SigParser Bool
skip_packed_sample_data fuel rounds sig = skip_loop fuel rounds sig 0 >> pure true
