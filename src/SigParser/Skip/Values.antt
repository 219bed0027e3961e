-- ===== src/SigParser/Skip/Values.antt =====
-- skip_type on values: it stops behind a number, a string, or an array of numbers.
use mathlib.Core.Path.{subst}
use labcomm_core.Common.{
  ℕ, zero, suc, ◌+◌, ◌*◌, ◌%◌, ◌^◌, ◌<◌, ◌≡◌, refl, sym, ap, ◌∙◌, Bool, some, List, [], ◌∷◌, ◌++◌,
  append_assoc, arith, ◌==◌, if◌then◌else◌, length, length-append, drop, drop-drop, ok, All, Yields,
  yields, bind, to_int-small,
}
use labcomm_core.Wire.{packed32, string}
use labcomm_core.SigParser.{SigParser, type_string, array_decl}
use labcomm_core.SigParser.Input.{
  State, advancen-State, peek_varint_lem, unpack_varint-packed32, string-append, drop-append_length,
}
use labcomm_core.SigParser.Types.{numbers, zeros, product}
use labcomm_core.SigParser.Skip.{
  sizeof_primitive, get, get_many, get_varint_size, sig_varint, skip_indices, skip_lengths,
  skip_array, skip_type,
}

-- How many bytes the lengths in a sample take, in an `unsigned char`.
abbrev pub length_bytes : ℕ → List ℕ → ℕ
length_bytes n [] = n
length_bytes n (d ∷ ds) = length_bytes ((n + length (packed32 d)) % 2 ^ 8) ds

abbrev pub times : ℕ → List ℕ → ℕ
times n [] = n
times n (d ∷ ds) = times (n * d % 2 ^ 32) ds

drop_behind :
    (pos : ℕ) (xs rest sig : List ℕ) → drop pos sig ≡ xs ++ rest → drop (pos + length xs) sig ≡ rest
drop_behind pos xs rest sig h =
    sym (drop-drop (length xs) pos sig)
    ∙ (ap (λ t. drop (length xs) t) h ∙ drop-append_length xs rest)

sig_varint_lem :
    (v pos : ℕ) (sig rest : List ℕ) (p : SigParser)
    → v < 2 ^ 32
    → drop pos sig ≡ packed32 v ++ rest
    → sig_varint sig pos p ≡ ok (v, length (packed32 v)) p
unfolding sig_varint
sig_varint_lem v pos sig rest p fits h = rw (unpack_varint-packed32 v pos sig rest fits h) refl

skip_indices_lem :
    (dims : List ℕ) (pos n total : ℕ) (sig rest : List ℕ) (p : SigParser)
    → All (λ d. d < 2 ^ 32) dims
    → drop pos sig ≡ numbers dims ++ rest
    → skip_indices sig (length dims) pos n total p
      ≡ ok (pos + length (numbers dims), (zeros n dims, product total dims)) p
unfolding skip_indices
skip_indices_lem [] pos n total sig rest p all h = let z : pos + 0 ≡ pos = omega arith in rw z refl
skip_indices_lem (d ∷ ds) pos n total sig rest p (fits, all) h =
    let h1 = h ∙ append_assoc (packed32 d) (numbers ds) rest in
    let h2 = drop_behind pos (packed32 d) (numbers ds ++ rest) sig h1 in
    let e : pos + length (packed32 d) + length (numbers ds)
        ≡ pos + length (packed32 d ++ numbers ds) =
      omega (arith, length-append (packed32 d) (numbers ds)) in
    rw (sig_varint_lem d pos sig (numbers ds ++ rest) p fits h1) (
      skip_indices_lem ds (pos + length (packed32 d)) _ _ sig rest p all h2
      ∙ ap
          (λ (x : ℕ).
            ok
              (
                x,
                (
                  zeros (if d == 0 then n + 1 else n) ds,
                  product (if d == 0 then total else total * d % 2 ^ 32) ds,
                ),
              )
              p)
          e)

module _ (junk : List ℕ) (f : SigParser) where
  get-State :
      (x : ℕ) (bytes st : List ℕ) (var : Bool) (p : SigParser)
      → State junk f (x ∷ bytes) st var p
      → Yields x (State junk f bytes st var) (get p)
  unfolding get
  get-State x bytes st var p s =
      rw s.place.input
        (bind _ (advancen-State junk f (x ∷ []) bytes st var p s) (λ p1 s1. yields s1))

  get_many-State :
      (xs bytes st : List ℕ) (var : Bool) (p : SigParser)
      → State junk f (xs ++ bytes) st var p
      → Yields tt (State junk f bytes st var) (get_many (length xs) p)
  unfolding get_many
  get_many-State [] bytes st var p s = yields s
  get_many-State (x ∷ xs) bytes st var p s =
      bind _ (get-State x (xs ++ bytes) st var p s) (λ p1 s1. get_many-State xs bytes st var p1 s1)

  get_varint_size-State :
      (v : ℕ) (bytes st : List ℕ) (var : Bool) (p : SigParser)
      → v < 2 ^ 32
      → State junk f (packed32 v ++ bytes) st var p
      → Yields (v, length (packed32 v)) (State junk f bytes st var) (get_varint_size p)
  unfolding get_varint_size
  get_varint_size-State v bytes st var p fits s =
      rw (peek_varint_lem junk f v bytes st var p fits s)
        (bind _ (advancen-State junk f (packed32 v) bytes st var p s) (λ p1 s1. yields s1))

  skip_lengths-State :
      (lens : List ℕ) (n total : ℕ) (bytes st : List ℕ) (var : Bool) (p : SigParser)
      → All (λ d. d < 2 ^ 32) lens
      → State junk f (numbers lens ++ bytes) st var p
      → Yields
          (length_bytes n lens, times total lens)
          (State junk f bytes st var)
          (skip_lengths (length lens) n total p)
  unfolding skip_lengths
  skip_lengths-State [] n total bytes st var p all s = yields s
  skip_lengths-State (d ∷ ds) n total bytes st var p (fits, all) s =
      bind _
        (get_varint_size-State d (numbers ds ++ bytes) st var p fits
          (subst (λ b. State junk f b st var p) (append_assoc (packed32 d) (numbers ds) bytes) s))
        (λ p1 s1. skip_lengths-State ds _ _ bytes st var p1 all s1)

  pub skip_type-string :
      (fuel : ℕ) (sig : List ℕ) (pos : ℕ) (xs bytes st : List ℕ) (var : Bool) (p : SigParser)
      → 0 < fuel
      → length xs + length (packed32 (length xs)) < 2 ^ 31
      → State junk f (string xs ++ bytes) st var p
      → Yields
          (length xs + length (packed32 (length xs)), pos)
          (State junk f bytes st var)
          (skip_type fuel sig type_string pos p)
  unfolding skip_type
  skip_type-string zero sig pos xs bytes st var p room low s = absurd (omega arith)
  skip_type-string (suc fuel) sig pos xs bytes st var p room low s =
      let fits : length xs < 2 ^ 31 = omega (arith, low) in
      let sum : (length xs + length (packed32 (length xs))) % 2 ^ 32
          ≡ length xs + length (packed32 (length xs)) =
        omega (arith, low) in
      bind _
        (get_varint_size-State (length xs) (xs ++ bytes) st var p (omega (arith, fits))
          (subst (λ b. State junk f b st var p) (string-append xs bytes) s))
        (λ p1 s1.
          rw (to_int-small (length xs) fits, sum)
            (bind _ (get_many-State xs bytes st var p1 s1) (λ p2 s2. yields s2)))

  -- Before a sample of an array type, whose elements are of a primitive type with a fixed size
  -- and whose numbers have 32 bits: with the lengths of the variable dimensions and behind them
  -- the bytes of all elements, skip_type stops behind the elements and behind the type in the
  -- signature, and returns the number of bytes passed over, that of the lengths modulo 2^8 and
  -- the sum modulo 2^32.
  pub skip_type-array :
      (fuel : ℕ) (sig dims lens rest : List ℕ) (type size pos : ℕ) (data_bytes bytes st : List ℕ)
      (var : Bool) (p : SigParser)
      → 0 < fuel
      → length dims < 2 ^ 32
      → All (λ d. d < 2 ^ 32) dims
      → All (λ d. d < 2 ^ 32) lens
      → type < 2 ^ 32
      → sizeof_primitive type ≡ some size
      → length lens ≡ zeros 0 dims
      → length data_bytes ≡ size * times (product 1 dims) lens % 2 ^ 32
      → drop pos sig ≡ packed32 (length dims) ++ (numbers dims ++ (packed32 type ++ rest))
      → State junk f (numbers lens ++ (data_bytes ++ bytes)) st var p
      → Yields
          (
            (length data_bytes + length_bytes 0 lens) % 2 ^ 32,
            pos + length (packed32 (length dims)) + length (numbers dims) + length (packed32 type),
          )
          (State junk f bytes st var)
          (skip_type fuel sig array_decl pos p)
  unfolding skip_type skip_array
  skip_type-array zero sig dims lens rest type size pos data_bytes bytes st var p room short all_d
        all_l fits known count len at s =
      absurd (omega arith)
  skip_type-array (suc fuel) sig dims lens rest type size pos data_bytes bytes st var p room short
        all_d all_l fits known count len at s =
      let pos1 = pos + length (packed32 (length dims)) in
      let at1 =
        drop_behind pos (packed32 (length dims)) (numbers dims ++ (packed32 type ++ rest)) sig at in
      let at2 = drop_behind pos1 (numbers dims) (packed32 type ++ rest) sig at1 in
      rw
        (
          sig_varint_lem (length dims) pos sig (numbers dims ++ (packed32 type ++ rest)) p short at,
          skip_indices_lem dims pos1 0 1 sig (packed32 type ++ rest) p all_d at1,
          sym count,
        )
        (bind _ (skip_lengths-State lens 0 (product 1 dims) (data_bytes ++ bytes) st var p all_l s)
          (λ p1 s1.
            rw
              (
                sig_varint_lem type (pos1 + length (numbers dims)) sig rest p1 fits at2,
                known,
                sym len,
              )
              (bind _ (advancen-State junk f data_bytes bytes st var p1 s1) (λ p2 s2. yields s2))))
