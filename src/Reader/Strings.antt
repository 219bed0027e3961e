-- ===== src/Reader/Strings.antt =====
-- labcomm2014_read_string reads back a string in the wire format.
use labcomm_core.Common.{
  ℕ, ◌+◌, ◌^◌, ◌≤◌, ◌<◌, ◌≡◌, refl, ap, ◌∙◌, Bool, true, some, List, [], ◌∷◌, ◌++◌, append_assoc,
  arith, length, pos, to_int, to_int-small, is_neg, Yields, yields, bind,
}
use labcomm_core.Wire.{string}
use labcomm_core.Reader.{Reader, ReaderAction, read_chars, read_string}
use labcomm_core.Reader.Source.{Source, At, next_byte-At}
use labcomm_core.Reader.Packed.{read_packed32-packed32}

module _ {C : Type 0} {act : ReaderAction C} (src : Source act) {memory : ℕ → Bool} where
  read_chars-append :
      (chars rest : List ℕ) (r : Reader C)
      → At src memory (chars ++ rest) r
      → Yields chars (At src memory rest) (read_chars act (length chars) r)
  unfolding read_chars
  read_chars-append [] rest r a = yields a
  read_chars-append (x ∷ chars) rest r a =
      bind _ (next_byte-At src is_neg r x (chars ++ rest) refl a)
        (λ r' a'. bind _ (read_chars-append chars rest r' a') (λ r'' a''. yields a''))

  -- Before a string shorter than 2^31 bytes, on a reader in order, with at least five rounds
  -- for the length, if the bytes and a NUL can be allocated, labcomm2014_read_string returns
  -- the bytes and stands behind them, in order.
  pub read_string-string :
      (fuel : ℕ) (chars rest : List ℕ) (r : Reader C)
      → 5 ≤ fuel
      → length chars < 2 ^ 31
      → memory (length chars + 1) ≡ true
      → At src memory (string chars ++ rest) r
      → Yields (some chars) (At src memory rest) (read_string act fuel r)
  unfolding read_string string
  read_string-string fuel chars rest r h short room a =
      bind _
        (read_packed32-packed32 src fuel (length chars) (chars ++ rest) r h (omega arith)
          (rw append_assoc at a))
        (λ r' a'.
          let small : to_int (length chars) ≡ pos (length chars) =
            to_int-small (length chars) short in
          let given : r'.memory (length chars + 1) ≡ true =
            ap (λ m. m (length chars + 1)) a'.same_memory ∙ room in
          rw (small, given) (bind _ (read_chars-append chars rest r' a') (λ r'' a''. yields a'')))
