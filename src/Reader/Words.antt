-- ===== src/Reader/Words.antt =====
-- LABCOMM_DECODE: the fixed-size reads return what the wire format writes, and 0 at the input's end.
use labcomm_core.Common.{
  ℕ, zero, suc, ◌+◌, ◌*◌, ◌/◌, ◌%◌, ◌^◌, ◌<◌, ◌≡◌, refl, ap, ◌∙◌, Bool, true, List, [], ◌∷◌, ◌++◌,
  arith, length, is_neg, Yields, yields, bind,
}
use labcomm_core.Wire.{word}
use labcomm_core.Reader.{Reader, ReaderAction, read_word_loop, read_word, read_byte}
use labcomm_core.Reader.Source.{Source, At, next_byte-At, next_byte-end}
use native.Mathlib.Nat.{div-add-mod, mod-lt, mod-eq_of_lt, mul-add-mod_self_left, pow-suc}

pow_pos : (n : ℕ) → 0 < 256 ^ n
pow_pos zero = omega arith
pow_pos (suc n) = rw pow-suc (omega (arith, pow_pos n))

digit_bound : (d m b : ℕ) → d < 256 → m < b → d * b + m < b * 256
digit_bound d m b hd hm = grind arith

-- One more digit of base 256.
mod-mul : (v b : ℕ) → 0 < b → v % (b * 256) ≡ v / b % 256 * b + v % b
mod-mul v b h =
    let q : ℕ = v / b in
    let e : v ≡ b * 256 * (q / 256) + (q % 256 * b + v % b) =
      omega (arith, div-add-mod v b, ap (λ (t : ℕ). b * t) (div-add-mod q 256)) in
    ap (λ (t : ℕ). t % (b * 256)) e
    ∙ mul-add-mod_self_left (b * 256) (q / 256) (q % 256 * b + v % b)
    ∙ mod-eq_of_lt (digit_bound (q % 256) (v % b) b (omega arith) (mod-lt v h))

module _ {C : Type 0} {act : ReaderAction C} (src : Source act) {memory : ℕ → Bool} where
  read_word_loop-word :
      (size v result : ℕ) (rest : List ℕ) (r : Reader C)
      → At src memory (word size v ++ rest) r
      → Yields (result + v % 256 ^ size) (At src memory rest) (read_word_loop act size result r)
  unfolding read_word_loop word
  read_word_loop-word zero v result rest r a =
      let e : result + v % 256 ^ 0 ≡ result = omega arith in rw e (yields a)
  read_word_loop-word (suc size) v result rest r a =
      let b : ℕ = 256 ^ size in
      let e : result + v / b % 256 * b + v % b ≡ result + v % 256 ^ suc size =
        rw (pow-suc, mod-mul v b (pow_pos size)) (omega arith) in
      bind _ (next_byte-At src is_neg r (v / b % 256) (word size v ++ rest) refl a)
        (λ r' a'. rw e at (read_word_loop-word size v (result + v / b % 256 * b) rest r' a'))

  -- Before the `size` bytes of a number, highest first, on a reader in order, the fixed-size
  -- read returns the number (less what does not fit `size` bytes) and stands behind it, in
  -- order.
  pub read_word-word :
      (size v : ℕ) (rest : List ℕ) (r : Reader C)
      → At src memory (word size v ++ rest) r
      → Yields (v % 256 ^ size) (At src memory rest) (read_word act size r)
  unfolding read_word
  read_word-word size v rest r a =
      let e : 0 + v % 256 ^ size ≡ v % 256 ^ size = omega arith in
      rw e at (read_word_loop-word size v 0 rest r a)

  pub read_byte-cons :
      (b : ℕ) (rest : List ℕ) (r : Reader C)
      → b < 256
      → At src memory (b ∷ rest) r
      → Yields b (At src memory rest) (read_byte act r)
  unfolding read_byte word
  read_byte-cons b rest r h a =
      let e : b / 256 ^ 0 % 256 ≡ b = omega arith in
      let f : b % 256 ^ 1 ≡ b = omega arith in rw f at (read_word-word 1 b rest r (rw (← e) at a))

  read_word_loop_truncated :
      (size result : ℕ) (bs : List ℕ) (r : Reader C)
      → length bs < size
      → At src memory bs r
      → Yields 0 (λ r'. is_neg r'.error ≡ true) (read_word_loop act size result r)
  unfolding read_word_loop
  read_word_loop_truncated zero result bs r h a = absurd (omega arith)
  read_word_loop_truncated (suc size) result [] r h a =
      bind _ (next_byte-end src is_neg r (λ z n. n) a) (λ r' e. yields e)
  read_word_loop_truncated (suc size) result (b ∷ bs) r h a =
      bind _ (next_byte-At src is_neg r b bs refl a)
        (λ r' a'. read_word_loop_truncated size (result + b * 256 ^ size) bs r' (omega arith) a')

  -- Where fewer bytes are left than the type has, on a reader in order, the fixed-size read
  -- returns 0 and the reader's error is negative.
  pub read_word_truncated :
      (size : ℕ) (bs : List ℕ) (r : Reader C)
      → length bs < size
      → At src memory bs r
      → Yields 0 (λ r'. is_neg r'.error ≡ true) (read_word act size r)
  unfolding read_word
  read_word_truncated size bs r h a = read_word_loop_truncated size 0 bs r h a
