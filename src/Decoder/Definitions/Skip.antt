-- ===== src/Decoder/Definitions/Skip.antt =====
-- reader_skip takes the bytes that it is told to.
use labcomm_core.Common.{
  ℕ, ◌<◌, ◌≡◌, Bool, false, List, [], ◌∷◌, ◌++◌, length, All, ℤ, pos, is_neg, Yields, yields, bind,
}
use labcomm_core.Reader.{Reader, ReaderAction}
use labcomm_core.Reader.Source.{Source, At}
use labcomm_core.Reader.Words.{read_byte-cons}
use labcomm_core.Decoder.Definitions.{skip_loop, reader_skip}

module _ {C : Type 0} {act : ReaderAction C} (src : Source act) {memory : ℕ → Bool} where
  skip_loop-At :
      (bs rest : List ℕ) (r : Reader C)
      → All (λ b. b < 256) bs
      → At src memory (bs ++ rest) r
      → Yields (pos 0) (At src memory rest) (skip_loop act (length bs) r)
  unfolding skip_loop
  skip_loop-At [] rest r h a = yields a
  skip_loop-At (b ∷ bs) rest r (p, h) a = bind _ (read_byte-cons src b (bs ++ rest) r p a) (λ r1 a1.
      let e : r1.error ≡ pos 0 = a1.ready.clean in
      let good : is_neg r1.error ≡ false = rw e in rw good (skip_loop-At bs rest r1 h a1))

  pub reader_skip-At :
      (tag : ℤ) (bs rest : List ℕ) (r : Reader C)
      → All (λ b. b < 256) bs
      → At src memory (bs ++ rest) r
      → Yields tag (At src memory rest) (reader_skip act (pos (length bs)) tag r)
  unfolding reader_skip
  reader_skip-At tag bs rest r h a = bind _ (skip_loop-At bs rest r h a) (λ r1 a1. yields a1)
