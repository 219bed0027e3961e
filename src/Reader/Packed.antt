-- ===== src/Reader/Packed.antt =====
-- labcomm2014_read_packed32 reads back what the wire format writes for a number of 32 bits.
use labcomm_core.Common.{
  ℕ, zero, suc, ◌+◌, ◌*◌, ◌/◌, ◌%◌, ◌^◌, ◌≤◌, ◌<◌, ◌≡◌, refl, inl, inr, Bool, true, false, List,
  ◌∷◌, ◌++◌, append_assoc, arith, ◌==◌, ltb, Bool-cases, is_nonzero, is_neg, ℤ, All, length, [],
  Yields, yields, bind,
}
use labcomm_core.Wire.{leading, packed32}
use labcomm_core.Reader.{Reader, ReaderAction, read_packed32_loop, read_packed32}
use labcomm_core.Reader.Source.{Source, At, next_byte-At, next_byte-end}

neg→nonzero : (z : ℤ) → is_neg z ≡ true → is_nonzero z ≡ true
neg→nonzero z h = ground arith

-- What the groups of the bytes come to, from `result` on.
abbrev pub joined : ℕ → List ℕ → ℕ
joined result [] = result
joined result (b ∷ bs) = joined ((result * 128 + b % 128) % 2 ^ 32) bs

module _ {C : Type 0} {act : ReaderAction C} (src : Source act) {memory : ℕ → Bool} where
  -- A byte with the top bit adds its group, and the loop goes on.
  loop_more :
      (fuel result tmp : ℕ) (rest : List ℕ) (r : Reader C) {b : ℕ} {Q : Reader C → Type 0}
      → 128 ≤ tmp
      → At src memory (tmp ∷ rest) r
      → ((r' : Reader C)
          → At src memory rest r'
          → Yields b Q (read_packed32_loop act fuel ((result * 128 + tmp % 128) % 2 ^ 32) r'))
      → Yields b Q (read_packed32_loop act (suc fuel) result r)
  unfolding read_packed32_loop
  loop_more fuel result tmp rest r h a next =
      let big : ltb tmp 128 ≡ false = ground arith in
      bind _ (next_byte-At src is_nonzero r tmp rest refl a) (λ r' a'. rw big (next r' a'))

  -- A byte without it ends the loop.
  loop_last :
      (fuel result tmp : ℕ) (rest : List ℕ) (r : Reader C)
      → tmp < 128
      → At src memory (tmp ∷ rest) r
      → Yields
          ((result * 128 + tmp % 128) % 2 ^ 32)
          (At src memory rest)
          (read_packed32_loop act (suc fuel) result r)
  unfolding read_packed32_loop
  loop_last fuel result tmp rest r h a =
      let small : ltb tmp 128 ≡ true = ground arith in
      bind _ (next_byte-At src is_nonzero r tmp rest refl a) (λ r' a'. rw small (yields a'))

  -- The byte of the group of `v` that follows the groups above it.
  loop_group :
      (g fuel v : ℕ) (rest : List ℕ) (r : Reader C) {b : ℕ} {Q : Reader C → Type 0}
      → v < 2 ^ 32
      → fuel + 1 ≤ g
      → At src memory ((v % 128 + 128) ∷ rest) r
      → ((g : ℕ) (r' : Reader C)
          → fuel ≤ g
          → At src memory rest r'
          → Yields b Q (read_packed32_loop act g v r'))
      → Yields b Q (read_packed32_loop act g (v / 128) r)
  loop_group zero fuel v rest r fits h a next = absurd (omega arith)
  loop_group (suc g) fuel v rest r fits h a next =
      let e : (v / 128 * 128 + (v % 128 + 128) % 128) % 2 ^ 32 ≡ v = omega arith in
      loop_more g (v / 128) (v % 128 + 128) rest r (omega arith) a
        (λ r' a'. rw e (next g r' (omega arith) a'))

  -- The loop passes the leading bytes of `v` and holds `v`; `fuel` rounds are left at least.
  loop-leading :
      (k v fuel f : ℕ) (rest : List ℕ) (r : Reader C) {b : ℕ} {Q : Reader C → Type 0}
      → v < 128 ^ k
      → v < 2 ^ 32
      → fuel + k ≤ f
      → At src memory (leading k v ++ rest) r
      → ((g : ℕ) (r' : Reader C)
          → fuel ≤ g
          → At src memory rest r'
          → Yields b Q (read_packed32_loop act g v r'))
      → Yields b Q (read_packed32_loop act f 0 r)
  unfolding leading
  loop-leading zero v fuel f rest r small fits h a next =
      let e : v ≡ 0 = omega arith in rw e at (next f r (omega arith) a)
  loop-leading (suc k) v fuel f rest r small fits h a next = elim (Bool-cases (v == 0)) [
    | inl none_left ↦
        let e : v ≡ 0 = ground arith in rw e at (next f r (omega arith) (rw none_left at a))
    | inr some_left ↦
        loop-leading k (v / 128) (fuel + 1) f ((v % 128 + 128) ∷ rest) r (omega arith) (omega arith)
          (omega arith) (rw (some_left, append_assoc) at a)
          (λ g r' hg a'. loop_group g fuel v rest r' fits hg a' next)
  ]

  loop_finish :
      (g v : ℕ) (rest : List ℕ) (r : Reader C)
      → v < 2 ^ 32
      → 1 ≤ g
      → At src memory ((v % 128) ∷ rest) r
      → Yields v (At src memory rest) (read_packed32_loop act g (v / 128) r)
  loop_finish zero v rest r fits h a = absurd (omega arith)
  loop_finish (suc g) v rest r fits h a =
      let e : (v / 128 * 128 + v % 128 % 128) % 2 ^ 32 ≡ v = omega arith in
      rw e at (loop_last g (v / 128) (v % 128) rest r (omega arith) a)

  -- Before the packed form of a 32 bit number, on a reader in order, five rounds are enough:
  -- labcomm2014_read_packed32 returns the number and stands behind it, in order.
  pub read_packed32-packed32 :
      (fuel v : ℕ) (rest : List ℕ) (r : Reader C)
      → 5 ≤ fuel
      → v < 2 ^ 32
      → At src memory (packed32 v ++ rest) r
      → Yields v (At src memory rest) (read_packed32 act fuel r)
  unfolding read_packed32 packed32
  read_packed32-packed32 fuel v rest r h fits a =
      loop-leading 4 (v / 128) 1 fuel ((v % 128) ∷ rest) r (omega arith) (omega arith) (omega arith)
        (rw append_assoc at a) (λ g r' hg a'. loop_finish g v rest r' fits hg a')

  read_packed32_loop_truncated :
      (fuel result : ℕ) (bs : List ℕ) (r : Reader C)
      → length bs < fuel
      → All (λ b. 128 ≤ b) bs
      → At src memory bs r
      → Yields
          (joined result bs)
          (λ r'. is_neg r'.error ≡ true)
          (read_packed32_loop act fuel result r)
  unfolding read_packed32_loop
  read_packed32_loop_truncated zero result bs r h all a = absurd (omega arith)
  read_packed32_loop_truncated (suc fuel) result [] r h all a =
      bind _ (next_byte-end src is_nonzero r neg→nonzero a) (λ r' e. yields e)
  read_packed32_loop_truncated (suc fuel) result (b ∷ bs) r h (big, all) a =
      loop_more fuel result b bs r big a (λ r' a'.
        read_packed32_loop_truncated fuel ((result * 128 + b % 128) % 2 ^ 32) bs r' (omega arith)
          all a')

  -- Where the input ends after bytes that all have the top bit, on a reader in order,
  -- labcomm2014_read_packed32 returns within one round for each byte and one more, with what it
  -- has joined so far, and the reader's error is negative.
  pub read_packed32_truncated :
      (fuel : ℕ) (bs : List ℕ) (r : Reader C)
      → length bs < fuel
      → All (λ b. 128 ≤ b) bs
      → At src memory bs r
      → Yields (joined 0 bs) (λ r'. is_neg r'.error ≡ true) (read_packed32 act fuel r)
  unfolding read_packed32
  read_packed32_truncated fuel bs r = read_packed32_loop_truncated fuel 0 bs r
