-- ===== src/Ioctl/Fields.antt =====
-- The fields of a request come back, and no two requests are the same number.
use Prim.Native.Nat.{digits, max, bit_or, bit_or-bitwise}
use labcomm_core.Common.{ℕ, zero, suc, ◌+◌, ◌*◌, ◌/◌, ◌%◌, ◌^◌, ◌≤◌, ◌<◌, ◌≡◌, refl, ap, ◌∙◌, arith}
use labcomm_core.Ioctl.{ioc, ioc_sig, ioc_dir, ioc_size, ioc_type, ioc_nr}

-- Fuel from the first number on changes nothing.
more_fuel : (n m a b : ℕ) → a ≤ n → a ≤ m → digits (λ b. b) max n a b ≡ digits (λ b. b) max m a b
more_fuel zero zero a b p q = refl
more_fuel zero (suc m) zero b p q = refl
more_fuel zero (suc m) (suc a) b p q = absurd (omega arith)
more_fuel (suc n) zero zero b p q = refl
more_fuel (suc n) zero (suc a) b p q = absurd (omega arith)
more_fuel (suc n) (suc m) zero b p q = refl
more_fuel (suc n) (suc m) (suc a) b p q =
    omega (arith, more_fuel n m (suc a / 2) (b / 2) (omega arith) (omega arith))

or_with_zero : (b : ℕ) → bit_or 0 b ≡ b
or_with_zero b = bit_or-bitwise 0 b

-- The lowest digit, and the others.
bit_or_step : (a b : ℕ) → bit_or a b ≡ bit_or (a / 2) (b / 2) * 2 + max (a % 2) (b % 2)
bit_or_step zero b = omega (arith, or_with_zero b, or_with_zero (b / 2))
bit_or_step (suc a) b = omega (
  arith,
  bit_or-bitwise (suc a) b,
  bit_or-bitwise (suc a / 2) (b / 2),
  more_fuel a (suc a / 2) (suc a / 2) (b / 2) (omega arith) (omega arith),
)

zero_within : (n a : ℕ) → a ≤ n → bit_or a 0 ≡ a
zero_within n zero h = or_with_zero 0
zero_within zero (suc a) h = absurd (omega arith)
zero_within (suc n) (suc a) h =
    omega (arith, bit_or_step (suc a) 0, zero_within n (suc a / 2) (omega arith))

-- A number below 2 ^ k in the low bits of a multiple of it.
bit_or-add : (k a b : ℕ) → b < 2 ^ k → bit_or (a * 2 ^ k) b ≡ a * 2 ^ k + b
bit_or-add zero a b h =
    let z : b ≡ 0 = omega arith in
    let o : a * 2 ^ 0 ≡ a = omega arith in
    let p : a + 0 ≡ a = omega arith in rw (z, o, p) (zero_within a a (omega arith))
bit_or-add (suc k) a b h =
    let e : 2 ^ suc k ≡ 2 ^ k * 2 = omega arith in
    let double : a * 2 ^ suc k ≡ a * 2 ^ k * 2 = omega (arith, ap (λ (t : ℕ). a * t) e) in
    let half : a * 2 ^ suc k / 2 ≡ a * 2 ^ k = omega (arith, double) in
    let even : a * 2 ^ suc k % 2 ≡ 0 = omega (arith, double) in
    let step = bit_or_step (a * 2 ^ suc k) b in
    let rec = bit_or-add k a (b / 2) (omega arith) in
    omega (arith, step, half, even, double, rec, ap (λ x. bit_or x (b / 2)) half)

ioc_sum :
    (sig dir type nr size : ℕ)
    → sig < 2
    → dir < 4
    → size < 2 ^ 13
    → type < 2 ^ 8
    → nr < 2 ^ 8
    → ioc sig dir type nr size
      ≡ sig * 2 ^ 31 + (dir * 2 ^ 29 + (size * 2 ^ 16 + (type * 2 ^ 8 + nr)))
unfolding ioc
ioc_sum sig dir type nr size a b c d e =
    let x1 : ℕ = sig * 4 + dir in
    let x2 : ℕ = x1 * 2 ^ 13 + size in
    let x3 : ℕ = x2 * 2 ^ 8 + type in
    let e1 : bit_or (sig * 2 ^ 31) (dir * 2 ^ 29) ≡ x1 * 2 ^ 29 =
      bit_or-add 31 sig (dir * 2 ^ 29) (omega arith) ∙ omega arith in
    let e2 : bit_or (x1 * 2 ^ 29) (size * 2 ^ 16) ≡ x2 * 2 ^ 16 =
      bit_or-add 29 x1 (size * 2 ^ 16) (omega arith) ∙ omega arith in
    let e3 : bit_or (x2 * 2 ^ 16) (type * 2 ^ 8) ≡ x3 * 2 ^ 8 =
      bit_or-add 16 x2 (type * 2 ^ 8) (omega arith) ∙ omega arith in
    let e4 : bit_or (x3 * 2 ^ 8) (nr * 2 ^ 0) ≡ x3 * 2 ^ 8 + nr * 2 ^ 0 =
      bit_or-add 8 x3 (nr * 2 ^ 0) (omega arith) in
    rw (e1, e2, e3, e4) (omega arith)

-- A request that LABCOMM_IOC puts together of a signature bit, a direction, a type, a number
-- and a size that fit their fields has 32 bits, and each of the five macros gets its field
-- back.
pub ioc-fields :
    (sig dir type nr size : ℕ)
    → sig < 2
    → dir < 4
    → size < 2 ^ 13
    → type < 2 ^ 8
    → nr < 2 ^ 8
    → (ioc_sig (ioc sig dir type nr size) ≡ sig)
      × ((ioc_dir (ioc sig dir type nr size) ≡ dir)
          × ((ioc_size (ioc sig dir type nr size) ≡ size)
              × ((ioc_type (ioc sig dir type nr size) ≡ type)
                  × ((ioc_nr (ioc sig dir type nr size) ≡ nr)
                      × (ioc sig dir type nr size < 2 ^ 32)))))
unfolding ioc_sig ioc_dir ioc_size ioc_type ioc_nr
ioc-fields sig dir type nr size a b c d e =
    let s = ioc_sum sig dir type nr size a b c d e in
    rw s (omega arith, (omega arith, (omega arith, (omega arith, (omega arith, omega arith)))))
