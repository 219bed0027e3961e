-- ===== src/Common/Int.antt =====
-- Signed C integers over the native numbers.
use Prim.Native.Nat.{ℕ, zero, suc, ◌+◌, ◌-◌, ◌%◌, ◌^◌, ◌≤◌, ◌<◌}
use mathlib.Core.Path.{◌≡◌}
use mathlib.Core.Bool.{Bool, true, false, not}
use native.Mathlib.Omega.{arith}
use labcomm_core.Common.Tests.{ltb, leb, ◌==◌, if◌then◌else◌}

-- `negsuc n` is -(n + 1).
pub data ℤ : Type 0 where
  pos : ℕ → ℤ
  negsuc : ℕ → ℤ

abbrev pub pos_part : ℤ → ℕ
pos_part (pos n) = n
pos_part (negsuc n) = 0

abbrev pub neg_part : ℤ → ℕ
neg_part (pos n) = 0
neg_part (negsuc n) = suc n

infix 50 ◌≤ℤ◌ ◌<ℤ◌
abbrev pub ◌≤ℤ◌ : ℤ → ℤ → Type 0
a ≤ℤ b = pos_part a + neg_part b ≤ pos_part b + neg_part a

abbrev pub ◌<ℤ◌ : ℤ → ℤ → Type 0
a <ℤ b = pos_part a + neg_part b < pos_part b + neg_part a

abbrev pub ltb_ℤ : ℤ → ℤ → Bool
ltb_ℤ a b = ltb (pos_part a + neg_part b) (pos_part b + neg_part a)

abbrev pub leb_ℤ : ℤ → ℤ → Bool
leb_ℤ a b = leb (pos_part a + neg_part b) (pos_part b + neg_part a)

abbrev pub eqb_ℤ : ℤ → ℤ → Bool
eqb_ℤ a b = pos_part a + neg_part b == pos_part b + neg_part a

-- `hi - lo` where `lo ≤ hi`, as a number.
abbrev pub gap : ℤ → ℤ → ℕ
gap lo hi = pos_part hi + neg_part lo - (pos_part lo + neg_part hi)

abbrev pub min_ℤ : ℤ → ℤ → ℤ
min_ℤ a b = if ltb_ℤ a b then a else b

-- `a + 1`
abbrev pub suc_ℤ : ℤ → ℤ
suc_ℤ (pos n) = pos (n + 1)
suc_ℤ (negsuc zero) = pos 0
suc_ℤ (negsuc (suc n)) = negsuc n

abbrev pub is_neg : ℤ → Bool
is_neg (pos n) = false
is_neg (negsuc n) = true

abbrev pub is_zero : ℤ → Bool
is_zero (pos n) = n == 0
is_zero (negsuc n) = false

abbrev pub is_nonzero : ℤ → Bool
is_nonzero z = not (is_zero z)

-- An `unsigned int` assigned to an `int`, and back (two's complement, 32 bits).
abbrev pub to_int : ℕ → ℤ
to_int u = if ltb u (2 ^ 31) then pos u else negsuc (2 ^ 32 - 1 - u)

abbrev pub to_unsigned : ℤ → ℕ
to_unsigned (pos n) = n % 2 ^ 32
to_unsigned (negsuc n) = 2 ^ 32 - 1 - n % 2 ^ 32

-- The negated error numbers of `errno.h` (Linux).
abbrev pub minus_enoent : ℤ
minus_enoent = negsuc 1

abbrev pub minus_enomem : ℤ
minus_enomem = negsuc 11

abbrev pub minus_einval : ℤ
minus_einval = negsuc 21

abbrev pub minus_epipe : ℤ
minus_epipe = negsuc 31

abbrev pub minus_enosys : ℤ
minus_enosys = negsuc 37

abbrev pub minus_enotsup : ℤ
minus_enotsup = negsuc 94

abbrev pub minus_econnreset : ℤ
minus_econnreset = negsuc 103

abbrev pub minus_ealready : ℤ
minus_ealready = negsuc 113

pub eqb_ℤ-refl : (a : ℤ) → eqb_ℤ a a ≡ true
eqb_ℤ-refl a = ground arith

pub eqb_ℤ→eq : (a b : ℤ) → eqb_ℤ a b ≡ true → a ≡ b
eqb_ℤ→eq a b h = ground arith

pub eq_of_parts : (a b : ℤ) → pos_part a + neg_part b ≡ pos_part b + neg_part a → a ≡ b
eq_of_parts a b h = ground arith

pub suc_ℤ_parts : (a : ℤ) → pos_part (suc_ℤ a) + neg_part a ≡ pos_part a + neg_part (suc_ℤ a) + 1
suc_ℤ_parts (pos n) = omega arith
suc_ℤ_parts (negsuc zero) = omega arith
suc_ℤ_parts (negsuc (suc n)) = omega arith

-- A value below 2^31 is the same `int`, and comes back as the same `unsigned int`.
pub to_int-small : (u : ℕ) → u < 2 ^ 31 → to_int u ≡ pos u
to_int-small u h = ground arith

pub to_unsigned-to_int : (u : ℕ) → u < 2 ^ 32 → to_unsigned (to_int u) ≡ u
to_unsigned-to_int u h = ground arith
