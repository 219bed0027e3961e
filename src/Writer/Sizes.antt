-- ===== src/Writer/Sizes.antt =====
-- labcomm2014_size_packed32 and labcomm2014_size_string are the lengths of what is written.
use labcomm_core.Common.{
  ℕ, zero, suc, ◌+◌, ◌/◌, ◌%◌, ◌^◌, ◌≤◌, ◌<◌, ◌≡◌, inl, inr, List, [], ◌∷◌, arith, ◌==◌, Bool-cases,
  length, length-append,
}
use labcomm_core.Wire.{leading, packed32, string}
use labcomm_core.Writer.{size_packed32_loop, size_packed32, size_string}

-- The loop counts the last byte and one for each leading group.
size_packed32_loop_lem :
    (k v result : ℕ)
    → v < 128 ^ suc k
    → size_packed32_loop (suc k) v result ≡ result + 1 + length (leading k (v / 128))
unfolding size_packed32_loop leading
size_packed32_loop_lem zero v result h = ground arith
size_packed32_loop_lem (suc k) v result h = elim (Bool-cases (v / 128 == 0)) [
  | inl e ↦ rw e (omega arith)
  | inr e ↦ rw e (
      omega (
        arith,
        size_packed32_loop_lem k (v / 128) (result + 1) (omega arith),
        length-append (leading k (v / 128 / 128)) ((v / 128 % 128 + 128) ∷ []),
      ))
]

-- For a number of 32 bits, labcomm2014_size_packed32 is the length of its packed form.
pub size_packed32-length : (v : ℕ) → v < 2 ^ 32 → size_packed32 v ≡ length (packed32 v)
unfolding size_packed32 packed32
size_packed32-length v h = omega (
  arith,
  size_packed32_loop_lem 4 v 0 (omega arith),
  length-append (leading 4 (v / 128)) ((v % 128) ∷ []),
)

pub size_string-length : (s : List ℕ) → length s < 2 ^ 32 → size_string s ≡ length (string s)
unfolding size_string string
size_string-length s h =
    omega (arith, size_packed32-length (length s) h, length-append (packed32 (length s)) s)

leading_short : (k v : ℕ) → length (leading k v) ≤ k
unfolding leading
leading_short zero v = omega arith
leading_short (suc k) v = elim (Bool-cases (v == 0)) [
  | inl e ↦ rw e (omega arith)
  | inr e ↦ rw e (
      omega (
        arith,
        leading_short k (v / 128),
        length-append (leading k (v / 128)) ((v % 128 + 128) ∷ []),
      ))
]

-- The packed form has one to five bytes, so the five elements of `tmp` are enough.
pub packed32_bounds : (v : ℕ) → (1 ≤ length (packed32 v)) × (length (packed32 v) ≤ 5)
unfolding packed32
packed32_bounds v =
    let e = length-append (leading 4 (v / 128)) ((v % 128) ∷ []) in
    (omega (arith, e), omega (arith, e, leading_short 4 (v / 128)))
