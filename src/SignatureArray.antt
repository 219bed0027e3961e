-- ===== src/SignatureArray.antt =====
-- lib/c/2014/labcomm2014.c and labcomm2014_private.h: the arrays that are indexed by the index of a
-- signature, LABCOMM_SIGNATURE_ARRAY_DEF and the functions on them.
pub mod Laws
use labcomm_core.Common.{
  ℕ, ◌+◌, ◌-◌, ◌≡◌, Bool, ◌&&◌, ◌||◌, List, [], ◌∷◌, ◌++◌, if◌then◌else◌, length, get_or, set, take,
  replicate, ℤ, pos, suc_ℤ, ltb_ℤ, leb_ℤ, is_zero, gap,
}

-- `struct { int first; int last; kind *data; }`
pub record SignatureArray {ℓ} (A : Type ℓ) : Type ℓ where
  pub first : ℤ
  pub last : ℤ
  pub items : List A

module _ {ℓ} {A : Type ℓ} where
  -- LABCOMM_SIGNATURE_ARRAY_INIT
  abbrev pub empty : SignatureArray A
  empty = record { first = pos 0; last = pos 0; items = [] }

  -- A new allocation, cleared, with the old elements copied to their places.
  abbrev widened : A → ℤ → ℤ → SignatureArray A → SignatureArray A
  widened nil first last a = record {
    first = first;
    last = last;
    items = replicate (gap first a.first) nil ++ (a.items ++ replicate (gap a.last last) nil);
  }

  -- What labcomm2014_signature_array_ref does to the array where its allocations succeed: it comes
  -- to hold `index`. `nil` is the element with all bytes 0. The pointer that the C function returns
  -- is used by `get` and `put` below.
  pub array_ref : A → ℤ → SignatureArray A → SignatureArray A
  array_ref nil index a =
      if is_zero a.first && is_zero a.last
      then record { first = index; last = suc_ℤ index; items = replicate 1 nil }
      else if ltb_ℤ index a.first || leb_ℤ a.last index
      then widened nil (if ltb_ℤ index a.first then index else a.first)
          (if leb_ℤ a.last index then suc_ℤ index else a.last) a
      else a

  -- LABCOMM_SIGNATURE_ARRAY_GET, with what is returned where the index is outside.
  unfoldable pub array_get : A → ℤ → SignatureArray A → A
  array_get nomatch index a =
      if leb_ℤ a.first index && ltb_ℤ index a.last
      then get_or a.items (gap a.first index) nomatch
      else nomatch

  -- A write through the pointer that array_ref returned.
  pub array_put : ℤ → A → SignatureArray A → SignatureArray A
  array_put index x a = record a { items = set a.items (gap a.first index) x }

  -- LABCOMM_SIGNATURE_ARRAY_REF, and an assignment to the element.
  pub array_set : A → ℤ → A → SignatureArray A → SignatureArray A
  unfolding array_ref array_put
  array_set nil index x a = array_put index x (array_ref nil index a)

  -- The elements with their indices, in the order of LABCOMM_SIGNATURE_ARRAY_FOREACH.
  unfoldable numbered : ℤ → List A → List (ℤ × A)
  numbered i [] = []
  numbered i (x ∷ xs) = (i, x) ∷ numbered (suc_ℤ i) xs

  unfoldable pub array_items : SignatureArray A → List (ℤ × A)
  unfolding numbered
  array_items a = numbered a.first a.items
