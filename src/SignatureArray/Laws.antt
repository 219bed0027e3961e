-- ===== src/SignatureArray/Laws.antt =====
-- A signature array is a map from indices: what array_ref does to the range is not visible.
use labcomm_core.Common.{
  ℕ, ◌+◌, ◌-◌, ◌<◌, ◌≡◌, ◌≢◌, ◌⊎◌, refl, sym, ap, ◌∙◌, inl, inr, Bool, true, false, ◌&&◌, ◌||◌,
  List, ◌++◌, arith, if◌then◌else◌, Bool-cases, length, length-append, length-replicate, length-set,
  get_or, get_or-append_left, get_or-append_right, get_or-replicate, get_or-set_self, get_or-set_ne,
  replicate, ℤ, pos, suc_ℤ, suc_ℤ_parts, ltb_ℤ, leb_ℤ, eqb_ℤ, eqb_ℤ→eq, is_zero, gap, ◌≤ℤ◌, ◌<ℤ◌,
}
use labcomm_core.SignatureArray.{
  SignatureArray, empty, widened, array_ref, array_get, array_put, array_set,
}

-- The range and the elements fit: an array that holds nothing has the range 0 to 0.
pub record IsArray {ℓ} (A : Type ℓ) (a : SignatureArray A) : Type ℓ where
  pub range : a.first ≤ℤ a.last
  pub full : length a.items ≡ gap a.first a.last

is_zero→eq : (z : ℤ) → is_zero z ≡ true → z ≡ pos 0
is_zero→eq z h = ground arith

and-true : (a b : Bool) → (a && b) ≡ true → (a ≡ true) × (b ≡ true)
and-true a b h = ground arith

abbrev lower_end : ℤ → ℤ → ℤ
lower_end i f = if ltb_ℤ i f then i else f

abbrev upper_end : ℤ → ℤ → ℤ
upper_end i l = if leb_ℤ l i then suc_ℤ i else l

lower_end_bounds : (i f : ℤ) → (lower_end i f ≤ℤ f) × (lower_end i f ≤ℤ i)
lower_end_bounds i f = ground arith

upper_end_bounds : (i l : ℤ) → (l ≤ℤ upper_end i l) × (i <ℤ upper_end i l)
upper_end_bounds i l = ground (arith, suc_ℤ_parts i)

module _ {ℓ} {A : Type ℓ} where
  abbrev IsIn : ℤ → SignatureArray A → Type 0
  IsIn i a = (a.first ≤ℤ i) × (i <ℤ a.last)

  pub empty-IsArray : IsArray A empty
  empty-IsArray = record { range = omega arith; full = refl }

  -- Reading inside the range, and outside.
  array_get-in :
      (nil : A) (j : ℤ) (a : SignatureArray A)
      → IsIn j a
      → array_get nil j a ≡ get_or a.items (gap a.first j) nil
  unfolding array_get
  array_get-in nil j a (lo, hi) =
      let l : leb_ℤ a.first j ≡ true = ground arith in
      let h : ltb_ℤ j a.last ≡ true = ground arith in rw (l, h)

  array_get-out :
      (nil : A) (j : ℤ) (a : SignatureArray A)
      → (j <ℤ a.first) ⊎ (a.last ≤ℤ j)
      → array_get nil j a ≡ nil
  unfolding array_get
  array_get-out nil j a (inl h) = let l : leb_ℤ a.first j ≡ false = ground arith in rw l
  array_get-out nil j a (inr h) = elim (Bool-cases (leb_ℤ a.first j)) [
    | inl p ↦ let q : ltb_ℤ j a.last ≡ false = ground arith in rw (p, q)
    | inr p ↦ rw p
  ]

  module _ (nil : A) (f l : ℤ) (a : SignatureArray A) (v : IsArray A a) (lo : f ≤ℤ a.first)
      (hi : a.last ≤ℤ l) where
    widened-IsArray : IsArray A (widened nil f l a)
    widened-IsArray =
        let front = replicate (gap f a.first) nil in
        let back = replicate (gap a.last l) nil in
        let n = length-append front (a.items ++ back) in
        let m = length-append a.items back in
        record {
          range = omega (arith, v.range);
          full = omega (
            arith,
            n,
            m,
            v.range,
            v.full,
            length-replicate (gap f a.first) nil,
            length-replicate (gap a.last l) nil,
          );
        }

    -- Widening the range shows in no element.
    array_get-widened : (j : ℤ) → array_get nil j (widened nil f l a) ≡ array_get nil j a
    array_get-widened j = elim (Bool-cases (ltb_ℤ j f)) [
      | inl below ↦
          array_get-out nil j (widened nil f l a) (inl (ground arith))
          ∙ sym (array_get-out nil j a (inl (ground arith)))
      | inr not_below ↦ elim (Bool-cases (leb_ℤ l j)) [
        | inl above ↦
            array_get-out nil j (widened nil f l a) (inr (ground arith))
            ∙ sym (array_get-out nil j a (inr (ground arith)))
        | inr not_above ↦
            array_get-in nil j (widened nil f l a) (ground arith, ground arith)
            ∙ within (ground arith) (ground arith)
      ]
    ]
      where
        front : List A
        front = replicate (gap f a.first) nil

        back : List A
        back = replicate (gap a.last l) nil

        wide : List A
        wide = front ++ (a.items ++ back)

        before : gap f j < length front → get_or wide (gap f j) nil ≡ nil
        before h =
            get_or-append_left front (a.items ++ back) (gap f j) nil h
            ∙ get_or-replicate (gap f a.first) (gap f j) nil

        behind :
            (k : ℕ)
            → gap f j ≡ length front + k
            → get_or wide (gap f j) nil ≡ get_or (a.items ++ back) k nil
        behind k e =
            ap (λ n. get_or wide n nil) e ∙ get_or-append_right front (a.items ++ back) k nil

        size : length front ≡ gap f a.first
        size = length-replicate (gap f a.first) nil

        within : f ≤ℤ j → j <ℤ l → get_or wide (gap f j) nil ≡ array_get nil j a
        within p q = elim (Bool-cases (ltb_ℤ j a.first)) [
          | inl early ↦
              before (ground (arith, size)) ∙ sym (array_get-out nil j a (inl (ground arith)))
          | inr late ↦ elim (Bool-cases (ltb_ℤ j a.last)) [
            | inl old ↦
                let r : a.first ≤ℤ j = ground arith in
                let t : j <ℤ a.last = ground arith in
                behind (gap a.first j) (omega (arith, size, lo))
                ∙ get_or-append_left a.items back (gap a.first j) nil (omega (arith, v.full))
                ∙ sym (array_get-in nil j a (r, t))
            | inr new ↦
                let r : a.last ≤ℤ j = ground arith in
                let k : ℕ = gap a.first j - length a.items in
                let e : gap a.first j ≡ length a.items + k = omega (arith, v.full, v.range) in
                behind (gap a.first j) (omega (arith, size, lo, v.range))
                ∙ ap (λ n. get_or (a.items ++ back) n nil) e
                ∙ get_or-append_right a.items back k nil
                ∙ get_or-replicate (gap a.last l) k nil
                ∙ sym (array_get-out nil j a (inr r))
          ]
        ]

  -- The first element of an array that was empty.
  array_get-single :
      (nil : A) (i j : ℤ)
      → array_get nil j (record { first = i; last = suc_ℤ i; items = replicate 1 nil }) ≡ nil
  unfolding array_get
  array_get-single nil i j = elim (Bool-cases (leb_ℤ i j && ltb_ℤ j (suc_ℤ i))) [
    | inl e ↦ rw e (get_or-replicate 1 (gap i j) nil)
    | inr e ↦ rw e
  ]

  -- In an array whose range and elements fit, getting at an element, which may move the array,
  -- changes no element: one that was outside the range is `nil` before and after.
  pub array_get-array_ref :
      (nil : A) (i j : ℤ) (a : SignatureArray A)
      → IsArray A a
      → array_get nil j (array_ref nil i a) ≡ array_get nil j a
  unfolding array_ref
  array_get-array_ref nil i j a v = elim (Bool-cases (is_zero a.first && is_zero a.last)) [
    | inl fresh ↦
        let (p, q) = and-true (is_zero a.first) (is_zero a.last) fresh in
        let f : a.first ≡ pos 0 = is_zero→eq a.first p in
        let l : a.last ≡ pos 0 = is_zero→eq a.last q in
        rw fresh (array_get-single nil i j ∙ sym (array_get-out nil j a (outside_empty f l)))
    | inr used ↦ elim (Bool-cases (ltb_ℤ i a.first || leb_ℤ a.last i)) [
      | inl outside ↦
          rw (used, outside)
            (array_get-widened nil (lower_end i a.first) (upper_end i a.last) a v
              (lower_end_bounds i a.first).0 (upper_end_bounds i a.last).0 j)
      | inr inside ↦ rw (used, inside)
    ]
  ]
    where
      outside_empty : a.first ≡ pos 0 → a.last ≡ pos 0 → (j <ℤ a.first) ⊎ (a.last ≤ℤ j)
      outside_empty f l = rw (f, l) (grind arith)

  pub array_ref-IsArray :
      (nil : A) (i : ℤ) (a : SignatureArray A) → IsArray A a → IsArray A (array_ref nil i a)
  unfolding array_ref
  array_ref-IsArray nil i a v = elim (Bool-cases (is_zero a.first && is_zero a.last)) [
    | inl fresh ↦
        let p = suc_ℤ_parts i in
        rw fresh (record { range = omega (arith, p); full = omega (arith, p) })
    | inr used ↦ elim (Bool-cases (ltb_ℤ i a.first || leb_ℤ a.last i)) [
      | inl outside ↦
          rw (used, outside)
            (widened-IsArray nil (lower_end i a.first) (upper_end i a.last) a v
              (lower_end_bounds i a.first).0 (upper_end_bounds i a.last).0)
      | inr inside ↦ rw (used, inside) v
    ]
  ]

  pub array_ref-IsIn : (nil : A) (i : ℤ) (a : SignatureArray A) → IsIn i (array_ref nil i a)
  unfolding array_ref
  array_ref-IsIn nil i a = elim (Bool-cases (is_zero a.first && is_zero a.last)) [
    | inl fresh ↦ rw fresh (omega arith, omega (arith, suc_ℤ_parts i))
    | inr used ↦ elim (Bool-cases (ltb_ℤ i a.first || leb_ℤ a.last i)) [
      | inl outside ↦
          rw (used, outside) ((lower_end_bounds i a.first).1, (upper_end_bounds i a.last).1)
      | inr inside ↦ rw (used, inside) (ground arith, ground arith)
    ]
  ]

  pub array_put-IsArray :
      (i : ℤ) (x : A) (a : SignatureArray A) → IsArray A a → IsArray A (array_put i x a)
  unfolding array_put
  array_put-IsArray i x a v = record {
    range = v.range;
    full = length-set a.items (gap a.first i) x ∙ v.full;
  }

  array_get-array_put :
      (nil x : A) (i j : ℤ) (a : SignatureArray A)
      → IsArray A a
      → IsIn i a
      → array_get nil j (array_put i x a) ≡ (if eqb_ℤ i j then x else array_get nil j a)
  unfolding array_put
  array_get-array_put nil x i j a v (lo, hi) = elim (Bool-cases (eqb_ℤ i j)) [
    | inl same ↦ rw same (
        ap (λ t. array_get nil t (array_put i x a)) (sym (eqb_ℤ→eq i j same))
        ∙ array_get-in nil i (array_put i x a) (lo, hi)
        ∙ get_or-set_self a.items (gap a.first i) x nil (omega (arith, v.full)))
    | inr other ↦ elim (Bool-cases (ltb_ℤ j a.first || leb_ℤ a.last j)) [
      | inl outside ↦
          let p : (j <ℤ a.first) ⊎ (a.last ≤ℤ j) = ground arith in
          rw other (array_get-out nil j (array_put i x a) p ∙ sym (array_get-out nil j a p))
      | inr inside ↦
          let p : IsIn j a = (ground arith, ground arith) in
          let apart : gap a.first i ≢ gap a.first j = ground arith in
          rw other (
            array_get-in nil j (array_put i x a) p
            ∙ get_or-set_ne a.items (gap a.first i) (gap a.first j) x nil apart
            ∙ sym (array_get-in nil j a p))
    ]
  ]

  pub array_set-IsArray :
      (nil : A) (i : ℤ) (x : A) (a : SignatureArray A)
      → IsArray A a
      → IsArray A (array_set nil i x a)
  unfolding array_set
  array_set-IsArray nil i x a v =
      array_put-IsArray i x (array_ref nil i a) (array_ref-IsArray nil i a v)

  -- In an array whose range and elements fit, an assignment through LABCOMM_SIGNATURE_ARRAY_REF
  -- changes the element at its index alone, wherever the index lies.
  pub array_get-array_set :
      (nil x : A) (i j : ℤ) (a : SignatureArray A)
      → IsArray A a
      → array_get nil j (array_set nil i x a) ≡ (if eqb_ℤ i j then x else array_get nil j a)
  unfolding array_set
  array_get-array_set nil x i j a v =
      array_get-array_put nil x i j (array_ref nil i a) (array_ref-IsArray nil i a v)
        (array_ref-IsIn nil i a)
      ∙ ap (λ t. if eqb_ℤ i j then x else t) (array_get-array_ref nil i j a v)

  -- The same, with the two steps of the assignment written out.
  pub array_get-put_ref :
      (nil x : A) (i j : ℤ) (a : SignatureArray A)
      → IsArray A a
      → array_get nil j (array_put i x (array_ref nil i a))
        ≡ (if eqb_ℤ i j then x else array_get nil j a)
  unfolding array_set
  array_get-put_ref nil x i j a v = array_get-array_set nil x i j a v

  pub array_get-empty : (nil : A) (j : ℤ) → array_get nil j empty ≡ nil
  array_get-empty nil j = array_get-out nil j empty (outside j)
    where
      outside : (j : ℤ) → (j <ℤ pos 0) ⊎ (pos 0 ≤ℤ j)
      outside j = ground arith
