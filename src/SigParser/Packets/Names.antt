-- ===== src/SigParser/Packets/Names.antt =====
-- What the parser copies out of its buffer, and where it keeps it.
use labcomm_core.Common.{
  ℕ, ◌+◌, ◌-◌, ◌^◌, ◌≤◌, ◌<◌, ◌≡◌, refl, sym, ap, ◌∙◌, Bool, true, some, List, ◌∷◌, ◌++◌,
  append_assoc, arith, leb, length, length-append, length-drop, set, take-append, drop, drop-drop,
  ok, Yields, yields,
}
use labcomm_core.Wire.{packed32, tag_user}
use labcomm_core.Writer.{size_packed32}
use labcomm_core.Writer.Sizes.{size_packed32-length}
use labcomm_core.SigParser.{Slot, SigParser, first_of}
use labcomm_core.SigParser.Input.{State, drop-append_length}
use labcomm_core.SigParser.Packets.{
  copied, get_slot, put_slot, varint_sizeof, varint_loop, store_name, store_signature,
}

varint_sizeof-size : (n : ℕ) → n < 2 ^ 32 → varint_sizeof n ≡ size_packed32 n
unfolding varint_sizeof varint_loop size_packed32
varint_sizeof-size n fits = ground arith

pub varint_sizeof-length : (n : ℕ) → n < 2 ^ 32 → varint_sizeof n ≡ length (packed32 n)
varint_sizeof-length n fits = varint_sizeof-size n fits ∙ size_packed32-length n fits

copied-part :
    (start : ℕ) (xs rest c : List ℕ)
    → drop start c ≡ xs ++ rest
    → start ≤ length c
    → copied start (length xs) c ≡ some xs
unfolding copied
copied-part start xs rest c h within =
    let n = ap length h in
    let fits : leb (start + length xs) (length c) ≡ true =
      ground (arith, n, length-append xs rest, length-drop start c) in
    rw (fits, h) (ap some (take-append (length xs) xs rest refl))

abbrev pub with_slot : SigParser → ℕ → Slot → SigParser
with_slot f uid slot = record f { slots = set f.slots (uid - tag_user) slot }

abbrev pub with_name : List ℕ → Slot → Slot
with_name xs old = record old {
  signatures_name_length = length xs;
  signatures_name = xs ++ (0 ∷ drop (length xs + 1) old.signatures_name);
}

abbrev pub with_signature : List ℕ → Slot → Slot
with_signature xs old = record old {
  signatures_length = length xs;
  signatures = xs ++ drop (length xs) old.signatures;
  sig_size = length xs;
  filled = true;
}

module _ (junk : List ℕ) (f : SigParser) where
  -- A suffix of the unread input, from the start of the buffer.
  pub suffix-State :
      (xs bytes st : List ℕ) (var : Bool) (p : SigParser)
      → State junk f (xs ++ bytes) st var p
      → (drop (f.size - length bytes) f.c ≡ bytes ++ junk) × (f.size - length bytes ≤ length f.c)
  suffix-State xs bytes st var p s =
      let q = s.place in
      let c_eq = ap (λ (r : SigParser). r.c) q.frame in
      let size_eq = ap (λ (r : SigParser). r.size) q.frame in
      let e = length-append xs bytes in
      let i : f.size - length bytes ≡ p.idx + length xs = omega (arith, size_eq, e, q.ends) in
      let input = q.input ∙ append_assoc xs bytes junk in
      let n = ap length input in
      let m = length-append xs (bytes ++ junk) in
      let d = length-drop p.idx p.c in
      let c_len = ap length c_eq in
      (
        rw (i, ← c_eq)
            (sym (drop-drop (length xs) p.idx p.c)
              ∙ (ap (λ t. drop (length xs) t) input ∙ drop-append_length xs (bytes ++ junk))),
        omega (arith, i, n, m, d, c_len, q.placed),
      )

  put_slot-State :
      (uid : ℕ) (slot : Slot) (bytes st : List ℕ) (var : Bool) (p : SigParser)
      → State junk f bytes st var p
      → Yields tt (State junk (with_slot f uid slot) bytes st var) (put_slot uid slot p)
  unfolding put_slot
  put_slot-State uid slot bytes st var p s = yields record {
    has_stack = record {
      full = s.has_stack.full;
      within = s.has_stack.within;
      stack = s.has_stack.stack;
    };
    place = record {
      input = s.place.input;
      ends = s.place.ends;
      small = s.place.small;
      placed = s.place.placed;
      var_eq = s.place.var_eq;
      frame =
          ap (λ (q : SigParser). record q { slots = set q.slots (uid - tag_user) slot })
            s.place.frame;
    };
  }

  get_slot_lem :
      (uid : ℕ) (old : Slot) (bytes st : List ℕ) (var : Bool) (p : SigParser)
      → first_of (drop (uid - tag_user) f.slots) ≡ some old
      → State junk f bytes st var p
      → get_slot uid p ≡ ok old p
  unfolding get_slot
  get_slot_lem uid old bytes st var p there s =
      let e = ap (λ (q : SigParser). first_of (drop (uid - tag_user) q.slots)) s.place.frame in
      rw (e ∙ there) refl

  copied_lem :
      (start : ℕ) (xs rest bytes st : List ℕ) (var : Bool) (p : SigParser)
      → (drop start f.c ≡ xs ++ rest) × (start ≤ length f.c)
      → State junk f bytes st var p
      → copied start (length xs) p.c ≡ some xs
  copied_lem start xs rest bytes st var p (h, within) s =
      ap (λ (q : SigParser). copied start (length xs) q.c) s.place.frame
      ∙ copied-part start xs rest f.c h within

  pub store_name-State :
      (uid start : ℕ) (old : Slot) (xs rest bytes st : List ℕ) (var : Bool) (p : SigParser)
      → first_of (drop (uid - tag_user) f.slots) ≡ some old
      → (drop start f.c ≡ xs ++ rest) × (start ≤ length f.c)
      → State junk f bytes st var p
      → Yields tt
          (State junk (with_slot f uid (with_name xs old)) bytes st var)
          (store_name uid start (length xs) p)
  unfolding store_name
  store_name-State uid start old xs rest bytes st var p there h s =
      rw (get_slot_lem uid old bytes st var p there s, copied_lem start xs rest bytes st var p h s)
        (put_slot-State uid (with_name xs old) bytes st var p s)

  pub store_signature-State :
      (uid start : ℕ) (old : Slot) (xs rest bytes st : List ℕ) (var : Bool) (p : SigParser)
      → first_of (drop (uid - tag_user) f.slots) ≡ some old
      → (drop start f.c ≡ xs ++ rest) × (start ≤ length f.c)
      → State junk f bytes st var p
      → Yields tt
          (State junk (with_slot f uid (with_signature xs old)) bytes st var)
          (store_signature uid start (length xs) p)
  unfolding store_signature
  store_signature-State uid start old xs rest bytes st var p there h s =
      rw (get_slot_lem uid old bytes st var p there s, copied_lem start xs rest bytes st var p h s)
        (put_slot-State uid (with_signature xs old) bytes st var p s)
