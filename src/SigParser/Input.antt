-- ===== src/SigParser/Input.antt =====
-- The buffer of the parser as a list of bytes that are still to be read: what the commands on
-- numbers and strings take from it.
use labcomm_core.Common.{
  ℕ, zero, suc, ◌+◌, ◌-◌, ◌*◌, ◌/◌, ◌%◌, ◌^◌, ◌≤◌, ◌<◌, ◌≡◌, refl, sym, ap, ◌∙◌, Bool, true, false,
  Bool-cases, inl, inr, some, List, [], ◌∷◌, ◌++◌, append_assoc, arith, ltb, ◌==◌, length,
  length-append, length-drop, drop, drop-drop, ok, Yields, yields, bind, weaken,
}
use mathlib.Core.Path.{subst}
use labcomm_core.Wire.{leading, packed32, string}
use labcomm_core.SigParser.{
  SigParser, push_val, pop_val, advancen, unpack_loop, unpack_varint, peek_varint, get_varint,
  str_size, get_str, accept_string, set_varsize,
}
use labcomm_core.SigParser.Stack.{HasStack, push_val-HasStack, pop_val-HasStack, beside}

-- The parser but for its stack, its place and its flag.
abbrev pub rest_of : SigParser → SigParser
rest_of p = record (beside p) { idx = 0; current_decl_is_varsize = false }

pub drop-append_length : {A : Type 0} (xs ys : List A) → drop (length xs) (xs ++ ys) ≡ ys
drop-append_length [] ys = refl
drop-append_length (x ∷ xs) ys = drop-append_length xs ys

-- The bytes of the buffer behind `size` are `junk`, and `f` is what never changes.
module _ (junk : List ℕ) (f : SigParser) where
  pub record Place (bytes : List ℕ) (var : Bool) (p : SigParser) : Type 0 where
    pub input : drop p.idx p.c ≡ bytes ++ junk
    pub ends : p.size ≡ p.idx + length bytes
    pub small : length p.c < 2 ^ 31
    pub placed : p.idx ≤ length p.c
    pub var_eq : p.current_decl_is_varsize ≡ var
    pub frame : rest_of p ≡ f

  pub record State (bytes st : List ℕ) (var : Bool) (p : SigParser) : Type 0 where
    pub has_stack : HasStack st p
    pub place : Place bytes var (beside p)

loop_group :
    (v i : ℕ) (rest : List ℕ)
    → v < 2 ^ 32
    → unpack_loop (v / 128) i ((v % 128 + 128) ∷ rest) ≡ unpack_loop v (i + 1) rest
unfolding unpack_loop
loop_group v i rest fits =
    let e : (v / 128 * 128 + (v % 128 + 128) % 128) % 2 ^ 32 ≡ v = omega arith in
    let t : ((v % 128 + 128) / 128 % 2 == 0) ≡ false = ground arith in rw (t, e) refl

loop_last :
    (v i : ℕ) (rest : List ℕ)
    → v < 2 ^ 32
    → unpack_loop (v / 128) i ((v % 128) ∷ rest) ≡ some (v, i + 1)
unfolding unpack_loop
loop_last v i rest fits =
    let e : (v / 128 * 128 + v % 128 % 128) % 2 ^ 32 ≡ v = omega arith in
    let t : (v % 128 / 128 % 2 == 0) ≡ true = ground arith in rw (t, e) refl

-- The loop over the leading bytes of `v`.
unpack-leading :
    (k v i : ℕ) (rest : List ℕ)
    → v < 128 ^ k
    → v < 2 ^ 32
    → unpack_loop 0 i (leading k v ++ rest) ≡ unpack_loop v (i + length (leading k v)) rest
unfolding leading
unpack-leading zero v i rest small fits =
    let e : v ≡ 0 = omega arith in let z : i + 0 ≡ i = omega arith in rw (e, z)
unpack-leading (suc k) v i rest small fits = elim (Bool-cases (v == 0)) [
  | inl h ↦ let e : v ≡ 0 = ground arith in let z : i + 0 ≡ i = omega arith in rw (h, e, z)
  | inr h ↦
      let n = length-append (leading k (v / 128)) ((v % 128 + 128) ∷ []) in
      let m : i + length (leading k (v / 128)) + 1
          ≡ i + length (leading k (v / 128) ++ ((v % 128 + 128) ∷ [])) =
        omega (arith, n) in
      rw (h, append_assoc)
        (unpack-leading k (v / 128) i (((v % 128 + 128) ∷ []) ++ rest) (omega arith) (omega arith)
          ∙ (loop_group v (i + length (leading k (v / 128))) rest fits
              ∙ ap (λ n. unpack_loop v n rest) m))
]

packed32-leading : (v : ℕ) → packed32 v ≡ leading 4 (v / 128) ++ ((v % 128) ∷ [])
unfolding packed32
packed32-leading v = refl

pub unpack_loop-packed32 :
    (v : ℕ) (rest : List ℕ)
    → v < 2 ^ 32
    → unpack_loop 0 0 (packed32 v ++ rest) ≡ some (v, length (packed32 v))
unpack_loop-packed32 v rest fits =
    let n = length-append (leading 4 (v / 128)) ((v % 128) ∷ []) in
    let m : 0 + length (leading 4 (v / 128)) + 1
        ≡ length (leading 4 (v / 128) ++ ((v % 128) ∷ [])) =
      omega (arith, n) in
    rw (packed32-leading v, append_assoc)
      (unpack-leading 4 (v / 128) 0 (((v % 128) ∷ []) ++ rest) (omega arith) (omega arith)
        ∙ (loop_last v (0 + length (leading 4 (v / 128))) rest fits ∙ ap (λ n. some (v, n)) m))

-- Before the packed form of a number of 32 bits, unpack_varint returns the number and how many
-- bytes it takes.
pub unpack_varint-packed32 :
    (v idx : ℕ) (buf rest : List ℕ)
    → v < 2 ^ 32
    → drop idx buf ≡ packed32 v ++ rest
    → unpack_varint buf idx ≡ some (v, length (packed32 v))
unfolding unpack_varint
unpack_varint-packed32 v idx buf rest fits h = rw h (unpack_loop-packed32 v rest fits)

pub string-append : (xs bytes : List ℕ) → string xs ++ bytes ≡ packed32 (length xs) ++ (xs ++ bytes)
unfolding string
string-append xs bytes = append_assoc (packed32 (length xs)) xs bytes

module _ (junk : List ℕ) (f : SigParser) where
  pub push_val-State :
      (e : ℕ) (bytes st : List ℕ) (var : Bool) (p : SigParser)
      → length st + 2 ≤ f.stacksize
      → State junk f bytes st var p
      → Yields tt (State junk f bytes (e ∷ st) var) (push_val e p)
  push_val-State e bytes st var p room s =
      let size = ap (λ (q : SigParser). q.stacksize) s.place.frame in
      weaken (push_val-HasStack e st p s.has_stack (omega (arith, size, room))) (λ p' (h, eq).
        record { has_stack = h; place = subst (Place junk f bytes var) (sym eq) s.place })

  pub pop_val-State :
      (e : ℕ) (bytes st : List ℕ) (var : Bool) (p : SigParser)
      → State junk f bytes (e ∷ st) var p
      → Yields e (State junk f bytes st var) (pop_val p)
  pop_val-State e bytes st var p s = weaken (pop_val-HasStack e st p s.has_stack) (λ p' (h, eq).
      record { has_stack = h; place = subst (Place junk f bytes var) (sym eq) s.place })

  pub advancen-State :
      (xs bytes st : List ℕ) (var : Bool) (p : SigParser)
      → State junk f (xs ++ bytes) st var p
      → Yields tt (State junk f bytes st var) (advancen (length xs) p)
  unfolding advancen
  advancen-State xs bytes st var p s =
      let q = s.place in
      let n = ap length (q.input ∙ append_assoc xs bytes junk) in
      let m = length-append xs (bytes ++ junk) in
      let d = length-drop p.idx p.c in
      let e = length-append xs bytes in
      let bound : p.idx + length xs ≤ length p.c = omega (arith, n, m, d, q.placed) in
      let i : (p.idx + length xs) % 2 ^ 32 ≡ p.idx + length xs = omega (arith, bound, q.small) in
      let fits : ltb (p.idx + length xs) (2 ^ 31) ≡ true = ground (arith, bound, q.small) in
      rw (i, fits)
        (yields record {
          has_stack = record {
            full = s.has_stack.full;
            within = s.has_stack.within;
            stack = s.has_stack.stack;
          };
          place = record {
            input =
                sym (drop-drop (length xs) p.idx p.c)
                ∙ (ap (λ t. drop (length xs) t) (q.input ∙ append_assoc xs bytes junk)
                    ∙ drop-append_length xs (bytes ++ junk));
            ends = omega (arith, q.ends, e);
            small = q.small;
            placed = bound;
            var_eq = q.var_eq;
            frame = q.frame;
          };
        })

  pub peek_varint_lem :
      (v : ℕ) (bytes st : List ℕ) (var : Bool) (p : SigParser)
      → v < 2 ^ 32
      → State junk f (packed32 v ++ bytes) st var p
      → peek_varint p ≡ ok (v, length (packed32 v)) p
  unfolding peek_varint
  peek_varint_lem v bytes st var p fits s =
      let q = s.place in
      rw
        (unpack_varint-packed32 v p.idx p.c (bytes ++ junk) fits
          (q.input ∙ append_assoc (packed32 v) bytes junk))
        refl

  pub get_varint-State :
      (v : ℕ) (bytes st : List ℕ) (var : Bool) (p : SigParser)
      → v < 2 ^ 32
      → State junk f (packed32 v ++ bytes) st var p
      → Yields v (State junk f bytes st var) (get_varint p)
  unfolding get_varint
  get_varint-State v bytes st var p fits s =
      rw (peek_varint_lem v bytes st var p fits s)
        (bind _ (advancen-State (packed32 v) bytes st var p s) (λ p' s'. yields s'))

  get_str-State :
      (xs bytes st : List ℕ) (var : Bool) (p : SigParser)
      → State junk f (xs ++ bytes) st var p
      → Yields tt (State junk f bytes st var) (get_str (length xs) p)
  unfolding get_str str_size
  get_str-State xs bytes st var p s =
      let q = s.place in
      let e = length-append xs bytes in
      let inside : ltb p.size p.idx ≡ false = ground (arith, q.ends) in
      let enough : ltb (p.size - p.idx) (length xs) ≡ false = ground (arith, q.ends, e) in
      rw (inside, enough) (advancen-State xs bytes st var p s)

  pub length-State :
      (bytes st : List ℕ) (var : Bool) (p : SigParser)
      → State junk f bytes st var p
      → length bytes < 2 ^ 31
  length-State bytes st var p s =
      let q = s.place in
      let n = ap length q.input in
      omega (arith, n, length-append bytes junk, length-drop p.idx p.c, q.small, q.placed)

  pub accept_string-State :
      (xs bytes st : List ℕ) (var : Bool) (p : SigParser)
      → length st + 2 ≤ f.stacksize
      → State junk f (string xs ++ bytes) st var p
      → Yields true (State junk f bytes (length xs ∷ st) var) (accept_string p)
  unfolding accept_string
  accept_string-State xs bytes st var p room s =
      let e = ap length (string-append xs bytes) in
      let n = length-append (packed32 (length xs)) (xs ++ bytes) in
      let m = length-append xs bytes in
      let fits : length xs < 2 ^ 32 =
        omega (arith, length-State (string xs ++ bytes) st var p s, e, n, m) in
      bind _
        (get_varint-State (length xs) (xs ++ bytes) st var p fits
          (subst (λ b. State junk f b st var p) (string-append xs bytes) s))
        (λ p1 s1. bind _ (get_str-State xs bytes st var p1 s1) (λ p2 s2.
          bind _ (push_val-State (length xs) bytes st var p2 room s2) (λ p3 s3. yields s3)))

  pub set_varsize-State :
      (bytes st : List ℕ) (var : Bool) (p : SigParser)
      → State junk f bytes st var p
      → Yields tt (State junk f bytes st true) (set_varsize p)
  unfolding set_varsize
  set_varsize-State bytes st var p s = yields record {
    has_stack = record {
      full = s.has_stack.full;
      within = s.has_stack.within;
      stack = s.has_stack.stack;
    };
    place = record {
      input = s.place.input;
      ends = s.place.ends;
      small = s.place.small;
      placed = s.place.placed;
      var_eq = refl;
      frame = s.place.frame;
    };
  }

  pub idx-State :
      (bytes st : List ℕ) (var : Bool) (p : SigParser)
      → State junk f bytes st var p
      → p.idx ≡ f.size - length bytes
  idx-State bytes st var p s =
      let e = ap (λ (q : SigParser). q.size) s.place.frame in omega (arith, e, s.place.ends)
