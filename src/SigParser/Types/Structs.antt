-- ===== src/SigParser/Types/Structs.antt =====
-- accept_intentions, accept_struct_decl and accept_type.
use mathlib.Core.Path.{subst}
use labcomm_core.Common.{
  ℕ, zero, suc, ◌+◌, ◌^◌, ◌≤◌, ◌<◌, ◌≡◌, refl, sym, ap, Bool, true, false, ◌||◌, Option, none, some,
  List, [], ◌∷◌, ◌++◌, append_assoc, arith, ◌==◌, if◌then◌else◌, length, Cmd, Run, Yields, yields,
  bind,
}
use labcomm_core.Wire.{packed32, string}
use labcomm_core.SigParser.{
  SigParser, array_decl, struct_decl, type_string, pushed_size, intentions_loop, accept_intentions,
  accept_field, fields_loop, accept_struct_decl, accept_primitive, accept_type,
}
use labcomm_core.SigParser.Input.{
  State, push_val-State, pop_val-State, advancen-State, get_varint-State, peek_varint_lem,
  accept_string-State, idx-State,
}
use labcomm_core.SigParser.Types.{
  Intentions, Ty, simple, array, struct, Fields, no_fields, field, ty, ty_fields, numbers, strings,
  fields, name_place, tag, byte_size, byte_sizes, has_var, have_var, IsTy, AreTys, depth, depths,
  or_zero, is_some, is_known, Accepts,
}
use labcomm_core.SigParser.Types.Arrays.{
  or_assoc, or_false, varsize_if-State, accept_array_decl-State,
}

as_result :
    {A : Type 0} {a b : A} {P : SigParser → Type 0} {r : Run SigParser A}
    → a ≡ b
    → Yields a P r
    → Yields b P r
as_result {P = P} {r = r} e y = subst (λ x. Yields x P r) e y

module _ (junk : List ℕ) (f : SigParser) where
  -- Other bytes, in another form.
  pub as_bytes :
      {bytes bytes' st : List ℕ} {var : Bool} {p : SigParser}
      → bytes ≡ bytes'
      → State junk f bytes st var p
      → State junk f bytes' st var p
  as_bytes {st = st} {var = var} {p = p} e s = subst (λ b. State junk f b st var p) e s

  intentions_loop-State :
      (ks : Intentions) (npos nlen : ℕ) (bytes st : List ℕ) (var : Bool) (p : SigParser)
      → length st + 2 ≤ f.stacksize
      → State junk f (strings ks ++ bytes) st var p
      → Yields
          (name_place f.size bytes ks npos nlen)
          (State junk f bytes st var)
          (intentions_loop (length ks) npos nlen p)
  unfolding intentions_loop
  intentions_loop-State [] npos nlen bytes st var p room s = yields s
  intentions_loop-State ((key, value) ∷ more) npos nlen bytes st var p room s =
      bind _
        (accept_string-State junk f key (string value ++ (strings more ++ bytes)) st var p room
          (as_bytes (simp append_assoc) s))
        (λ p1 s1. bind _ (pop_val-State junk f (length key) _ st var p1 s1) (λ p2 s2.
          let here = idx-State junk f (string value ++ (strings more ++ bytes)) st var p2 s2 in
          as_result
            (ap
              (λ h.
                name_place f.size bytes more (if length key == 0 then h else npos)
                  (if length key == 0 then length value else nlen))
              here)
            (bind _ (accept_string-State junk f value (strings more ++ bytes) st var p2 room s2)
              (λ p3 s3.
                bind _ (pop_val-State junk f (length value) _ st var p3 s3)
                  (λ p4 s4. intentions_loop-State more _ _ bytes st var p4 room s4)))))

  pub accept_intentions-State :
      (ks : Intentions) (bytes st : List ℕ) (var : Bool) (p : SigParser)
      → length ks < 2 ^ 32
      → length st + 3 ≤ f.stacksize
      → State junk f (packed32 (length ks) ++ (strings ks ++ bytes)) st var p
      → Yields true
          (State junk f bytes
            ((name_place f.size bytes ks 0 0).0 ∷ ((name_place f.size bytes ks 0 0).1 ∷ st))
            var)
          (accept_intentions p)
  unfolding accept_intentions
  accept_intentions-State ks bytes st var p short room s =
      bind _ (get_varint-State junk f (length ks) (strings ks ++ bytes) st var p short s) (λ p1 s1.
        bind _ (intentions_loop-State ks 0 0 bytes st var p1 (omega (arith, room)) s1) (λ p2 s2.
          bind _
            (push_val-State junk f (name_place f.size bytes ks 0 0).1 bytes st var p2
              (omega (arith, room)) s2)
            (λ p3 s3.
              bind _
                (push_val-State junk f (name_place f.size bytes ks 0 0).0 bytes _ var p3
                  (omega (arith, room)) s3)
                (λ p4 s4. yields s4))))

  accept_field-State :
      (parse : Cmd SigParser Bool) (ks : Intentions) (t : Ty) (bytes st : List ℕ) (var : Bool)
      (p : SigParser)
      → Accepts junk f parse t
      → length ks < 2 ^ 32
      → length st + 3 ≤ f.stacksize
      → State junk f (packed32 (length ks) ++ (strings ks ++ (ty t ++ bytes))) st var p
      → Yields true
          (State junk f bytes (byte_size t ∷ st) (var || has_var t))
          (accept_field parse p)
  unfolding accept_field
  accept_field-State parse ks t bytes st var p inner short room s =
      bind _ (accept_intentions-State ks (ty t ++ bytes) st var p short room s) (λ p1 s1.
        bind _ (pop_val-State junk f _ _ _ var p1 s1) (λ p2 s2.
          bind _ (pop_val-State junk f _ _ st var p2 s2) (λ p3 s3.
            bind _ (inner bytes st var p3 room s3) (λ p4 s4.
              bind _ (pop_val-State junk f (tag t) bytes _ _ p4 s4) (λ p5 s5. yields s5)))))

  module _ (parse : Cmd SigParser Bool) (fuel : ℕ)
      (inner : (t : Ty) → depth t < fuel → IsTy t → Accepts junk f parse t) where
    fields_loop-State :
        (fs : Fields) (n : ℕ) (bytes st : List ℕ) (var : Bool) (p : SigParser)
        → depths fs < fuel
        → AreTys fs
        → length st + 3 ≤ f.stacksize
        → State junk f (ty_fields fs ++ bytes) st var p
        → Yields
            (byte_sizes n fs)
            (State junk f bytes st (var || have_var fs))
            (fields_loop parse (fields fs) n p)
    unfolding fields_loop
    fields_loop-State no_fields n bytes st var p d ok room s = rw (or_false var) (yields s)
    fields_loop-State (field ks t more) n bytes st var p d (short, (here, there)) room s =
        bind _
          (accept_field-State parse ks t (ty_fields more ++ bytes) st var p
            (inner t (omega (arith, d)) here) short room (as_bytes (simp append_assoc) s))
          (λ p1 s1. bind _ (pop_val-State junk f (byte_size t) _ st _ p1 s1) (λ p2 s2.
            rw (sym (or_assoc var (has_var t) (have_var more))) (
              fields_loop-State more _ bytes st (var || has_var t) p2 (omega (arith, d)) there room
                s2)))

    accept_struct_decl-State :
        (fs : Fields) (bytes st : List ℕ) (var : Bool) (p : SigParser)
        → depths fs < fuel
        → fields fs < 2 ^ 32
        → AreTys fs
        → length st + 3 ≤ f.stacksize
        → State junk f (ty (struct fs) ++ bytes) st var p
        → Yields true
            (State junk f bytes (byte_sizes 0 fs ∷ st) (var || have_var fs))
            (accept_struct_decl parse p)
    unfolding accept_struct_decl
    accept_struct_decl-State fs bytes st var p d short ok room s =
        let rest1 = packed32 (fields fs) ++ (ty_fields fs ++ bytes) in
        let s0 : State junk f (packed32 struct_decl ++ rest1) st var p =
          as_bytes (simp append_assoc) s in
        rw (peek_varint_lem junk f struct_decl rest1 st var p (omega arith) s0) (
          bind _ (advancen-State junk f (packed32 struct_decl) rest1 st var p s0) (λ p1 s1.
            bind _ (get_varint-State junk f (fields fs) (ty_fields fs ++ bytes) st var p1 short s1)
              (λ p2 s2. bind _ (fields_loop-State fs 0 bytes st var p2 d ok room s2) (λ p3 s3.
                bind _
                  (push_val-State junk f (byte_sizes 0 fs) bytes st _ p3 (omega (arith, room)) s3)
                  (λ p4 s4. yields s4)))))

  accept_primitive-State :
      (n : ℕ) (o : Option ℕ) (bytes st : List ℕ) (var : Bool) (p : SigParser)
      → ((o ≡ none) → (n == type_string) ≡ false)
      → length st + 3 ≤ f.stacksize
      → State junk f (packed32 n ++ bytes) st var p
      → Yields
          (is_some o)
          (State junk f bytes (n ∷ (or_zero o ∷ st)) (var || (n == type_string)))
          (accept_primitive n (length (packed32 n)) o p)
  unfolding accept_primitive
  accept_primitive-State n none bytes st var p h room s =
      rw (h refl, or_false var)
        (bind _ (advancen-State junk f (packed32 n) bytes st var p s) (λ p1 s1.
          bind _ (push_val-State junk f 0 bytes st var p1 (omega (arith, room)) s1) (λ p2 s2.
            bind _ (push_val-State junk f n bytes (0 ∷ st) var p2 (omega (arith, room)) s2)
              (λ p3 s3. yields s3))))
  accept_primitive-State n (some size) bytes st var p h room s =
      bind _ (advancen-State junk f (packed32 n) bytes st var p s) (λ p1 s1.
        bind _ (varsize_if-State junk f (n == type_string) bytes st var p1 s1) (λ p2 s2.
          bind _ (push_val-State junk f size bytes st _ p2 (omega (arith, room)) s2) (λ p3 s3.
            bind _ (push_val-State junk f n bytes (size ∷ st) _ p3 (omega (arith, room)) s3)
              (λ p4 s4. yields s4))))

  string_has_size : (n : ℕ) → pushed_size n ≡ none → (n == type_string) ≡ false
  unfolding pushed_size
  string_has_size n h = ground arith

  accepts : (fuel : ℕ) (t : Ty) → depth t < fuel → IsTy t → Accepts junk f (accept_type fuel) t
  unfolding accept_type
  accepts zero t d ok bytes st var p room s = absurd (omega arith)
  accepts (suc fuel) (simple n) d (fits, (not_array, not_struct)) bytes st var p room s =
      let a : (n == array_decl) ≡ false = ground arith in
      let b : (n == struct_decl) ≡ false = ground arith in
      rw (peek_varint_lem junk f n bytes st var p fits s, a, b)
        (accept_primitive-State n (pushed_size n) bytes st var p (string_has_size n) room s)
  accepts (suc fuel) (array dims t) d (short, (all, ok)) bytes st var p room s =
      let s0 =
        as_bytes
          (append_assoc (packed32 array_decl) (packed32 (length dims) ++ (numbers dims ++ ty t))
            bytes)
          s in
      rw (peek_varint_lem junk f array_decl _ st var p (omega arith) s0) (
        bind _
          (accept_array_decl-State junk f (accept_type fuel) dims t bytes st var p
            (accepts fuel t (omega (arith, d)) ok) short all room s)
          (λ p1 s1. bind _ (pop_val-State junk f (tag t) bytes _ _ p1 s1) (λ p2 s2.
            bind _ (push_val-State junk f array_decl bytes _ _ p2 (omega (arith, room)) s2)
              (λ p3 s3. yields s3))))
  accepts (suc fuel) (struct fs) d (short, ok) bytes st var p room s =
      let s0 =
        as_bytes (append_assoc (packed32 struct_decl) (packed32 (fields fs) ++ ty_fields fs) bytes)
          s in
      rw (peek_varint_lem junk f struct_decl _ st var p (omega arith) s0) (
        bind _
          (accept_struct_decl-State (accept_type fuel) fuel (accepts fuel) fs bytes st var p
            (omega (arith, d)) short ok room s)
          (λ p1 s1.
            bind _ (push_val-State junk f struct_decl bytes _ _ p1 (omega (arith, room)) s1)
              (λ p2 s2. yields s2)))

  -- Before the encoding of a type of a nesting below the fuel, whose numbers have 32 bits, and
  -- with room for three numbers on the stack, accept_type stops behind the encoding and has
  -- pushed the size of the type, as far as it is fixed, and its tag. It returns whether the
  -- type is a user type, false, or another, true, sets the flag if a part of the type has a
  -- variable size, and changes nothing else.
  pub accept_type-type :
      (fuel : ℕ) (t : Ty) (bytes st : List ℕ) (var : Bool) (p : SigParser)
      → depth t < fuel
      → IsTy t
      → length st + 3 ≤ f.stacksize
      → State junk f (ty t ++ bytes) st var p
      → Yields
          (is_known t)
          (State junk f bytes (tag t ∷ (byte_size t ∷ st)) (var || has_var t))
          (accept_type fuel p)
  accept_type-type fuel t bytes st var p d ok = accepts fuel t d ok bytes st var p
