-- ===== src/SigParser/Packets/Samples.antt =====
-- accept_packet on the definition of a sample, as the encoder sends it.
use mathlib.Core.Path.{subst}
use labcomm_core.Common.{
  ℕ, zero, suc, ◌+◌, ◌-◌, ◌^◌, ◌≤◌, ◌<◌, ◌≡◌, refl, sym, ap, ◌∙◌, Bool, true, false, ◌||◌, some,
  List, [], ◌∷◌, ◌++◌, append-nil, append_assoc, arith, ltb, leb, if◌then◌else◌, length,
  length-append, length-drop, drop-drop, set, drop, halt, pure, ◌>>◌, Yields, yields, bind,
}
use labcomm_core.Wire.{packed32, string, tag_sample_def, tag_user}
use labcomm_core.Signature.{Signature, name, flat, size}
use labcomm_core.Encoder.Packets.{packet, packet-append, definition, length-string_le}
use labcomm_core.SigParser.{Slot, SigParser, first_of, clear_varsize, accept_user_id}
use labcomm_core.SigParser.Input.{
  State, push_val-State, pop_val-State, advancen-State, get_varint-State, peek_varint_lem,
  idx-State, string-append, drop-append_length, length-State,
}
use labcomm_core.SigParser.Types.{Ty, ty, tag, byte_size, has_var, IsTy, depth, Intentions}
use labcomm_core.SigParser.Types.Structs.{as_bytes, accept_intentions-State, accept_type-type}
use labcomm_core.SigParser.Packets.{
  accept_signature, span, accept_named, accept_decl, accept_packet, store_signature, varint_sizeof,
}
use labcomm_core.SigParser.Packets.Names.{
  varint_sizeof-length, suffix-State, with_slot, with_name, with_signature, store_name-State,
  store_signature-State,
}

set-set : {A : Type 0} (i : ℕ) (xs : List A) (a b : A) → set (set xs i a) i b ≡ set xs i b
set-set i [] a b = refl
set-set zero (x ∷ xs) a b = refl
set-set (suc i) (x ∷ xs) a b = ap (λ t. x ∷ t) (set-set i xs a b)

first_of-set :
    {A : Type 0} (i : ℕ) (xs : List A) (a b : A)
    → first_of (drop i xs) ≡ some b
    → first_of (drop i (set xs i a)) ≡ some a
first_of-set zero [] a b h = absurd (cc)
first_of-set (suc i) [] a b h = absurd (cc)
first_of-set zero (x ∷ xs) a b h = refl
first_of-set (suc i) (x ∷ xs) a b h = first_of-set i xs a b h

span_lem : (n end start : ℕ) → end ≡ start + n → span end start ≡ n
span_lem n end start h = ground arith

module _ (junk : List ℕ) (f : SigParser) where
  accept_user_id-State :
      (uid : ℕ) (bytes st : List ℕ) (var : Bool) (p : SigParser)
      → tag_user ≤ uid
      → uid < 2 ^ 31
      → length st + 2 ≤ f.stacksize
      → State junk f (packed32 uid ++ bytes) st var p
      → Yields true (State junk f bytes (uid ∷ st) var) (accept_user_id p)
  unfolding accept_user_id
  accept_user_id-State uid bytes st var p lo hi room s =
      let test : (ltb uid tag_user || leb (2 ^ 31) uid) ≡ false = ground arith in
      rw (peek_varint_lem junk f uid bytes st var p (omega (arith, hi)) s, test)
        (bind _ (advancen-State junk f (packed32 uid) bytes st var p s) (λ p1 s1.
          bind _ (push_val-State junk f uid bytes st var p1 room s1) (λ p2 s2. yields s2)))

  clear_varsize-State :
      (bytes st : List ℕ) (var : Bool) (p : SigParser)
      → State junk f bytes st var p
      → Yields tt (State junk f bytes st false) (clear_varsize p)
  unfolding clear_varsize
  clear_varsize-State bytes st var p s = yields record {
    has_stack = record {
      full = s.has_stack.full;
      within = s.has_stack.within;
      stack = s.has_stack.stack;
    };
    place = record {
      input = s.place.input;
      ends = s.place.ends;
      small = s.place.small;
      placed = s.place.placed;
      var_eq = refl;
      frame = s.place.frame;
    };
  }

  stored :
      (uid start : ℕ) (old : Slot) (xs rest bytes st : List ℕ) (var : Bool) (p : SigParser)
      → span p.idx start ≡ length xs
      → leb (length xs) p.max_sig_len ≡ true
      → first_of (drop (uid - tag_user) f.slots) ≡ some old
      → (drop start f.c ≡ xs ++ rest) × (start ≤ length f.c)
      → State junk f bytes st var p
      → Yields true (State junk (with_slot f uid (with_signature xs old)) bytes st var) (
          (λ (p : SigParser).
              let len = span p.idx start in
              if leb len p.max_sig_len
              then (store_signature uid start len >> pure true) p
              else halt)
            p)
  stored uid start old xs rest bytes st var p len test there h s =
      rw (len, test)
        (bind _ (store_signature-State junk f uid start old xs rest bytes st var p there h s)
          (λ p1 s1. yields s1))

  accept_signature-State :
      (fuel uid n : ℕ) (sig : List ℕ) (t : Ty) (old : Slot) (bytes st : List ℕ) (var : Bool)
      (p : SigParser)
      → sig ≡ ty t
      → n < 2 ^ 32
      → depth t < fuel
      → IsTy t
      → length st + 3 ≤ f.stacksize
      → first_of (drop (uid - tag_user) f.slots) ≡ some old
      → length (packed32 n ++ sig) ≤ f.max_sig_len
      → State junk f ((packed32 n ++ sig) ++ bytes) st var p
      → Yields true
          (State junk
            (with_slot f uid (with_signature (packed32 n ++ sig) old))
            bytes
            st
            (var || has_var t))
          (accept_signature fuel tag_sample_def
            (f.size - length ((packed32 n ++ sig) ++ bytes))
            uid
            p)
  unfolding accept_signature
  accept_signature-State fuel uid n sig t old bytes st var p same short d ok_t room there fits s =
      let xs = packed32 n ++ sig in
      let (h, within) = suffix-State junk f [] (xs ++ bytes) st var p s in
      bind _
        (get_varint-State junk f n (sig ++ bytes) st var p short
          (as_bytes junk f (append_assoc (packed32 n) (sig) bytes) s))
        (λ p1 s1.
          bind _
            (accept_type-type junk f fuel t bytes st var p1 d ok_t room
              (as_bytes junk f (ap (λ b. b ++ bytes) same) s1))
            (λ p2 s2. bind _ (pop_val-State junk f (tag t) bytes _ _ p2 s2) (λ p3 s3.
              bind _ (pop_val-State junk f (byte_size t) bytes st _ p3 s3) (λ p4 s4.
                let e1 = ap (λ (q : SigParser). q.size) s4.place.frame in
                let e2 = ap (λ (q : SigParser). q.max_sig_len) s4.place.frame in
                let e3 = length-append xs bytes in
                let e4 = ap (λ (q : SigParser). q.size) s.place.frame in
                let start = f.size - length (xs ++ bytes) in
                let len =
                  span_lem (length xs) p4.idx start
                    (omega (arith, e1, e3, e4, s4.place.ends, s.place.ends)) in
                let test : leb (length xs) p4.max_sig_len ≡ true = ground (arith, e2, fits) in
                stored uid (f.size - length (xs ++ bytes)) old xs (bytes ++ junk) bytes st _ p4 len
                  test there (h ∙ append_assoc xs bytes junk, within) s4))))

-- The slot of a definition that has been accepted: the name, and the type behind its length.
abbrev pub recorded : Signature → Slot → Slot
recorded s old = with_signature (packed32 (size s) ++ flat s) (with_name (name s) old)

-- The definition in the form that accept_decl takes it apart.
decl_bytes :
    (i n : ℕ) (chars bytes : List ℕ) (rest : List ℕ)
    → (packed32 i ++ (packed32 1 ++ (packed32 0 ++ (string chars ++ (packed32 n ++ bytes)))))
        ++ rest
      ≡ packed32 i
        ++ (packed32 1 ++ ((string [] ++ (string chars ++ [])) ++ ((packed32 n ++ bytes) ++ rest)))
unfolding packed32 string
decl_bytes i n chars bytes rest = simp (append_assoc, append-nil)

-- What is asked of a definition, so that it is recorded: an id in range with a slot, a flat
-- signature that encodes a type, within the fuel, and lengths within the parser's bounds.
pub record IsRecordable (f : SigParser) (fuel i : ℕ) (s : Signature) (t : Ty) (old : Slot)
    : Type 0 where
  pub lo : tag_user ≤ i
  pub hi : i < 2 ^ 31
  pub size_fits : size s < 2 ^ 32
  pub same : flat s ≡ ty t
  pub deep : depth t < fuel
  pub is_ty : IsTy t
  pub slot : first_of (drop (i - tag_user) f.slots) ≡ some old
  pub name_fits : length (name s) < f.max_name_len
  pub sig_fits : length (packed32 (size s) ++ flat s) ≤ f.max_sig_len

module _ (junk : List ℕ) (f : SigParser) where
  -- The name lies behind its own length.
  name_placed :
      (chars more : List ℕ) (start : ℕ)
      → length chars < 2 ^ 32
      → (drop start f.c ≡ (string chars ++ more) ++ junk) × (start ≤ length f.c)
      → (drop (start + varint_sizeof (length chars)) f.c ≡ chars ++ (more ++ junk))
        × (start + varint_sizeof (length chars) ≤ length f.c)
  name_placed chars more start short (h, within) =
      let k = packed32 (length chars) in
      let e = varint_sizeof-length (length chars) short in
      let split : (string chars ++ more) ++ junk ≡ k ++ (chars ++ (more ++ junk)) =
        append_assoc (string chars) more junk ∙ string-append chars (more ++ junk) in
      let n = ap length (h ∙ split) in
      rw e (
        sym (drop-drop (length k) start f.c)
            ∙ (ap (λ t. drop (length k) t) (h ∙ split)
                ∙ drop-append_length k (chars ++ (more ++ junk))),
        omega (arith, n, within, length-append k (chars ++ (more ++ junk)), length-drop start f.c),
      )

  slots_eq :
      (i : ℕ) (s : Signature) (old : Slot)
      → with_slot (with_slot f i (with_name (name s) old)) i (recorded s old)
        ≡ with_slot f i (recorded s old)
  slots_eq i s old =
      ap (λ x. record f { slots = x })
        (set-set (i - tag_user) f.slots (with_name (name s) old) (recorded s old))

  accept_named-State :
      (fuel i nstart start : ℕ) (s : Signature) (t : Ty) (old : Slot) (rest st : List ℕ)
      (var : Bool) (p : SigParser)
      → IsRecordable f fuel i s t old
      → start ≡ f.size - length ((packed32 (size s) ++ flat s) ++ rest)
      → length (name s) < 2 ^ 32
      → length st + 3 ≤ f.stacksize
      → (drop nstart f.c ≡ (string (name s) ++ ((packed32 (size s) ++ flat s) ++ rest)) ++ junk)
        × (nstart ≤ length f.c)
      → State junk f ((packed32 (size s) ++ flat s) ++ rest) (nstart ∷ (length (name s) ∷ st)) var p
      → Yields true
          (State junk (with_slot f i (recorded s old)) rest st (var || has_var t))
          (accept_named fuel tag_sample_def i start p)
  unfolding accept_named
  accept_named-State fuel i nstart start s t old rest st var p r e short room at h =
      let f1 = with_slot f i (with_name (name s) old) in
      let more = (packed32 (size s) ++ flat s) ++ rest in
      bind _ (pop_val-State junk f nstart more _ var p h) (λ p1 s1.
        bind _ (pop_val-State junk f (length (name s)) more st var p1 s1) (λ p2 s2.
          let max = ap (λ (q : SigParser). q.max_name_len) s2.place.frame in
          let test : ltb (length (name s)) p2.max_name_len ≡ true =
            ground (arith, max, r.name_fits) in
          rw test (
            bind _
              (store_name-State junk f i _ old (name s) _ more st var p2 r.slot
                (name_placed (name s) more nstart short at) s2)
              (λ p3 s3.
                let there =
                  first_of-set (i - tag_user) f.slots (with_name (name s) old) old r.slot in
                let q =
                  accept_signature-State junk f1 fuel i (size s) (flat s) t (with_name (name s) old)
                    rest st var p3 r.same r.size_fits r.deep r.is_ty room there r.sig_fits s3 in
                rw e (
                  subst
                    (λ g.
                      Yields true (State junk g rest st (var || has_var t))
                        (accept_signature fuel tag_sample_def (f.size - length more) i p3))
                    (slots_eq i s old) q)))))

  accept_decl-State :
      (fuel i : ℕ) (s : Signature) (t : Ty) (old : Slot) (rest st : List ℕ) (var : Bool)
      (p : SigParser)
      → IsRecordable f fuel i s t old
      → length st + 3 ≤ f.stacksize
      → State junk f (definition i s ++ rest) st var p
      → Yields true
          (State junk (with_slot f i (recorded s old)) rest st (var || has_var t))
          (accept_decl fuel tag_sample_def p)
  unfolding accept_decl definition
  accept_decl-State fuel i s t old rest st var p r room h =
      let more = (packed32 (size s) ++ flat s) ++ rest in
      let ks : Intentions = ([], name s) ∷ [] in
      bind _
        (accept_user_id-State junk f i _ st var p r.lo r.hi (omega (arith, room))
          (as_bytes junk f (decl_bytes i (size s) (name s) (flat s) rest) h))
        (λ p1 s1. bind _ (pop_val-State junk f i _ st var p1 s1) (λ p2 s2.
          let h2 : State junk f ((packed32 1 ++ string []) ++ (string (name s) ++ more)) st var p2 =
            as_bytes junk f (simp (append_assoc, append-nil)) s2 in
          let at =
            suffix-State junk f (packed32 1 ++ string []) (string (name s) ++ more) st var p2 h2 in
          let short : length (name s) < 2 ^ 32 = omega (
            arith,
            length-State junk f _ st var p2 h2,
            length-append (packed32 1 ++ string []) (string (name s) ++ more),
            length-append (string (name s)) more,
            length-string_le (name s),
          ) in
          bind _ (accept_intentions-State junk f ks more st var p2 (omega arith) room s2) (λ p3 s3.
            accept_named-State fuel i _ p3.idx s t old rest st var p3 r
              (idx-State junk f more _ var p3 s3) short room at s3)))

  -- Before the packet that the encoder sends for the definition of a sample, with an id from
  -- LABCOMM_USER on and below 2^31 that has a slot, whose flat signature encodes a type of a
  -- nesting below the fuel, whose name and signature are within the parser's bounds and whose
  -- numbers have 32 bits, and with room for three numbers on the stack, accept_packet returns
  -- true and stands behind the packet. The slot of the id gets the name with a NUL, and the
  -- signature behind its length; no other slot changes, the stack is as before, and the flag
  -- tells whether the type has a part of variable size.
  pub accept_packet-definition :
      (fuel i : ℕ) (s : Signature) (t : Ty) (old : Slot) (rest st : List ℕ) (var : Bool)
      (p : SigParser)
      → IsRecordable f fuel i s t old
      → length (definition i s) < 2 ^ 32
      → length st + 3 ≤ f.stacksize
      → State junk f (packet tag_sample_def (definition i s) ++ rest) st var p
      → Yields true
          (State junk (with_slot f i (recorded s old)) rest st (has_var t))
          (accept_packet fuel p)
  unfolding accept_packet
  accept_packet-definition fuel i s t old rest st var p r short room h =
      let body = definition i s in
      let h0 = as_bytes junk f (packet-append tag_sample_def body rest) h in
      rw (peek_varint_lem junk f tag_sample_def _ st var p (omega arith) h0) (
        bind _ (clear_varsize-State junk f _ st var p h0) (λ p1 s1.
          bind _ (advancen-State junk f (packed32 tag_sample_def) _ st false p1 s1) (λ p2 s2.
            bind _ (get_varint-State junk f (length body) (body ++ rest) st false p2 short s2)
              (λ p3 s3.
                bind _ (accept_decl-State fuel i s t old rest st false p3 r room s3)
                  (λ p4 s4. yields s4)))))
