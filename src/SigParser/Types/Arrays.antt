-- ===== src/SigParser/Types/Arrays.antt =====
-- accept_array_decl and the types without parts.
use mathlib.Core.Path.{subst}
use labcomm_core.Common.{
  ℕ, ◌+◌, ◌^◌, ◌≤◌, ◌<◌, ◌≡◌, sym, Bool, true, false, ◌||◌, List, [], ◌∷◌, ◌++◌, append_assoc,
  arith, ◌==◌, if◌then◌else◌, length, Cmd, Yields, yields, bind, All, pure,
}
use labcomm_core.Wire.{packed32}
use labcomm_core.SigParser.{SigParser, array_decl, set_varsize, indices_loop, accept_array_decl}
use labcomm_core.SigParser.Input.{
  State, push_val-State, pop_val-State, advancen-State, get_varint-State, peek_varint_lem,
  set_varsize-State,
}
use labcomm_core.SigParser.Types.{
  Ty, array, ty, numbers, zeros, product, has_zero, tag, byte_size, has_var, Accepts,
}

pub or_assoc : (a b c : Bool) → ((a || b) || c) ≡ (a || (b || c))
or_assoc a b c = ground arith

pub or_false : (a : Bool) → (a || false) ≡ a
or_false a = ground arith

or_true : (a : Bool) → (a || true) ≡ true
or_true a = ground arith

module _ (junk : List ℕ) (f : SigParser) where
  -- The flag is set where the test holds.
  pub varsize_if-State :
      (b : Bool) (bytes st : List ℕ) (var : Bool) (p : SigParser)
      → State junk f bytes st var p
      → Yields tt (State junk f bytes st (var || b)) ((if b then set_varsize else pure tt) p)
  varsize_if-State true bytes st var p s =
      rw (or_true var) (set_varsize-State junk f bytes st var p s)
  varsize_if-State false bytes st var p s = rw (or_false var) (yields s)

  indices_loop-State :
      (dims : List ℕ) (n size : ℕ) (bytes st : List ℕ) (var : Bool) (p : SigParser)
      → All (λ d. d < 2 ^ 32) dims
      → State junk f (numbers dims ++ bytes) st var p
      → Yields
          (zeros n dims, product size dims)
          (State junk f bytes st (var || has_zero dims))
          (indices_loop (length dims) n size p)
  unfolding indices_loop
  indices_loop-State [] n size bytes st var p all s = rw (or_false var) (yields s)
  indices_loop-State (d ∷ ds) n size bytes st var p (fits, all) s =
      bind _
        (get_varint-State junk f d (numbers ds ++ bytes) st var p fits
          (subst (λ b. State junk f b st var p) (append_assoc (packed32 d) (numbers ds) bytes) s))
        (λ p1 s1. bind _ (varsize_if-State (d == 0) (numbers ds ++ bytes) st var p1 s1) (λ p2 s2.
          rw (sym (or_assoc var (d == 0) (has_zero ds)))
            (indices_loop-State ds _ _ bytes st (var || (d == 0)) p2 all s2)))

  pub accept_array_decl-State :
      (parse : Cmd SigParser Bool) (dims : List ℕ) (t : Ty) (bytes st : List ℕ) (var : Bool)
      (p : SigParser)
      → Accepts junk f parse t
      → length dims < 2 ^ 32
      → All (λ d. d < 2 ^ 32) dims
      → length st + 3 ≤ f.stacksize
      → State junk f (ty (array dims t) ++ bytes) st var p
      → Yields true
          (State junk f bytes
            (tag t ∷ (byte_size (array dims t) ∷ st))
            (var || has_var (array dims t)))
          (accept_array_decl parse p)
  unfolding accept_array_decl
  accept_array_decl-State parse dims t bytes st var p inner short all room s =
      let rest1 = packed32 (length dims) ++ (numbers dims ++ (ty t ++ bytes)) in
      let s0 : State junk f (packed32 array_decl ++ rest1) st var p =
        subst (λ b. State junk f b st var p) (simp append_assoc) s in
      rw (peek_varint_lem junk f array_decl rest1 st var p (omega arith) s0) (
        bind _ (advancen-State junk f (packed32 array_decl) rest1 st var p s0) (λ p1 s1.
          bind _
            (get_varint-State junk f (length dims) (numbers dims ++ (ty t ++ bytes)) st var p1 short
              s1)
            (λ p2 s2.
              bind _ (indices_loop-State dims 0 1 (ty t ++ bytes) st var p2 all s2) (λ p3 s3.
                bind _ (inner bytes st (var || has_zero dims) p3 room s3) (λ p4 s4.
                  bind _ (pop_val-State junk f (tag t) bytes _ _ p4 s4) (λ p5 s5.
                    bind _ (pop_val-State junk f (byte_size t) bytes _ _ p5 s5) (λ p6 s6.
                      bind _
                        (push_val-State junk f (byte_size (array dims t)) bytes st _ p6
                          (omega (arith, room)) s6)
                        (λ p7 s7.
                          bind _
                            (push_val-State junk f (tag t) bytes (byte_size (array dims t) ∷ st) _
                              p7 (omega (arith, room)) s7)
                            (λ p8 s8. yields (
                              subst
                                (λ v.
                                  State junk f bytes (tag t ∷ (byte_size (array dims t) ∷ st)) v p8)
                                (or_assoc var (has_zero dims) (has_var t)) s8))))))))))
