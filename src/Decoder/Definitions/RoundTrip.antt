-- ===== src/Decoder/Definitions/RoundTrip.antt =====
-- The definition that the encoder sends is the one that the decoder receives.
use labcomm_core.Common.{
  ℕ, ◌+◌, ◌^◌, ◌≤◌, ◌<◌, ◌≡◌, Bool, true, false, ◌||◌, ◌==◌, some, List, [], ◌∷◌, ◌++◌,
  append_assoc, arith, length, All, ℤ, pos, eqb_ℤ, is_neg, to_int-small, minus_enoent, Cmd, Yields,
  yields, bind,
}
use labcomm_core.Wire.{packed32, string}
use labcomm_core.Reader.{Reader, ReaderAction}
use labcomm_core.Reader.Source.{Source, At}
use labcomm_core.Reader.Packed.{read_packed32-packed32}
use labcomm_core.Reader.Words.{read_byte-cons}
use labcomm_core.Reader.Strings.{read_string-string}
use labcomm_core.Signature.{Signature, name, flat, size}
use labcomm_core.Encoder.Packets.{definition}
use labcomm_core.Decoder.{Decoder, bind_reader}
use labcomm_core.Decoder.Definitions.{
  Received, read_bytes, read_intentions, intentions_loop, warn, signature_bytes, decode_definition,
}

-- What a definition of `s` comes out as.
abbrev pub received : Signature → Received
received s = record { name = some (name s); size = pos (size s); bytes = flat s }

module _ {C : Type 0} {act : ReaderAction C} (src : Source act) {memory : ℕ → Bool} where
  went_well : {xs : List ℕ} (r : Reader C) → At src memory xs r → is_neg r.error ≡ false
  went_well r a = let e : r.error ≡ pos 0 = a.ready.clean in rw e

  read_bytes-At :
      (bs rest : List ℕ) (r : Reader C)
      → All (λ b. b < 256) bs
      → At src memory (bs ++ rest) r
      → Yields bs (At src memory rest) (read_bytes act (length bs) r)
  unfolding read_bytes
  read_bytes-At [] rest r h a = yields a
  read_bytes-At (b ∷ bs) rest r (p, h) a =
      bind _ (read_byte-cons src b (bs ++ rest) r p a) (λ r1 a1.
        rw (went_well r1 a1) (bind _ (read_bytes-At bs rest r1 h a1) (λ r2 a2. yields a2)))

  module _ (fuel : ℕ) (enough : 5 ≤ fuel) where
    -- The intentions that the encoder writes: one, whose key is empty, and the name for its value.
    read_intentions-name :
        (chars rest : List ℕ) (r : Reader C)
        → length chars < 2 ^ 31
        → memory (length chars + 1) ≡ true
        → At src memory (packed32 1 ++ (packed32 0 ++ (string chars ++ rest))) r
        → Yields (some chars) (At src memory rest) (read_intentions act fuel r)
    unfolding read_intentions intentions_loop packed32
    read_intentions-name chars rest r short room a =
        bind _ (read_byte-cons src 1 (packed32 0 ++ (string chars ++ rest)) r (omega arith) a)
          (λ r1 a1.
            bind _
              (read_packed32-packed32 src fuel 0 (string chars ++ rest) r1 enough (omega arith) a1)
              (λ r2 a2.
                bind _ (read_string-string src fuel chars rest r2 enough short room a2)
                  (λ r3 a3. yields a3)))

module _ {C V : Type 0} {act : ReaderAction C} (src : Source act) (fuel : ℕ)
    (enough : 5 ≤ fuel) where
  -- Before the definition that the encoder sends for a signature, with an index, a name and a
  -- size below 2^31, bytes below 256, and memory for both, the decoder reads the index and the
  -- signature back and hands them to the function for its kind of definition. If that yields a
  -- result other than -ENOENT from every reader that stands behind the definition, this is the
  -- result.
  pub decode_definition-definition :
      {b : ℤ} {Q : Decoder C V → Type 0} (memory : ℕ → Bool) (i : ℕ) (s : Signature) (rest : List ℕ)
      (handle : ℤ → Received → Cmd (Decoder C V) ℤ) (d : Decoder C V)
      → i < 2 ^ 31
      → length (name s) < 2 ^ 31
      → size s < 2 ^ 31
      → All (λ x. x < 256) (flat s)
      → memory (length (name s) + 1) ≡ true
      → d.memory (size s) ≡ true
      → At src memory (definition i s ++ rest) d.reader
      → eqb_ℤ b minus_enoent ≡ false
      → ((r : Reader C)
          → At src memory rest r
          → Yields b Q (handle (pos i) (received s) (record d { reader = r })))
      → Yields b Q (decode_definition act fuel handle d)
  unfolding decode_definition signature_bytes warn definition
  decode_definition-definition memory i s rest handle d p q t low room room2 a other next =
      let stored : (d.memory (size s) || (size s == 0)) ≡ true = rw room2 in
      let tail2 = packed32 (size s) ++ (flat s ++ rest) in
      let tail1 = packed32 1 ++ (packed32 0 ++ (string (name s) ++ tail2)) in
      bind_reader d _
        (read_packed32-packed32 src fuel i tail1 d.reader enough (omega arith)
          (simp append_assoc at a))
        (λ r1 a1. rw (went_well src r1 a1) (
          bind_reader (record d { reader = r1 }) _
            (read_intentions-name src fuel enough (name s) tail2 r1 q room a1)
            (λ r2 a2. rw (went_well src r2 a2) (
              bind_reader (record d { reader = r2 }) _
                (read_packed32-packed32 src fuel (size s) (flat s ++ rest) r2 enough (omega arith)
                  a2)
                (λ r3 a3.
                  rw (went_well src r3 a3, to_int-small (size s) t, to_int-small i p, stored)
                    (bind_reader (record d { reader = r3 }) _
                      (read_bytes-At src (flat s) rest r3 low a3)
                      (λ r4 a4.
                        rw (went_well src r4 a4)
                          (bind _ (next r4 a4) (λ d' done. rw other (yields done))))))))))
