-- ===== src/Decoder/Packets/Version.antt =====
-- The head of every packet, the version packet, and what is refused before it.
use labcomm_core.Common.{
  ℕ, ◌+◌, ◌^◌, ◌≤◌, ◌<◌, ◌≡◌, ◌≢◌, refl, ap, Bool, true, false, List, [], ◌∷◌, ◌++◌, arith,
  if◌then◌else◌, length, same_bytes, All, ℤ, pos, eqb_ℤ, is_neg, to_int-small, minus_econnreset,
  Cmd, Run, ok, Yields, yields, pure, and_then, put_back, Bool-cases, inl, inr, zero, suc,
}
use labcomm_core.Wire.{packed32, string, tag_version}
use labcomm_core.Reader.{Reader, ReaderAction}
use labcomm_core.Reader.Source.{Source, At}
use labcomm_core.Reader.Packed.{read_packed32-packed32, read_packed32_truncated}
use labcomm_core.Reader.Strings.{read_string-string}
use labcomm_core.Encoder.{current_version}
use labcomm_core.Encoder.Packets.{packet, packet-append, length-string_le}
use labcomm_core.Decoder.{Decoder, reader_alloc, bind_reader}
use labcomm_core.Decoder.Definitions.{c_string}
use labcomm_core.Decoder.Packets.{decode_version, decode_body, do_decode_one}

-- A reader that is in order has no error.
pub went_well :
    {C : Type 0} {act : ReaderAction C} {src : Source act} {memory : ℕ → Bool} {xs : List ℕ}
    (r : Reader C)
    → At src memory xs r
    → is_neg r.error ≡ false
went_well r a = let e : r.error ≡ pos 0 = a.ready.clean in rw e

-- A string without a NUL is a C string as it is.
pub c_string-positive : (chars : List ℕ) → All (λ c. 0 < c) chars → c_string chars ≡ chars
c_string-positive [] h = refl
c_string-positive (zero ∷ cs) (p, h) = absurd (omega arith)
c_string-positive (suc c ∷ cs) (p, h) = ap (λ t. suc c ∷ t) (c_string-positive cs h)

module _ {C V : Type 0} {act : ReaderAction C} (src : Source act) (fuel : ℕ) (junk : ℤ)
    (enough : 5 ≤ fuel) where
  -- The decoder after a read: another reader, which stands before `xs`.
  abbrev pub Moved : List ℕ → Decoder C V → Decoder C V → Type 0
  Moved xs d d' = (r : Reader C) × ((d' ≡ record d { reader = r }) × At src d.reader.memory xs r)

  allocated : (d : Decoder C V) → d.reader_allocated ≡ true → reader_alloc act d ≡ ok tt d
  unfolding reader_alloc
  allocated d h = rw h

  -- Whatever the tag and the length of a packet, both are read, and the branch is taken that the
  -- tag and `version_ok` say.
  pub do_decode_one-head :
      {b : ℤ} {Q : Decoder C V → Type 0} (tag len : ℕ) (rest : List ℕ) (d : Decoder C V)
      → tag < 2 ^ 31
      → len < 2 ^ 31
      → d.reader_allocated ≡ true
      → At src d.reader.memory (packed32 tag ++ (packed32 len ++ rest)) d.reader
      → ((r : Reader C)
          → At src d.reader.memory rest r
          → Yields b Q (
              (if eqb_ℤ (pos tag) (pos tag_version)
                  then decode_version act fuel junk
                  else if d.version_ok
                  then decode_body act fuel junk (pos tag) (pos len)
                  else pure minus_econnreset)
                (record d { reader = r })))
      → Yields b Q (do_decode_one act fuel junk d)
  unfolding do_decode_one
  do_decode_one-head {b} {Q} tag len rest d p q al a next = rw (allocated d al) (
      bind_reader d _
        (read_packed32-packed32 src fuel tag (packed32 len ++ rest) d.reader enough (omega arith) a)
        (λ r a1. rw (went_well r a1) (
          bind_reader (record d { reader = r }) _
            (read_packed32-packed32 src fuel len rest r enough (omega arith) a1)
            (λ r2 a2. rw (went_well r2 a2, to_int-small tag p, to_int-small len q) (next r2 a2)))))

  -- With the reader allocated, before a version packet whose string has no NUL, is shorter than
  -- 2^31 bytes in all and can be allocated, the packet is taken whole. If the string is the
  -- version that this library sends, the result is the packet's tag and the version is right
  -- from then on; if it is another, the result is -ECONNRESET. Nothing else changes.
  pub do_decode_one-version :
      (chars rest : List ℕ) (d : Decoder C V)
      → All (λ c. 0 < c) chars
      → length (string chars) < 2 ^ 31
      → d.reader.memory (length chars + 1) ≡ true
      → d.reader_allocated ≡ true
      → At src d.reader.memory (packet tag_version (string chars) ++ rest) d.reader
      → let same = same_bytes chars current_version in
        Yields
          (if same then pos tag_version else minus_econnreset)
          (λ d'.
            (r : Reader C) × (At src d.reader.memory rest r
              × (d' ≡ record d { reader = r; version_ok = if same then true else d.version_ok })))
          (do_decode_one act fuel junk d)
  unfolding decode_version
  do_decode_one-version chars rest d nz short room al a =
      let l = length-string_le chars in
      do_decode_one-head tag_version (length (string chars)) (string chars ++ rest) d (omega arith)
        short al (rw (packet-append tag_version (string chars) rest) at a)
        (λ r a1.
          bind_reader (record d { reader = r }) _
            (read_string-string src fuel chars rest r enough (omega (arith, l, short)) room a1)
            (λ r2 a2. rw (went_well r2 a2, c_string-positive chars nz) (judged r2 a2)))
    where
      judged :
          (r : Reader C)
          → At src d.reader.memory rest r
          → let same = same_bytes chars current_version in
            Yields
              (if same then pos tag_version else minus_econnreset)
              (λ d'.
                (r : Reader C) × (At src d.reader.memory rest r
                  × (d'
                      ≡ record d { reader = r; version_ok = if same then true else d.version_ok })))
              ((if same_bytes chars current_version
                  then (λ d. ok (pos tag_version) (record d { version_ok = true }))
                  else pure minus_econnreset)
                (record d { reader = r }))
      judged r a = elim (Bool-cases (same_bytes chars current_version)) [
        | inl e ↦ rw e (yields (r, (a, refl)))
        | inr e ↦ rw e (yields (r, (a, refl)))
      ]

  -- With the reader allocated and the version not yet known to be right, a packet of any other
  -- tag than LABCOMM_VERSION (tag and length below 2^31) is refused with -ECONNRESET: its tag
  -- and length are taken, and nothing but the reader changes.
  pub do_decode_one-early :
      (tag len : ℕ) (rest : List ℕ) (d : Decoder C V)
      → tag ≢ tag_version
      → tag < 2 ^ 31
      → len < 2 ^ 31
      → d.version_ok ≡ false
      → d.reader_allocated ≡ true
      → At src d.reader.memory (packed32 tag ++ (packed32 len ++ rest)) d.reader
      → Yields minus_econnreset (Moved rest d) (do_decode_one act fuel junk d)
  do_decode_one-early tag len rest d other p q no_version al a =
      let e : eqb_ℤ (pos tag) (pos tag_version) ≡ false = ground arith in
      do_decode_one-head tag len rest d p q al a
        (λ r a1. rw (e, no_version) (yields (r, (refl, a1))))

  -- With the reader allocated, where the input ends within the tag of a packet (after fewer
  -- bytes than the fuel, each with the top bit), there is a negative result, and nothing but
  -- the reader changes.
  pub do_decode_one-end :
      (bs : List ℕ) (d : Decoder C V)
      → length bs < fuel
      → All (λ b. 128 ≤ b) bs
      → d.reader_allocated ≡ true
      → At src d.reader.memory bs d.reader
      → (b : ℤ) × ((is_neg b ≡ true)
          × Yields b
              (λ d'. (r : Reader C) × (d' ≡ record d { reader = r }))
              (do_decode_one act fuel junk d))
  unfolding do_decode_one
  do_decode_one-end bs d short more al a =
      rw (allocated d al) (stopped _ (read_packed32_truncated src fuel bs d.reader short more a))
    where
      stopped :
          {a : ℕ} {run : Run (Reader C) ℕ} (k : ℕ → Cmd (Decoder C V) ℤ)
          → Yields a (λ r. is_neg r.error ≡ true) run
          → (b : ℤ) × ((is_neg b ≡ true)
              × Yields b
                  (λ d'. (r : Reader C) × (d' ≡ record d { reader = r }))
                  (and_then
                    (put_back run (λ r. record d { reader = r }))
                    (λ x d. (if is_neg d.reader.error then pure d.reader.error else k x) d)))
      stopped k (yields {s = r} p) = (r.error, (p, rw p (yields (r, refl))))
