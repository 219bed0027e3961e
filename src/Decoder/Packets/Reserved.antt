-- ===== src/Decoder/Packets/Reserved.antt =====
-- Packets with tags that are reserved and mean nothing yet.
use labcomm_core.Common.{
  ℕ, ◌^◌, ◌≤◌, ◌<◌, ◌≡◌, refl, true, false, List, ◌++◌, arith, length, All, ℤ, pos, eqb_ℤ, ltb_ℤ,
  Run, Yields, yields, put_back, then_branch,
}
use labcomm_core.Wire.{
  tag_version, tag_sample_def, tag_sample_ref, tag_type_def, tag_type_binding, tag_pragma, tag_user,
}
use labcomm_core.Reader.{Reader, ReaderAction}
use labcomm_core.Reader.Source.{Source, At}
use labcomm_core.Encoder.Packets.{packet, packet-append}
use labcomm_core.Decoder.{Decoder}
use labcomm_core.Decoder.Definitions.Skip.{reader_skip-At}
use labcomm_core.Decoder.Packets.{decode_body, do_decode_one}
use labcomm_core.Decoder.Packets.Version.{Moved, do_decode_one-head}

module _ {C V : Type 0} {act : ReaderAction C} (src : Source act) (fuel : ℕ) (junk : ℤ)
    (enough : 5 ≤ fuel) where
  moved :
      {b : ℤ} {rest : List ℕ} {run : Run (Reader C) ℤ} (d : Decoder C V)
      → Yields b (At src d.reader.memory rest) run
      → Yields b (Moved src fuel junk enough rest d) (put_back run (λ r'. record d { reader = r' }))
  moved d (yields a) = yields (_, (refl, a))

  -- Once the version is known and the reader is allocated, a packet with a reserved tag between
  -- LABCOMM_TYPE_BINDING and LABCOMM_PRAGMA, whose body is shorter than 2^31 bytes, is passed
  -- over whole: the result is its tag, and nothing but the reader changes.
  pub do_decode_one-reserved :
      (tag : ℕ) (body rest : List ℕ) (d : Decoder C V)
      → tag_type_binding < tag
      → tag < tag_pragma
      → length body < 2 ^ 31
      → All (λ b. b < 256) body
      → d.version_ok ≡ true
      → d.reader_allocated ≡ true
      → At src d.reader.memory (packet tag body ++ rest) d.reader
      → Yields (pos tag) (Moved src fuel junk enough rest d) (do_decode_one act fuel junk d)
  unfolding decode_body
  do_decode_one-reserved tag body rest d above below short bytes version al a =
      let e1 : eqb_ℤ (pos tag) (pos tag_version) ≡ false = ground arith in
      let e2 : eqb_ℤ (pos tag) (pos tag_sample_def) ≡ false = ground arith in
      let e3 : eqb_ℤ (pos tag) (pos tag_sample_ref) ≡ false = ground arith in
      let e4 : eqb_ℤ (pos tag) (pos tag_type_def) ≡ false = ground arith in
      let e5 : eqb_ℤ (pos tag) (pos tag_type_binding) ≡ false = ground arith in
      let e6 : eqb_ℤ (pos tag) (pos tag_pragma) ≡ false = ground arith in
      let e7 : ltb_ℤ (pos tag) (pos tag_user) ≡ true = ground arith in
      do_decode_one-head src fuel junk enough tag (length body) (body ++ rest) d (omega arith) short
        al (rw (packet-append tag body rest) at a)
        (λ r a1. rw e1 (
          then_branch _ _ (record d { reader = r }) version
            (rw (e2, e3, e4, e5, e6, e7)
              (moved d (reader_skip-At src (pos tag) body rest r bytes a1)))))
