-- ===== src/Decoder/Packets/Delivery.antt =====
-- A sample packet, from its first byte to the call of the handler.
use labcomm_core.Common.{
  ℕ, ◌^◌, ◌≤◌, ◌<◌, ◌≡◌, Bool, true, false, some, List, ◌++◌, arith, length, ℤ, pos, is_zero, eqb_ℤ,
  ltb_ℤ, Yields, weaken, then_branch,
}
use labcomm_core.Wire.{
  tag_version, tag_sample_def, tag_sample_ref, tag_type_def, tag_type_binding, tag_pragma, tag_user,
}
use labcomm_core.Reader.{Reader, ReaderAction}
use labcomm_core.Reader.Source.{Source, At}
use labcomm_core.Encoder.Packets.{packet, packet-append}
use labcomm_core.Decoder.{Value, DecoderFunction, Decoder}
use labcomm_core.Decoder.Samples.Dispatch.{
  IsIdle, SameTables, Told, local_index_of, entry_of, decode_and_handle-delivers,
}
use labcomm_core.Decoder.Packets.{decode_body, do_decode_one}
use labcomm_core.Decoder.Packets.Version.{do_decode_one-head}

-- A generated decoder function that takes `body`, and no byte more, to be `value`.
abbrev pub Decodes :
    {C V : Type 0} {act : ReaderAction C}
    → Source act
    → (ℕ → Bool)
    → List ℕ
    → DecoderFunction C V
    → Value V
    → Type 0
Decodes {C} src memory body f value =
    (rest : List ℕ) (r : Reader C)
    → At src memory (body ++ rest) r
    → Yields (some value) (At src memory rest) (f r)

module _ {C V : Type 0} {act : ReaderAction C} (src : Source act) (fuel : ℕ) (junk : ℤ)
    (enough : 5 ≤ fuel) where
  -- Once the version is known and the reader is allocated, with the lock free and the tables in
  -- order: the packet of a sample (tag at least LABCOMM_USER, tag and length below 2^31) whose
  -- remote index has been bound to a local index that is not 0, with a decoder function there
  -- that takes the body to be a value, is taken whole. Its handler is called once, with that
  -- value, the result is the local index, and no element of the tables of samples changes.
  pub do_decode_one-delivers :
      (i : ℕ) (l : ℤ) (body rest : List ℕ) (f : DecoderFunction C V) (value : Value V)
      (d : Decoder C V)
      → tag_user ≤ i
      → i < 2 ^ 31
      → length body < 2 ^ 31
      → d.version_ok ≡ true
      → d.reader_allocated ≡ true
      → IsIdle d
      → local_index_of (pos i) d ≡ l
      → is_zero l ≡ false
      → (entry_of l d).decode ≡ some f
      → Decodes src d.reader.memory body f value
      → At src d.reader.memory (packet i body ++ rest) d.reader
      → Yields l
          (λ d'.
            SameTables d d'
            × (At src d.reader.memory rest d'.reader × Told (entry_of l d) value d d'))
          (do_decode_one act fuel junk d)
  unfolding decode_body
  do_decode_one-delivers i l body rest f value d user p q version al v at_i known has reads a =
      let e1 : eqb_ℤ (pos i) (pos tag_version) ≡ false = ground arith in
      let e2 : eqb_ℤ (pos i) (pos tag_sample_def) ≡ false = ground arith in
      let e3 : eqb_ℤ (pos i) (pos tag_sample_ref) ≡ false = ground arith in
      let e4 : eqb_ℤ (pos i) (pos tag_type_def) ≡ false = ground arith in
      let e5 : eqb_ℤ (pos i) (pos tag_type_binding) ≡ false = ground arith in
      let e6 : eqb_ℤ (pos i) (pos tag_pragma) ≡ false = ground arith in
      let e7 : ltb_ℤ (pos i) (pos tag_user) ≡ false = ground arith in
      do_decode_one-head src fuel junk enough i (length body) (body ++ rest) d p q al
        (rw (packet-append i body rest) at a)
        (λ r a1. rw e1 (
          then_branch _ _ (record d { reader = r }) version
            (rw (e2, e3, e4, e5, e6, e7)
              (weaken
                (decode_and_handle-delivers src d.reader.memory (pos i) l f value rest
                  (record d { reader = r }) (idle r) at_i known has (reads rest r a1))
                (λ d' (same, told). (again r d' same, told))))))
    where
      idle : (r : Reader C) → IsIdle (record d { reader = r })
      idle r = record {
        unlocked = v.unlocked;
        local_array = v.local_array;
        remote_to_local_array = v.remote_to_local_array;
        local_ref_array = v.local_ref_array;
        remote_to_local_ref_array = v.remote_to_local_ref_array;
      }

      again :
          (r : Reader C) (d' : Decoder C V)
          → SameTables (record d { reader = r }) d'
          → SameTables d d'
      again r d' same = record {
        idle = same.idle;
        same_index = same.same_index;
        same_entry = same.same_entry;
        same_version = same.same_version;
        same_allocated = same.same_allocated;
      }
