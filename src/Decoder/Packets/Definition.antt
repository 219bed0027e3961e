-- ===== src/Decoder/Packets/Definition.antt =====
-- The packet that defines a sample, from its first byte to the binding of its index.
use labcomm_core.Common.{
  ℕ, ◌+◌, ◌^◌, ◌≤◌, ◌<◌, ◌≡◌, true, false, some, List, ◌++◌, arith, length, if◌then◌else◌, All, ℤ,
  pos, eqb_ℤ, minus_enoent, Yields, weaken, then_branch,
}
use labcomm_core.Wire.{tag_sample_def}
use labcomm_core.Reader.{Reader, ReaderAction}
use labcomm_core.Reader.Source.{Source, At}
use labcomm_core.Signature.{Signature, name, flat, size}
use labcomm_core.SignatureArray.{array_items}
use labcomm_core.Encoder.Packets.{packet, packet-append, definition}
use labcomm_core.Decoder.{Decoder}
use labcomm_core.Decoder.Definitions.{
  decode_sample_def, find_received, handle_sample_def, signatures,
}
use labcomm_core.Decoder.Definitions.Binding.{handle_sample_def-binds}
use labcomm_core.Decoder.Definitions.RoundTrip.{received, decode_definition-definition}
use labcomm_core.Decoder.Samples.Dispatch.{IsIdle, local_index_of, entry_of}
use labcomm_core.Decoder.Packets.{decode_body, do_decode_one}
use labcomm_core.Decoder.Packets.Version.{do_decode_one-head}

module _ {C V : Type 0} {act : ReaderAction C} (src : Source act) (fuel : ℕ) (junk : ℤ)
    (enough : 5 ≤ fuel) where
  -- The decoder after the definition of index `i` has been bound to the local index `l`.
  pub record Bound (i l : ℤ) (rest : List ℕ) (d d' : Decoder C V) : Type 0 where
    pub idle : IsIdle d'
    pub bound : (j : ℤ) → local_index_of j d' ≡ (if eqb_ℤ i j then l else local_index_of j d)
    pub entered :
        (j : ℤ)
        → entry_of j d'
          ≡ (if eqb_ℤ l j then record (entry_of l d) { remote_index = i } else entry_of j d)
    pub ahead : At src d.reader.memory rest d'.reader
    pub same_handled : d'.handled ≡ d.handled
    pub same_version : d'.version_ok ≡ d.version_ok
    pub same_allocated : d'.reader_allocated ≡ d.reader_allocated

  -- Once the version is known and the reader is allocated, with the lock free and the tables in
  -- order: the packet that the encoder sends for a signature, whose index, lengths and size are
  -- below 2^31, whose bytes are below 256, and for which there is memory, is taken whole. If
  -- the search for it among the registered samples finds a local index, the remote index is
  -- bound to this, the entry there gets the remote index, no other element of the two tables
  -- changes, nothing is handled, and the result is the remote index.
  pub do_decode_one-binds :
      (i : ℕ) (l : ℤ) (s : Signature) (rest : List ℕ) (d : Decoder C V)
      → i < 2 ^ 31
      → length (name s) < 2 ^ 31
      → size s < 2 ^ 31
      → length (definition i s) < 2 ^ 31
      → All (λ x. x < 256) (flat s)
      → d.reader.memory (length (name s) + 1) ≡ true
      → d.memory (size s) ≡ true
      → d.version_ok ≡ true
      → d.reader_allocated ≡ true
      → IsIdle d
      → find_received (received s) (signatures (array_items d.local)) ≡ some (some l)
      → At src d.reader.memory (packet tag_sample_def (definition i s) ++ rest) d.reader
      → Yields (pos i) (Bound (pos i) l rest d) (do_decode_one act fuel junk d)
  unfolding decode_body decode_sample_def
  do_decode_one-binds i l s rest d p q t n low room room2 version al v found a =
      let other : eqb_ℤ (pos i) minus_enoent ≡ false = ground arith in
      do_decode_one-head src fuel junk enough tag_sample_def (length (definition i s))
        (definition i s ++ rest) d (omega arith) n al
        (rw (packet-append tag_sample_def (definition i s) rest) at a)
        (λ r a1.
          then_branch _ _ (record d { reader = r }) version
            (decode_definition-definition src fuel enough d.reader.memory i s rest
              (handle_sample_def act junk) (record d { reader = r }) p q t low room room2 a1 other
              (λ r2 a2.
                weaken
                  (handle_sample_def-binds src junk (pos i) l (received s)
                    (record d { reader = r2 }) (idle r2) found)
                  (λ d' (w, binds, enters, same, none_handled, still, there). record {
                    idle = w;
                    bound = binds;
                    entered = enters;
                    ahead = rw same a2;
                    same_handled = none_handled;
                    same_version = still;
                    same_allocated = there;
                  }))))
    where
      idle : (r : Reader C) → IsIdle (record d { reader = r })
      idle r = record {
        unlocked = v.unlocked;
        local_array = v.local_array;
        remote_to_local_array = v.remote_to_local_array;
        local_ref_array = v.local_ref_array;
        remote_to_local_ref_array = v.remote_to_local_ref_array;
      }
