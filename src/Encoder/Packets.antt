-- ===== src/Encoder/Packets.antt =====
-- The packets that the encoder sends, in the wire format, and that its writes produce them with
-- the right length field.
use labcomm_core.Common.{
  Bool, true, ℕ, ◌+◌, ◌^◌, ◌≤◌, ◌<◌, ◌≡◌, refl, ap, ◌∙◌, List, [], ◌∷◌, ◌++◌, append-nil,
  append_assoc, arith, length, length-append, ℤ, pos, to_unsigned,
}
use labcomm_core.Wire.{packed32, string, tag_version, tag_type_binding}
use labcomm_core.Writer.{
  Writer, WriterAction, put_byte_unchecked, write_packed32, size_packed32, size_string,
}
use labcomm_core.Writer.Sink.{
  emitted, Sink, IsOpen, Holds, Wrote, Holds-le, chain, put_byte_unchecked-Holds,
}
use labcomm_core.Writer.Numbers.{write_packed32-Wrote, write_string-Wrote}
use labcomm_core.Writer.Sizes.{size_packed32-length, size_string-length}
use labcomm_core.Signature.{Signature, name, flat, size}
use labcomm_core.Encoder.{
  current_version, write_version, sizeof_intentions, encode_intentions, write_flat,
  write_definition, write_sample, write_binding,
}

-- A packet: its tag, the length of its body, and the body.
unfoldable pub packet : ℕ → List ℕ → List ℕ
packet tag body = packed32 tag ++ (packed32 (length body) ++ body)

pub packet-append :
    (tag : ℕ) (body rest : List ℕ)
    → packet tag body ++ rest ≡ packed32 tag ++ (packed32 (length body) ++ (body ++ rest))
unfolding packet
packet-append tag body rest =
    append_assoc (packed32 tag) (packed32 (length body) ++ body) rest
    ∙ ap (λ t. packed32 tag ++ t) (append_assoc (packed32 (length body)) body rest)

pub length-string_le : (chars : List ℕ) → length chars ≤ length (string chars)
unfolding string
length-string_le chars = omega (arith, length-append (packed32 (length chars)) chars)

-- The body of a definition: the index, the intentions (one, with the empty key and the name), and
-- the flat signature behind its size.
unfoldable pub definition : ℕ → Signature → List ℕ
definition i s =
    packed32 i ++ (packed32 1 ++ (packed32 0 ++ (string (name s) ++ (packed32 (size s) ++ flat s))))

-- The numbers of a signature are small enough that the length of its definition is an `int`.
pub record Fits (s : Signature) : Type 0 where
  pub name_fits : length (name s) < 2 ^ 30
  pub size_fits : size s < 2 ^ 29

length-one : length (packed32 1) ≡ 1
unfolding packed32
length-one = refl

length-zero : length (packed32 0) ≡ 1
unfolding packed32
length-zero = refl

length-definition :
    (i : ℕ) (s : Signature)
    → i < 2 ^ 32
    → Fits s
    → size_packed32 i + sizeof_intentions s + size_packed32 (size s) + size s
      ≡ length (definition i s)
unfolding sizeof_intentions definition
length-definition i s h f =
    let tail4 = packed32 (size s) ++ flat s in
    let tail3 = string (name s) ++ tail4 in
    let tail2 = packed32 0 ++ tail3 in
    let tail1 = packed32 1 ++ tail2 in
    omega (
      arith,
      size_packed32-length i h,
      size_string-length (name s) (omega (arith, f.name_fits)),
      size_packed32-length (size s) (omega (arith, f.size_fits)),
      length-one,
      length-zero,
      length-append (packed32 i) tail1,
      length-append (packed32 1) tail2,
      length-append (packed32 0) tail3,
      length-append (string (name s)) tail4,
      length-append (packed32 (size s)) (flat s),
    )

module _ {C : Type 0} {act : WriterAction C} {memory : ℕ → Bool} (sink : Sink act memory) where
  open sink use {before, carry, finish_ok, start_ok}

  -- A packet that has been finished: all that was sent with it, and what the next start keeps.
  pub record Sent (bytes : List ℕ) (w : Writer C) : Type 0 where
    pub is_open : IsOpen w
    pub sent : emitted sink w ≡ bytes
    pub same_memory : w.memory ≡ memory
    pub kept : before w ≡ carry bytes

  write_flat-Holds :
      (bs bytes : List ℕ) (w : Writer C)
      → Holds sink 1 bytes w
      → Holds sink 1 (bytes ++ bs) (write_flat act bs w)
  unfolding write_flat
  write_flat-Holds [] bytes w a = rw append-nil a
  write_flat-Holds (b ∷ bs) bytes w a = rw append_assoc at (
      write_flat-Holds bs (bytes ++ (b ∷ [])) (put_byte_unchecked act b w)
        (put_byte_unchecked-Holds sink b bytes w (Holds-le sink a)))

  pub finish-Sent :
      (bytes : List ℕ) (w : Writer C)
      → Holds sink 1 bytes w
      → Sent bytes (act.finish w).0 × ((act.finish w).1 ≡ pos 0)
  finish-Sent bytes w a =
      let (o, same, mem, next, fine) = finish_ok w a.is_open a.same_memory a.low-le in
      (
        record {
          is_open = o;
          sent = same ∙ a.sent;
          same_memory = mem;
          kept = next ∙ ap carry a.sent;
        },
        fine,
      )

  -- A packed number behind what is there, whatever becomes of the result.
  then32 :
      (v : ℕ) {low : ℕ} {bytes : List ℕ} {w : Writer C}
      → Holds sink low bytes w
      → Holds sink 1 (bytes ++ packed32 v) (write_packed32 act v w).0
  then32 v {bytes} {w} a = (write_packed32-Wrote sink v bytes w (Holds-le sink a)).holds

  intentions-Holds :
      (s : Signature) {bytes : List ℕ} {w : Writer C}
      → Holds sink 1 bytes w
      → Holds sink 1
          (bytes ++ (packed32 1 ++ (packed32 0 ++ string (name s))))
          (encode_intentions act s w).0
  unfolding encode_intentions
  intentions-Holds s {bytes} {w} a =
      let b = then32 0 (then32 1 a) in
      simp append_assoc at (
        (write_string-Wrote sink (name s) (bytes ++ packed32 1 ++ packed32 0) _
          (Holds-le sink b)).holds)

  -- The writes of a definition send the packet of that definition.
  pub write_definition-Sent :
      (tag i : ℕ) (s : Signature) (bytes : List ℕ) (w : Writer C)
      → i < 2 ^ 32
      → Fits s
      → Holds sink 0 bytes w
      → Sent (bytes ++ packet tag (definition i s)) (write_definition act tag (pos i) s w).0
        × ((write_definition act tag (pos i) s w).1 ≡ pos 0)
  unfolding write_definition packet
  write_definition-Sent tag i s bytes w h f a =
      let u : to_unsigned (pos i) ≡ i = omega arith in
      let l = length-definition i s h f in
      let b = then32 i (then32 (length (definition i s)) (then32 tag a)) in
      let c = then32 (size s) (intentions-Holds s b) in
      let d = write_flat-Holds (flat s) _ _ c in
      let (sent, fine) = finish-Sent _ _ d in
      rw (u, l) (unfold definition in simp append_assoc at sent, sent.is_open.clean)

  -- So do those of a type binding,
  pub write_binding-Sent :
      (i j : ℕ) (bytes : List ℕ) (w : Writer C)
      → i < 2 ^ 32
      → j < 2 ^ 32
      → Holds sink 0 bytes w
      → Sent
          (bytes ++ packet tag_type_binding (packed32 i ++ packed32 j))
          (write_binding act (pos i) (pos j) w).0
        × ((write_binding act (pos i) (pos j) w).1 ≡ pos 0)
  unfolding write_binding packet
  write_binding-Sent i j bytes w h k a =
      let u : to_unsigned (pos i) ≡ i = omega arith in
      let v : to_unsigned (pos j) ≡ j = omega arith in
      let l : size_packed32 i + size_packed32 j ≡ length (packed32 i ++ packed32 j) = omega (
        arith,
        size_packed32-length i h,
        size_packed32-length j k,
        length-append (packed32 i) (packed32 j),
      ) in
      let b =
        then32 j
          (then32 i (then32 (length (packed32 i ++ packed32 j)) (then32 tag_type_binding a))) in
      let (sent, fine) = finish-Sent _ _ b in
      rw (u, v, l) (simp append_assoc at sent, sent.is_open.clean)

  -- The version packet goes out behind what is kept, from a writer in order, with the version
  -- as a string for its body.
  pub write_version-Sent :
      (w : Writer C)
      → IsOpen w
      → w.memory ≡ memory
      → Sent (before w ++ packet tag_version (string current_version)) (write_version act w)
  unfolding write_version packet
  write_version-Sent w v m =
      let (o, sent, mem, fine) = start_ok (pos tag_version) true w v m in
      let w' = (act.start (pos tag_version) true w).0 in
      let a : Holds sink 0 (before w) w' = record {
        is_open = o;
        low-le = omega arith;
        sent = sent;
        same_memory = mem;
      } in
      let b = then32 (size_string current_version) (then32 tag_version a) in
      let c = (write_string-Wrote sink current_version _ _ (Holds-le sink b)).holds in
      let l : size_string current_version ≡ length (string current_version) =
        size_string-length current_version (omega arith) in
      rw (← l) (simp append_assoc at (finish-Sent _ _ c).0)

  -- A generated `encode` that puts `body` behind what is there.
  abbrev pub Encodes : (body : List ℕ) → (Writer C → Writer C × ℤ) → Type 0
  Encodes body encode =
      (bytes : List ℕ) (w : Writer C)
      → Holds sink 1 bytes w
      → Wrote sink 1 (bytes ++ body) (encode w)

  -- The writes of a sample put its packet, if the length that is announced is that of the body.
  pub write_sample-Wrote :
      (i : ℕ) (body : List ℕ) (encode : Writer C → Writer C × ℤ) (bytes : List ℕ) (w : Writer C)
      → i < 2 ^ 32
      → Encodes body encode
      → Holds sink 0 bytes w
      → Wrote sink 1 (bytes ++ packet i body) (write_sample act (pos i) (length body) encode w)
  unfolding write_sample packet
  write_sample-Wrote i body encode bytes w h enc a =
      let u : to_unsigned (pos i) ≡ i = omega arith in
      let b = then32 i a in
      let w1 = (write_packed32 act i w).0 in
      let c = write_packed32-Wrote sink (length body) (bytes ++ packed32 i) w1 (Holds-le sink b) in
      rw u (
        chain sink (write_packed32 act (length body) w1) encode c
          (λ d. simp append_assoc at (enc (bytes ++ packed32 i ++ packed32 (length body)) _ d)))
