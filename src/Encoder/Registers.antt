-- ===== src/Encoder/Registers.antt =====
-- What the register functions of the encoder and labcomm2014_encode do over a writer that keeps its
-- laws.
use labcomm_core.Common.{
  ℕ, ◌^◌, ◌<◌, ◌≡◌, refl, ◌∙◌, inl, inr, Bool-cases, Bool, true, false, some, List, ◌++◌, arith,
  ◌==◌, if◌then◌else◌, length, ℤ, pos, leb_ℤ, eqb_ℤ, is_zero, minus_einval, Yields, yields,
  returned,
}
use labcomm_core.Wire.{packed32, tag_sample_def, tag_sample_ref, tag_type_binding, bind_self}
use labcomm_core.Writer.{Writer, WriterAction}
use labcomm_core.Writer.Sink.{Sink, IsOpen, Holds}
use labcomm_core.Signature.{Signature, index, get_local_index}
use labcomm_core.SignatureArray.{SignatureArray, array_ref, array_get, array_put}
use labcomm_core.SignatureArray.Laws.{IsArray, array_get-array_ref, array_get-put_ref}
use labcomm_core.Encoder.{
  Encoder, start_and, do_sample_register, do_ref_register, do_encode, do_type_bind,
  do_sample_ref_to_index,
}
use labcomm_core.Encoder.Packets.{
  packet, definition, Fits, Sent, Encodes, write_definition-Sent, write_binding-Sent,
  write_sample-Wrote, finish-Sent,
}

module _ {C : Type 0} {act : WriterAction C} {memory : ℕ → Bool} (sink : Sink act memory) where
  open sink use {before, start_ok}

  -- Between two calls: the lock is free, the writer in order, and `kept` is what the next packet
  -- is put behind.
  pub record Idle (kept : List ℕ) (e : Encoder C) : Type 0 where
    pub unlocked : e.writer_held ≡ false
    pub is_open : IsOpen e.writer
    pub same_memory : e.writer.memory ≡ memory
    pub keeps : before e.writer ≡ kept
    pub registered_array : IsArray ℕ e.registered
    pub sample_ref_array : IsArray ℕ e.sample_ref
    pub typedefs_array : IsArray ℕ e.typedefs

  -- `a'` is `a` with the element at `i` set to 1.
  abbrev pub Marked : ℤ → SignatureArray ℕ → SignatureArray ℕ → Type 0
  Marked i a a' = (j : ℤ) → array_get 0 j a' ≡ (if eqb_ℤ i j then 1 else array_get 0 j a)

  -- After a successful call: the lock is free again and `bytes` have been sent.
  pub record Done (bytes : List ℕ) (e : Encoder C) : Type 0 where
    pub unlocked : e.writer_held ≡ false
    pub sent : Sent sink bytes e.writer

  started-Holds :
      (i : ℤ) (value : Bool) (kept : List ℕ) (e : Encoder C)
      → Idle kept e
      → Holds sink 0 kept (act.start i value e.writer).0 × ((act.start i value e.writer).1 ≡ pos 0)
  started-Holds i value kept e v =
      let (o, sent, mem, fine) = start_ok i value e.writer v.is_open v.same_memory in
      (record { is_open = o; low-le = omega arith; sent = sent ∙ v.keeps; same_memory = mem }, fine)

  -- Setting an element in an array that has been made to hold it.
  marked :
      (i : ℤ) (a : SignatureArray ℕ) → IsArray ℕ a → Marked i a (array_put i 1 (array_ref 0 i a))
  marked i a v = λ j. array_get-put_ref 0 1 i j a v

  -- With the lock free and the writer in order, the first registration of a signature with a
  -- positive index below 2^31, a name shorter than 2^30 and a flat form shorter than 2^29
  -- bytes, sends its definition behind what is kept, returns 0, leaves the lock free, and marks
  -- its index alone in the array of the registered samples.
  pub do_sample_register-sends :
      (s : Signature) (i : ℕ) (kept : List ℕ) (e : Encoder C)
      → index s ≡ pos i
      → 0 < i
      → i < 2 ^ 31
      → Fits s
      → Idle kept e
      → array_get 0 (pos i) e.registered ≡ 0
      → Yields
          (pos 0)
          (λ e'.
            Done (kept ++ packet tag_sample_def (definition i s)) e'
            × Marked (pos i) e.registered e'.registered
            × (e'.sample_ref ≡ e.sample_ref)
            × (e'.typedefs ≡ e.typedefs))
          (do_sample_register act s e)
  unfolding do_sample_register get_local_index start_and
  do_sample_register-sends s i kept e ix p q f v new =
      let nz : is_zero (pos i) ≡ false = ground arith in
      let positive : leb_ℤ (pos i) (pos 0) ≡ false = ground arith in
      let fresh : array_get 0 (pos i) (array_ref 0 (pos i) e.registered) ≡ 0 =
        array_get-array_ref 0 (pos i) (pos i) e.registered v.registered_array ∙ new in
      let (a, fine) = started-Holds (pos i) false kept e v in
      let (sent, zero) =
        write_definition-Sent sink tag_sample_def i s kept _ (omega (arith, q)) f a in
      rw (ix, nz, v.unlocked, positive, fresh, fine)
        (returned _ zero (
          record { unlocked = refl; sent = sent },
          marked (pos i) e.registered v.registered_array,
          refl,
          refl,
        ))

  -- With the lock free and the writer in order, the first registration of a reference to a
  -- signature with a positive index below 2^31, a name shorter than 2^30 and a flat form
  -- shorter than 2^29 bytes, sends its definition with the tag of a reference behind what is
  -- kept, returns 0, leaves the lock free, and marks its index alone in the array of the
  -- references.
  pub do_ref_register-sends :
      (s : Signature) (i : ℕ) (kept : List ℕ) (e : Encoder C)
      → index s ≡ pos i
      → 0 < i
      → i < 2 ^ 31
      → Fits s
      → Idle kept e
      → array_get 0 (pos i) e.sample_ref ≡ 0
      → Yields
          (pos 0)
          (λ e'.
            Done (kept ++ packet tag_sample_ref (definition i s)) e'
            × Marked (pos i) e.sample_ref e'.sample_ref
            × (e'.registered ≡ e.registered)
            × (e'.typedefs ≡ e.typedefs))
          (do_ref_register act s e)
  unfolding do_ref_register get_local_index start_and
  do_ref_register-sends s i kept e ix p q f v new =
      let nz : is_zero (pos i) ≡ false = ground arith in
      let positive : leb_ℤ (pos i) (pos 0) ≡ false = ground arith in
      let fresh : array_get 0 (pos i) (array_ref 0 (pos i) e.sample_ref) ≡ 0 =
        array_get-array_ref 0 (pos i) (pos i) e.sample_ref v.sample_ref_array ∙ new in
      let (a, fine) = started-Holds (pos i) false kept e v in
      let (sent, zero) =
        write_definition-Sent sink tag_sample_ref i s kept _ (omega (arith, q)) f a in
      rw (ix, nz, v.unlocked, positive, fresh, fine)
        (returned _ zero (
          record { unlocked = refl; sent = sent },
          marked (pos i) e.sample_ref v.sample_ref_array,
          refl,
          refl,
        ))

  -- With the lock free, the registration of a signature with a positive index that is marked as
  -- registered returns -EINVAL, leaves the writer and every mark as they were, and the lock
  -- free.
  pub do_sample_register-twice :
      (s : Signature) (i : ℕ) (kept : List ℕ) (e : Encoder C)
      → index s ≡ pos i
      → 0 < i
      → Idle kept e
      → array_get 0 (pos i) e.registered ≡ 1
      → Yields minus_einval
          (λ e'.
            (e'.writer ≡ e.writer)
            × (e'.writer_held ≡ false)
            × ((j : ℤ) → array_get 0 j e'.registered ≡ array_get 0 j e.registered))
          (do_sample_register act s e)
  unfolding do_sample_register get_local_index
  do_sample_register-twice s i kept e ix p v old =
      let nz : is_zero (pos i) ≡ false = ground arith in
      let positive : leb_ℤ (pos i) (pos 0) ≡ false = ground arith in
      let again : array_get 0 (pos i) (array_ref 0 (pos i) e.registered) ≡ 1 =
        array_get-array_ref 0 (pos i) (pos i) e.registered v.registered_array ∙ old in
      rw (ix, nz, v.unlocked, positive, again)
        (yields (refl, refl, λ j. array_get-array_ref 0 (pos i) j e.registered v.registered_array))

  -- With the lock free, a sample that has an index and has not been registered is not encoded:
  -- the result is -EINVAL, and nothing changes.
  pub do_encode-unregistered :
      (s : Signature) (len : ℕ) (encode : Writer C → Writer C × ℤ) (kept : List ℕ) (e : Encoder C)
      → is_zero (index s) ≡ false
      → Idle kept e
      → array_get 0 (index s) e.registered ≡ 0
      → Yields minus_einval (λ e'. e' ≡ e) (do_encode act s len encode e)
  unfolding do_encode get_local_index
  do_encode-unregistered s len encode kept e nz v absent = rw (nz, v.unlocked, absent) (yields refl)

  -- With the lock free and the writer in order, a sample that is registered, with a positive
  -- index and a body shorter than 2^31 bytes, is sent behind what is kept as one packet: its
  -- index, the length of its body, and its body. This holds where the generated function emits
  -- the body and the length that is announced is the body's. The result is 0, the lock is free
  -- again, and the registered samples are the same.
  pub do_encode-sends :
      (s : Signature) (i : ℕ) (body kept : List ℕ) (encode : Writer C → Writer C × ℤ)
      (e : Encoder C)
      → index s ≡ pos i
      → 0 < i
      → i < 2 ^ 31
      → length body < 2 ^ 31
      → Encodes sink body encode
      → Idle kept e
      → array_get 0 (pos i) e.registered ≡ 1
      → Yields
          (pos 0)
          (λ e'. Done (kept ++ packet i body) e' × (e'.registered ≡ e.registered))
          (do_encode act s (length body) encode e)
  unfolding do_encode get_local_index
  do_encode-sends s i body kept encode e ix p q short enc v known =
      let nz : is_zero (pos i) ≡ false = ground arith in
      let (a, fine) = started-Holds (pos i) true kept e v in
      let wrote = write_sample-Wrote sink i body encode kept _ (omega (arith, q)) enc a in
      let (sent, zero) = finish-Sent sink _ _ wrote.holds in
      rw (ix, nz, v.unlocked, known, fine)
        (rw (wrote.done) (yields (record { unlocked = refl; sent = sent }, refl)))

  -- The index of a reference is 0 until it has been registered, and then that of its signature; to
  -- ask changes nothing.
  pub do_sample_ref_to_index-registered :
      (s : Signature) (e : Encoder C)
      → is_zero (index s) ≡ false
      → Yields
          (if array_get 0 (index s) e.sample_ref == 0 then pos 0 else index s)
          (λ e'. e' ≡ e)
          (do_sample_ref_to_index act (some s) e)
  unfolding do_sample_ref_to_index get_local_index
  do_sample_ref_to_index-registered s e nz = rw nz (yields refl)

  -- With the lock free and the writer in order, for a signature with a positive index below
  -- 2^31 a binding is sent behind what is kept: of its index to itself with dependencies, and
  -- else to LABCOMM_BIND_SELF. The result is 0 and the lock is free again.
  pub do_type_bind-sends :
      (s : Signature) (i : ℕ) (has_deps : Bool) (kept : List ℕ) (e : Encoder C)
      → index s ≡ pos i
      → 0 < i
      → i < 2 ^ 31
      → Idle kept e
      → Yields
          (pos 0)
          (Done (
            kept
            ++ packet tag_type_binding
                (packed32 i ++ packed32 (if has_deps then i else bind_self))))
          (do_type_bind act s has_deps e)
  unfolding do_type_bind get_local_index start_and
  do_type_bind-sends s i has_deps kept e ix p q v =
      let nz : is_zero (pos i) ≡ false = ground arith in
      let positive : leb_ℤ (pos i) (pos 0) ≡ false = ground arith in
      let (a, fine) = started-Holds (pos tag_type_binding) false kept e v in
      elim (Bool-cases has_deps) [
        | inl deps ↦
            let (sent, zero) =
              write_binding-Sent sink i i kept _ (omega (arith, q)) (omega (arith, q)) a in
            rw (deps, ix, nz, v.unlocked, positive, fine)
              (returned _ zero (record { unlocked = refl; sent = sent }))
        | inr none_there ↦
            let (sent, zero) =
              write_binding-Sent sink i bind_self kept _ (omega (arith, q)) (omega arith) a in
            rw (none_there, ix, nz, v.unlocked, positive, fine)
              (returned _ zero (record { unlocked = refl; sent = sent }))
      ]
