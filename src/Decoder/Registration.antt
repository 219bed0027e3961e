-- ===== src/Decoder/Registration.antt =====
-- What an application registers with a decoder: samples and references.
use labcomm_core.Common.{
  ℕ, ◌<◌, ◌≡◌, refl, ap, ◌∙◌, true, false, none, some, arith, Bool-cases, inl, inr, if◌then◌else◌,
  ℤ, pos, eqb_ℤ, is_zero, leb_ℤ, ok, Yields, yields,
}
use labcomm_core.Reader.{ReaderAction}
use labcomm_core.Reader.Source.{Source}
use labcomm_core.Signature.{Signature, index, get_local_index}
use labcomm_core.SignatureArray.{array_get, array_ref}
use labcomm_core.SignatureArray.Laws.{
  array_get-array_set, array_get-array_ref, array_set-IsArray, array_ref-IsArray,
}
use labcomm_core.Decoder.{
  Decoder, SampleEntry, DecoderFunction, nil_entry, start_end, reader_alloc, do_register_sample,
  do_ref_register, do_index_to_sample_ref,
}
use labcomm_core.Decoder.Samples.Dispatch.{IsIdle, local_index_of, entry_of}

module _ {C V : Type 0} {act : ReaderAction C} (src : Source act) where
  open src use {start_keeps, finish_keeps}

  allocated : (d : Decoder C V) → d.reader_allocated ≡ true → reader_alloc act d ≡ ok tt d
  unfolding reader_alloc
  allocated d h = rw h

  -- With the reader allocated, the lock free and the tables in order, registering a sample with
  -- a positive index returns the index and puts its signature, function, handler and context
  -- into the entry there, without a remote index; no other entry and no binding of a remote
  -- index changes, the reader is the same, and the lock is free again.
  pub do_register_sample-registers :
      (s : Signature) (l : ℕ) (decode : DecoderFunction C V) (handler context : ℕ) (d : Decoder C V)
      → index s ≡ pos l
      → 0 < l
      → d.reader_allocated ≡ true
      → IsIdle d
      → Yields
          (pos l)
          (λ d'.
            IsIdle d'
            × ((j : ℤ)
                → entry_of j d' ≡ (
                    if eqb_ℤ (pos l) j
                    then record {
                      remote_index = pos 0;
                      signature = some s;
                      decode = some decode;
                      handler = handler;
                      context = context;
                    }
                    else entry_of j d))
            × ((j : ℤ) → local_index_of j d' ≡ local_index_of j d)
            × (d'.reader ≡ d.reader))
          (do_register_sample act s decode handler context d)
  unfolding do_register_sample start_end get_local_index
  do_register_sample-registers s l decode handler context d ix p al v =
      let nz : is_zero (pos l) ≡ false = ground arith in
      let positive : leb_ℤ (pos l) (pos 0) ≡ false = ground arith in
      let same : (act.finish (act.start (pos l) (pos 0) false d.reader).0).0 ≡ d.reader =
        ap (λ r. (act.finish r).0) (start_keeps (pos l) (pos 0) false d.reader)
        ∙ finish_keeps d.reader in
      let entry : SampleEntry C V = record {
        remote_index = pos 0;
        signature = some s;
        decode = some decode;
        handler = handler;
        context = context;
      } in
      rw (allocated d al, ix, nz, positive, v.unlocked)
        (yields (
          record {
            unlocked = refl;
            local_array = array_set-IsArray nil_entry (pos l) entry d.local v.local_array;
            remote_to_local_array = v.remote_to_local_array;
            local_ref_array = v.local_ref_array;
            remote_to_local_ref_array = v.remote_to_local_ref_array;
          },
          λ j. array_get-array_set nil_entry entry (pos l) j d.local v.local_array,
          λ j. refl,
          same,
        ))

module _ {C V : Type 0} where
  -- The signature that a remote index of a reference stands for, where its local index is `l`, is
  -- the one registered at `l`; to ask changes nothing.
  pub do_index_to_sample_ref-bound :
      (i l : ℤ) (d : Decoder C V)
      → d.data_held ≡ false
      → array_get (pos 0) i d.remote_to_local_ref ≡ l
      → Yields
          (if is_zero l then none else array_get none l d.local_ref)
          (λ d'. d' ≡ record d { data_held = false })
          (do_index_to_sample_ref i d)
  unfolding do_index_to_sample_ref
  do_index_to_sample_ref-bound i l d free bound = elim (Bool-cases (is_zero l)) [
    | inl zero ↦ rw (free, bound, zero) (yields refl)
    | inr found ↦ rw (free, bound, found) (yields refl)
  ]

  -- With the lock free and the tables in order, the first registration of a reference with a
  -- positive index returns the index, records the signature there alone, makes the remote
  -- reference of the same number stand for nothing, and leaves the lock free.
  pub do_ref_register-registers :
      (s : Signature) (l : ℕ) (d : Decoder C V)
      → index s ≡ pos l
      → 0 < l
      → IsIdle d
      → array_get none (pos l) d.local_ref ≡ none
      → Yields
          (pos l)
          (λ d'.
            ((j : ℤ)
              → array_get none j d'.local_ref
                ≡ (if eqb_ℤ (pos l) j then some s else array_get none j d.local_ref))
            × ((j : ℤ)
                → array_get (pos 0) j d'.remote_to_local_ref
                  ≡ (if eqb_ℤ (pos l) j then pos 0 else array_get (pos 0) j d.remote_to_local_ref))
            × (d'.data_held ≡ false))
          (do_ref_register s d)
  unfolding do_ref_register get_local_index
  do_ref_register-registers s l d ix p v new =
      let nz : is_zero (pos l) ≡ false = ground arith in
      let positive : leb_ℤ (pos l) (pos 0) ≡ false = ground arith in
      let wide = array_ref none (pos l) d.local_ref in
      let ref = λ (j : ℤ). array_get-array_ref none (pos l) j d.local_ref v.local_ref_array in
      let fresh : array_get none (pos l) wide ≡ none = ref (pos l) ∙ new in
      rw (ix, nz, positive, v.unlocked, fresh)
        (yields (
          λ j.
              array_get-array_set none (some s) (pos l) j wide
                (array_ref-IsArray none (pos l) d.local_ref v.local_ref_array)
              ∙ ap (λ t. if eqb_ℤ (pos l) j then some s else t) (ref j),
          λ j.
              array_get-array_set (pos 0) (pos 0) (pos l) j d.remote_to_local_ref
                v.remote_to_local_ref_array,
          refl,
        ))
