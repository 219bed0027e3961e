-- ===== src/Decoder/Samples/Dispatch.antt =====
-- How a packet gets to its handler: lookup_h, call_handler and decode_and_handle.
use labcomm_core.Common.{
  ℕ, ◌≡◌, refl, ap, ◌∙◌, Bool, true, false, Option, some, List, ◌∷◌, if◌then◌else◌, ℤ, pos, is_neg,
  is_zero, minus_enoent, ok, Yields, yields, returned, bind, Bool-cases, inl, inr,
}
use labcomm_core.Reader.{Reader, ReaderAction}
use labcomm_core.Reader.Source.{Source, At}
use labcomm_core.Signature.{Signature}
use labcomm_core.SignatureArray.{array_get}
use labcomm_core.SignatureArray.Laws.{IsArray, array_get-array_ref, array_ref-IsArray}
use labcomm_core.Decoder.{Value, DecoderFunction, SampleEntry, Decoder, nil_entry, bind_reader}
use labcomm_core.Decoder.Samples.{lookup_h, call_handler, decode_and_handle}

module _ {C V : Type 0} where
  -- Between two calls: the lock is free, and the arrays are in order.
  pub record IsIdle (d : Decoder C V) : Type 0 where
    pub unlocked : d.data_held ≡ false
    pub local_array : IsArray (SampleEntry C V) d.local
    pub remote_to_local_array : IsArray ℤ d.remote_to_local
    pub local_ref_array : IsArray (Option Signature) d.local_ref
    pub remote_to_local_ref_array : IsArray ℤ d.remote_to_local_ref

  -- The local index for a remote one, and the entry at a local index.
  abbrev pub local_index_of : ℤ → Decoder C V → ℤ
  local_index_of i d = array_get (pos 0) i d.remote_to_local

  abbrev pub entry_of : ℤ → Decoder C V → SampleEntry C V
  entry_of l d = array_get nil_entry l d.local

  -- Nothing but the sizes of the two tables of samples differs, and the handled values are these.
  pub record SameTables (d d' : Decoder C V) : Type 0 where
    pub idle : IsIdle d'
    pub same_index : (j : ℤ) → local_index_of j d' ≡ local_index_of j d
    pub same_entry : (j : ℤ) → entry_of j d' ≡ entry_of j d
    pub same_version : d'.version_ok ≡ d.version_ok
    pub same_allocated : d'.reader_allocated ≡ d.reader_allocated

  -- Looking an index up finds its local index and the entry there, or 0, and leaves the lock free
  -- and both tables with the elements they had.
  pub lookup_h-entry :
      (i : ℤ) (d : Decoder C V)
      → IsIdle d
      → let l = local_index_of i d in
        Yields
          (l, if is_zero l then nil_entry else entry_of l d)
          (λ d'. SameTables d d' × ((d'.reader ≡ d.reader) × (d'.handled ≡ d.handled)))
          (lookup_h i d)
  unfolding lookup_h
  lookup_h-entry i d v =
      let e = array_get-array_ref (pos 0) i i d.remote_to_local v.remote_to_local_array in
      let l = local_index_of i d in
      let m =
        λ (j : ℤ). array_get-array_ref (pos 0) i j d.remote_to_local v.remote_to_local_array in
      let n = λ (j : ℤ). array_get-array_ref nil_entry l j d.local v.local_array in
      rw (v.unlocked, e)
        (elim (Bool-cases (is_zero l)) [
          | inl zero ↦ rw zero (
              yields (
                record {
                  idle = record {
                    unlocked = refl;
                    local_array = v.local_array;
                    remote_to_local_array =
                        array_ref-IsArray (pos 0) i d.remote_to_local v.remote_to_local_array;
                    local_ref_array = v.local_ref_array;
                    remote_to_local_ref_array = v.remote_to_local_ref_array;
                  };
                  same_index = m;
                  same_entry = λ j. refl;
                  same_version = refl;
                  same_allocated = refl;
                },
                (refl, refl),
              ))
          | inr found ↦ rw found (
              returned _ (ap (λ t. (l, t)) (n l)) (
                record {
                  idle = record {
                    unlocked = refl;
                    local_array = array_ref-IsArray nil_entry l d.local v.local_array;
                    remote_to_local_array =
                        array_ref-IsArray (pos 0) i d.remote_to_local v.remote_to_local_array;
                    local_ref_array = v.local_ref_array;
                    remote_to_local_ref_array = v.remote_to_local_ref_array;
                  };
                  same_index = m;
                  same_entry = n;
                  same_version = refl;
                  same_allocated = refl;
                },
                (refl, refl),
              ))
        ])

  -- What a handler has been told.
  abbrev pub Told : SampleEntry C V → Value V → Decoder C V → Decoder C V → Type 0
  Told entry value d d' = d'.handled ≡ (entry.handler, entry.context, value) ∷ d.handled

module _ {C V : Type 0} {act : ReaderAction C} (src : Source act) where
  open src use {start_keeps, finish_keeps}

  call_handler-tells :
      (memory : ℕ → Bool) (rest : List ℕ) (l i : ℤ) (entry : SampleEntry C V) (value : Value V)
      (d : Decoder C V)
      → At src memory rest d.reader
      → call_handler act l i entry value d
        ≡ ok tt (record d { handled = (entry.handler, entry.context, value) ∷ d.handled })
  unfolding call_handler
  call_handler-tells memory rest l i entry value d a =
      let e : d.reader.error ≡ pos 0 = a.ready.clean in
      let good : is_neg d.reader.error ≡ false = rw e in
      let same : (act.finish (act.start l i true d.reader).0).0 ≡ d.reader =
        ap (λ r. (act.finish r).0) (start_keeps l i true d.reader) ∙ finish_keeps d.reader in
      rw (good, same)

  -- A packet of a sample that has been registered: its function reads the value, the handler of the
  -- sample is called once, with that value, and the result is the local index.
  pub decode_and_handle-delivers :
      (memory : ℕ → Bool) (i l : ℤ) (f : DecoderFunction C V) (value : Value V) (rest : List ℕ)
      (d : Decoder C V)
      → IsIdle d
      → local_index_of i d ≡ l
      → is_zero l ≡ false
      → (entry_of l d).decode ≡ some f
      → Yields (some value) (At src memory rest) (f d.reader)
      → Yields l
          (λ d'. SameTables d d' × (At src memory rest d'.reader × Told (entry_of l d) value d d'))
          (decode_and_handle act i d)
  unfolding decode_and_handle
  decode_and_handle-delivers memory i l f value rest d v at_i known has reads =
      bind _ (lookup_h-entry i d v) (λ d' (same, (r, h)).
        let reads' : Yields (some value) (At src memory rest) (f d'.reader) = rw r reads in
        rw (at_i, known, has)
          (bind_reader d' _ reads' (λ rd a.
            rw
              (
                at_i,
                known,
                call_handler-tells _ rest l i (entry_of l d) value (record d' { reader = rd }) a,
              )
              (finished d' rd same a h))))
    where
      finished :
          (d' : Decoder C V) (rd : Reader C)
          → SameTables d d'
          → At src memory rest rd
          → d'.handled ≡ d.handled
          → Yields l
              (λ d'.
                SameTables d d' × (At src memory rest d'.reader × Told (entry_of l d) value d d'))
              (ok (if is_neg rd.error then rd.error else l) (record d' {
                reader = rd;
                handled = ((entry_of l d).handler, (entry_of l d).context, value) ∷ d'.handled;
              }))
      finished d' rd same a h =
          let e : rd.error ≡ pos 0 = a.ready.clean in
          let good : is_neg rd.error ≡ false = rw e in
          returned _ (rw good) (
            record {
              idle = record {
                unlocked = same.idle.unlocked;
                local_array = same.idle.local_array;
                remote_to_local_array = same.idle.remote_to_local_array;
                local_ref_array = same.idle.local_ref_array;
                remote_to_local_ref_array = same.idle.remote_to_local_ref_array;
              };
              same_index = same.same_index;
              same_entry = same.same_entry;
              same_version = same.same_version;
              same_allocated = same.same_allocated;
            },
            (a, ap (λ t. ((entry_of l d).handler, (entry_of l d).context, value) ∷ t) h),
          )

  -- With the lock free and the tables in order, a packet whose remote index is bound to nothing
  -- is told by -ENOENT: the reader is the same, nothing is handled, no element of the tables of
  -- samples changes, and the lock is free again.
  pub decode_and_handle-unknown :
      (i : ℤ) (d : Decoder C V)
      → IsIdle d
      → is_zero (local_index_of i d) ≡ true
      → Yields minus_enoent
          (λ d'. SameTables d d' × ((d'.reader ≡ d.reader) × (d'.handled ≡ d.handled)))
          (decode_and_handle {V = V} act i d)
  unfolding decode_and_handle
  decode_and_handle-unknown i d v zero = bind _ (lookup_h-entry i d v) (λ d' p. rw zero (yields p))
