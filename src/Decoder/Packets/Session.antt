-- ===== src/Decoder/Packets/Session.antt =====
-- labcomm2014_decoder_run on a whole stream: the version, the definition of a sample, and the sample.
use labcomm_core.Common.{
  ℕ, suc, ◌+◌, ◌^◌, ◌≤◌, ◌<◌, ◌≡◌, refl, ap, ◌∙◌, Bool, true, false, some, List, [], ◌∷◌, ◌++◌,
  arith, length, All, ℤ, pos, eqb_ℤ-refl, leb_ℤ, is_neg, is_zero, Cmd, Run, ok, Yields, yields,
  and_then, weaken,
}
use labcomm_core.Wire.{string, tag_version, tag_sample_def, tag_user}
use labcomm_core.Reader.{Reader, ReaderAction}
use labcomm_core.Reader.Source.{Source, At}
use labcomm_core.Signature.{Signature, name, flat, size}
use labcomm_core.SignatureArray.{array_items}
use labcomm_core.Encoder.{current_version}
use labcomm_core.Encoder.Packets.{packet, definition}
use labcomm_core.Decoder.{Decoder, DecoderFunction, Value}
use labcomm_core.Decoder.Definitions.{find_received, signatures}
use labcomm_core.Decoder.Definitions.RoundTrip.{received}
use labcomm_core.Decoder.Samples.Dispatch.{IsIdle, local_index_of, entry_of}
use labcomm_core.Decoder.Packets.{do_decode_one, decoder_run}
use labcomm_core.Decoder.Packets.Version.{do_decode_one-version, do_decode_one-end}
use labcomm_core.Decoder.Packets.Definition.{Bound, do_decode_one-binds}
use labcomm_core.Decoder.Packets.Delivery.{Decodes, do_decode_one-delivers}

-- The run ends within its fuel with a negative result, and leaves a state with `P`.
abbrev pub Stops : {S : Type 0} → (S → Type 0) → Run S ℤ → Type 0
Stops P run = (b : ℤ) × ((is_neg b ≡ true) × Yields b P run)

-- The two branches of the loop.
goes_on :
    {S : Type 0} {Q : S → Type 0} {t : Bool} (stops next : Cmd S ℤ) (s : S)
    → t ≡ false
    → Stops Q (next s)
    → Stops Q ((elim t as (λ x. Cmd S ℤ) [ true ↦ stops | false ↦ next ]) s)
goes_on stops next s h p = rw h p

ends :
    {S : Type 0} {b : ℤ} {P : S → Type 0} {t : Bool} (stops next : Cmd S ℤ) (s : S)
    → t ≡ true
    → Yields b P (stops s)
    → Yields b P ((elim t as (λ x. Cmd S ℤ) [ true ↦ stops | false ↦ next ]) s)
ends stops next s h p = rw h p

-- A reader, seen with its own allocator.
own :
    {C : Type 0} {act : ReaderAction C} {src : Source act} {memory : ℕ → Bool} {xs : List ℕ}
    {r : Reader C}
    → At src memory xs r
    → At src r.memory xs r
own a = record { ready = a.ready; ahead = a.ahead; same_memory = refl }

version_chars : All (λ c. 0 < c) current_version
version_chars = (
  omega arith,
  (
    omega arith,
    (
      omega arith,
      (
        omega arith,
        (
          omega arith,
          (
            omega arith,
            (omega arith, (omega arith, (omega arith, (omega arith, (omega arith, tt))))),
          ),
        ),
      ),
    ),
  ),
)

version_short : length (string current_version) < 2 ^ 31
unfolding string
version_short = omega arith

module _ {C V : Type 0} {act : ReaderAction C} (src : Source act) (fuel : ℕ) (junk : ℤ)
    (enough : 5 ≤ fuel) where
  -- After a packet with a positive result the loop goes on,
  step :
      {b : ℤ} {P Q : Decoder C V → Type 0} (packets : ℕ) (d : Decoder C V)
      → leb_ℤ b (pos 0) ≡ false
      → Yields b P (do_decode_one act fuel junk d)
      → ((d' : Decoder C V) → P d' → Stops Q (decoder_run act fuel junk packets d'))
      → Stops Q (decoder_run act fuel junk (suc packets) d)
  unfolding decoder_run
  step {b} {P} {Q} packets d more one next = go one
    where
      go :
          {run : Run (Decoder C V) ℤ}
          → Yields b P run
          → Stops Q (
              and_then run (λ result. elim (leb_ℤ result (pos 0)) as (λ x. Cmd (Decoder C V) ℤ) [
                | true ↦ (λ d. ok result d)
                | false ↦ decoder_run act fuel junk packets
              ]))
      go (yields {s = d'} p) = goes_on _ _ d' more (next d' p)

  -- and after one with a negative result it ends.
  stop :
      {P : Decoder C V → Type 0} (packets : ℕ) (d : Decoder C V)
      → Stops P (do_decode_one act fuel junk d)
      → Stops P (decoder_run act fuel junk (suc packets) d)
  unfolding decoder_run
  stop {P} packets d (b, (neg, one)) = (b, (neg, go one))
    where
      low : leb_ℤ b (pos 0) ≡ true
      low = ground (arith, neg)

      go :
          {run : Run (Decoder C V) ℤ}
          → Yields b P run
          → Yields b P (
              and_then run (λ result. elim (leb_ℤ result (pos 0)) as (λ x. Cmd (Decoder C V) ℤ) [
                | true ↦ (λ d. ok result d)
                | false ↦ decoder_run act fuel junk packets
              ]))
      go (yields {s = d'} p) = ends _ _ d' low (yields p)

  -- The end of the input.
  last :
      (more : ℕ) (d : Decoder C V)
      → d.reader_allocated ≡ true
      → At src d.reader.memory [] d.reader
      → Stops (λ d'. d'.handled ≡ d.handled) (decoder_run act fuel junk (suc more) d)
  last more d al a =
      let (b, (neg, one)) = do_decode_one-end src fuel junk enough [] d (omega arith) tt al a in
      stop more d (b, (neg, weaken one (λ d' (r, e). ap (λ x. x.handled) e)))

  -- The sample, and the end.
  from_sample :
      (i : ℕ) (l : ℤ) (body : List ℕ) (f : DecoderFunction C V) (value : Value V) (more : ℕ)
      (d : Decoder C V)
      → tag_user ≤ i
      → i < 2 ^ 31
      → length body < 2 ^ 31
      → d.version_ok ≡ true
      → d.reader_allocated ≡ true
      → IsIdle d
      → local_index_of (pos i) d ≡ l
      → leb_ℤ l (pos 0) ≡ false
      → (entry_of l d).decode ≡ some f
      → Decodes src d.reader.memory body f value
      → At src d.reader.memory (packet i body ++ []) d.reader
      → Stops
          (λ d'. d'.handled ≡ ((entry_of l d).handler, (entry_of l d).context, value) ∷ d.handled)
          (decoder_run act fuel junk (suc (suc more)) d)
  from_sample i l body f value more d user p m version al v at_i positive has dec a =
      let nonzero : is_zero l ≡ false = ground arith in
      step (suc more) d positive
        (do_decode_one-delivers src fuel junk enough i l body [] f value d user p m version al v
          at_i nonzero has dec a)
        (λ d' (same, (a', told)).
          let (b, (neg, one)) = last more d' (same.same_allocated ∙ al) (own a') in
          (b, (neg, weaken one (λ d'' e. e ∙ told))))

  -- A whole stream: the version packet, the definition of a sample for a remote index from
  -- LABCOMM_USER on, one packet of that sample, and the end. A decoder whose reader is
  -- allocated and before the stream, with the lock free and the tables in order, for which the
  -- search for the definition finds a positive local index with a decoder function that takes
  -- the body to be a value, calls the handler of that sample once, with the value, and no
  -- other, and labcomm2014_decoder_run ends within four packets, with a negative result.
  -- Lengths and indices are below 2^31, the bytes of the signature below 256, and the
  -- allocations of the reader and of the signature succeed.
  pub decoder_run-session :
      (i : ℕ) (l : ℤ) (s : Signature) (body : List ℕ) (f : DecoderFunction C V) (value : Value V)
      (more : ℕ) (d : Decoder C V)
      → tag_user ≤ i
      → i < 2 ^ 31
      → length (name s) < 2 ^ 31
      → size s < 2 ^ 31
      → length (definition i s) < 2 ^ 31
      → length body < 2 ^ 31
      → All (λ x. x < 256) (flat s)
      → ((n : ℕ) → d.reader.memory n ≡ true)
      → d.memory (size s) ≡ true
      → d.reader_allocated ≡ true
      → IsIdle d
      → find_received (received s) (signatures (array_items d.local)) ≡ some (some l)
      → leb_ℤ l (pos 0) ≡ false
      → (entry_of l d).decode ≡ some f
      → Decodes src d.reader.memory body f value
      → At src d.reader.memory
          (packet tag_version (string current_version)
            ++ (packet tag_sample_def (definition i s) ++ (packet i body ++ [])))
          d.reader
      → Stops
          (λ d'. d'.handled ≡ ((entry_of l d).handler, (entry_of l d).context, value) ∷ d.handled)
          (decoder_run act fuel junk (suc (suc (suc (suc more)))) d)
  decoder_run-session i l s body f value more d user p q t n m low room room2 al v found positive
        has dec a =
      let above : leb_ℤ (pos i) (pos 0) ≡ false = ground arith in
      step (suc (suc (suc more))) d refl
        (do_decode_one-version src fuel junk enough current_version _ d version_chars version_short
          (room _) al a)
        (λ d1 (r1, (a1, e1)). rw e1 (
          step (suc (suc more)) (opened r1) above
            (do_decode_one-binds src fuel junk enough i l s (packet i body ++ []) (opened r1) p q t
              n low (ap (λ g. g (length (name s) + 1)) a1.same_memory ∙ room _) room2 refl al
              (idle r1) found (own a1))
            (λ d2 bound. rest r1 a1 d2 bound)))
    where
      opened : Reader C → Decoder C V
      opened r = record d { reader = r; version_ok = true }

      idle : (r : Reader C) → IsIdle (opened r)
      idle r = record {
        unlocked = v.unlocked;
        local_array = v.local_array;
        remote_to_local_array = v.remote_to_local_array;
        local_ref_array = v.local_ref_array;
        remote_to_local_ref_array = v.remote_to_local_ref_array;
      }

      rest :
          (r : Reader C)
          → At src d.reader.memory
              (packet tag_sample_def (definition i s) ++ (packet i body ++ []))
              r
          → (d2 : Decoder C V)
          → Bound src fuel junk enough (pos i) l (packet i body ++ []) (opened r) d2
          → Stops
              (λ d'.
                d'.handled ≡ ((entry_of l d).handler, (entry_of l d).context, value) ∷ d.handled)
              (decoder_run act fuel junk (suc (suc more)) d2)
      rest r a d2 w =
          let at_i : local_index_of (pos i) d2 ≡ l = rw (eqb_ℤ-refl (pos i)) at (w.bound (pos i)) in
          let there : entry_of l d2 ≡ record (entry_of l d) { remote_index = pos i } =
            rw (eqb_ℤ-refl l) at (w.entered l) in
          let given : d2.reader.memory ≡ d.reader.memory = w.ahead.same_memory ∙ a.same_memory in
          let (b, (neg, one)) =
            from_sample i l body f value more d2 user p m w.same_version (w.same_allocated ∙ al)
              w.idle at_i positive (ap (λ en. en.decode) there ∙ has) (rw given dec)
              (own w.ahead) in
          (
            b,
            (
              neg,
              weaken one (λ d' e.
                  e
                  ∙ ap (λ en. (en.handler, en.context, value) ∷ d2.handled) there
                  ∙ ap (λ h. ((entry_of l d).handler, (entry_of l d).context, value) ∷ h)
                      w.same_handled),
            ),
          )
