-- ===== src/Writer/Sink.antt =====
-- What a writer promises: where the bytes go that are put into it.
use labcomm_core.Common.{
  ℕ, suc, ◌+◌, ◌≤◌, ◌<◌, ◌≡◌, refl, sym, ap, ◌∙◌, inl, inr, Bool, false, List, [], ◌∷◌, ◌++◌,
  append_assoc, arith, leb, if◌then◌else◌, Bool-cases, length, length-set, take, take-set, set, ℤ,
  pos, is_nonzero,
}
use labcomm_core.Writer.{Writer, WriterAction, put_byte, put_byte_unchecked, stored}

module _ {C : Type 0} where
  pub record IsOpen (w : Writer C) : Type 0 where
    pub storage : w.count ≤ length w.buf
    pub placed : w.pos ≤ w.count
    pub room : 0 < w.count
    pub sized : w.data_size ≡ w.count
    pub clean : w.error ≡ pos 0

  -- The laws of the actions that the encoder relies on, where the allocator is `memory`.
  -- `delivered` is what has left the buffer for good, `before` what is kept when a packet is started,
  -- and `carry` what is kept of all that was emitted when the next packet is started.
  pub record Sink (act : WriterAction C) (memory : ℕ → Bool) : Type 0 where
    pub delivered : C → List ℕ
    pub before : Writer C → List ℕ
    pub carry : List ℕ → List ℕ
    pub flush_ok :
        (w : Writer C)
        → IsOpen w
        → w.memory ≡ memory
        → 0 < w.pos
        → let w' = (act.flush w).0 in
          IsOpen w'
          × (w'.pos < w'.count)
          × (delivered w'.context ++ take w'.pos w'.buf ≡ delivered w.context ++ take w.pos w.buf)
          × (w'.memory ≡ memory)
          × ((act.flush w).1 ≡ pos 0)
    pub start_ok :
        (index : ℤ) (value : Bool) (w : Writer C)
        → IsOpen w
        → w.memory ≡ memory
        → let w' = (act.start index value w).0 in
          IsOpen w'
          × (delivered w'.context ++ take w'.pos w'.buf ≡ before w)
          × (w'.memory ≡ memory)
          × ((act.start index value w).1 ≡ pos 0)
    pub finish_ok :
        (w : Writer C)
        → IsOpen w
        → w.memory ≡ memory
        → 0 < w.pos
        → let w' = (act.finish w).0 in
          IsOpen w'
          × (delivered w'.context ++ take w'.pos w'.buf ≡ delivered w.context ++ take w.pos w.buf)
          × (w'.memory ≡ memory)
          × (before w' ≡ carry (delivered w.context ++ take w.pos w.buf))
          × ((act.finish w).1 ≡ pos 0)

module _ {C : Type 0} {act : WriterAction C} {memory : ℕ → Bool} (sink : Sink act memory) where
  open sink use {delivered, flush_ok}

  -- What has been written: delivered, or in the buffer.
  abbrev pub emitted : Writer C → List ℕ
  emitted w = delivered w.context ++ take w.pos w.buf

  -- The writer is in order, holds at least `low` bytes, and has emitted `bytes`.
  pub record Holds (low : ℕ) (bytes : List ℕ) (w : Writer C) : Type 0 where
    pub is_open : IsOpen w
    pub low-le : low ≤ w.pos
    pub sent : emitted w ≡ bytes
    pub same_memory : w.memory ≡ memory

  -- A write that succeeds.
  pub record Wrote (low : ℕ) (bytes : List ℕ) (r : Writer C × ℤ) : Type 0 where
    pub done : r.1 ≡ pos 0
    pub holds : Holds low bytes r.0

  pub Holds-le : {low : ℕ} {bytes : List ℕ} {w : Writer C} → Holds low bytes w → Holds 0 bytes w
  Holds-le a = record {
    is_open = a.is_open;
    low-le = omega arith;
    sent = a.sent;
    same_memory = a.same_memory;
  }

  -- What follows a write that is checked runs if the write succeeds.
  pub chain :
      {low low' : ℕ} {bytes bytes' : List ℕ} (r : Writer C × ℤ) (k : Writer C → Writer C × ℤ)
      → Wrote low bytes r
      → (Holds low bytes r.0 → Wrote low' bytes' (k r.0))
      → Wrote low' bytes' (if is_nonzero r.1 then (r.0, r.1) else k r.0)
  chain r k done next = let e : is_nonzero r.1 ≡ false = rw (done.done) in rw e (next done.holds)

  stored-Holds :
      (w : Writer C) (b : ℕ) (bytes : List ℕ)
      → w.pos < w.count
      → Holds 0 bytes w
      → Holds 1 (bytes ++ (b ∷ [])) (stored b w)
  stored-Holds w b bytes h a = record {
    is_open = record {
      storage = omega (arith, a.is_open.storage, length-set w.buf w.pos b);
      placed = omega arith;
      room = a.is_open.room;
      sized = a.is_open.sized;
      clean = a.is_open.clean;
    };
    low-le = omega arith;
    sent =
        let one : w.pos + 1 ≡ suc w.pos = omega arith in
        ap (λ n. delivered w.context ++ take n (set w.buf w.pos b)) one
        ∙ ap (λ t. delivered w.context ++ t)
            (take-set w.pos w.buf b (omega (arith, a.is_open.storage)))
        ∙ sym (append_assoc (delivered w.context) (take w.pos w.buf) (b ∷ []))
        ∙ ap (λ t. t ++ (b ∷ [])) a.sent;
    same_memory = a.same_memory;
  }

  flushed :
      (w : Writer C) (bytes : List ℕ)
      → w.count ≤ w.pos
      → Holds 0 bytes w
      → Holds 0 bytes (act.flush w).0
        × ((act.flush w).0.pos < (act.flush w).0.count)
        × ((act.flush w).1 ≡ pos 0)
  flushed w bytes full a =
      let (o, more, same, mem, fine) =
        flush_ok w a.is_open a.same_memory (omega (arith, a.is_open.room)) in
      (
        record { is_open = o; low-le = omega arith; sent = same ∙ a.sent; same_memory = mem },
        more,
        fine,
      )

  -- The shared step of every loop succeeds, and adds the byte to what is emitted.
  pub put_byte-Wrote :
      (b : ℕ) (bytes : List ℕ) (w : Writer C)
      → Holds 0 bytes w
      → Wrote 1 (bytes ++ (b ∷ [])) (put_byte act b w)
  unfolding put_byte
  put_byte-Wrote b bytes w a = elim (Bool-cases (leb w.count w.pos)) [
    | inl full ↦
        let (h, more, fine) = flushed w bytes (ground arith) a in
        let ok : is_nonzero (act.flush w).1 ≡ false = rw fine in
        rw (full, ok) (record { done = refl; holds = stored-Holds (act.flush w).0 b bytes more h })
    | inr room ↦ rw room (record { done = refl; holds = stored-Holds w b bytes (ground arith) a })
  ]

  -- So does the step that does not look at the result of the flush.
  pub put_byte_unchecked-Holds :
      (b : ℕ) (bytes : List ℕ) (w : Writer C)
      → Holds 0 bytes w
      → Holds 1 (bytes ++ (b ∷ [])) (put_byte_unchecked act b w)
  unfolding put_byte_unchecked
  put_byte_unchecked-Holds b bytes w a = elim (Bool-cases (leb w.count w.pos)) [
    | inl full ↦
        let (h, more, fine) = flushed w bytes (ground arith) a in
        rw full (stored-Holds (act.flush w).0 b bytes more h)
    | inr room ↦ rw room (stored-Holds w b bytes (ground arith) a)
  ]
