-- ===== src/FdWriter/Flush.antt =====
-- A file descriptor writer hands over every byte, in order.
use labcomm_core.Common.{
  ℕ, zero, suc, ◌+◌, ◌-◌, ◌≤◌, ◌<◌, ◌≡◌, refl, sym, ap, ◌∙◌, inl, inr, Bool, false, List, ◌++◌,
  append-nil, append_assoc, arith, ltb, leb_ℤ, Bool-cases, le→ltb, length, length-take, length-drop,
  take, drop, drop-drop, take-split, ℤ, pos, is_neg, is_zero, pos_part, minus_einval,
}
use labcomm_core.Writer.{Writer}
use labcomm_core.Writer.Sink.{IsOpen, Sink}
use labcomm_core.FdWriter.{
  OutputCalls, WriteLaws, FdContext, fd_start, flush_loop, flush_error, fd_flush, action,
}

module _ {W : Type 0} (os : OutputCalls W) (fd : ℤ) (buf : List ℕ) where
  flush_loop-done :
      (rounds end start : ℕ) (err : ℤ) (w : W)
      → end ≤ start
      → flush_loop os rounds fd buf end start err w ≡ (err, w)
  unfolding flush_loop
  flush_loop-done zero end start err w h = refl
  flush_loop-done (suc rounds) end start err w h = rw (le→ltb start end h)

  -- Once the loop of fd_flush has as many rounds as there are bytes left, more rounds change
  -- nothing: it has ended by its own test, whatever `write` answers.
  flush_loop_rounds :
      (rounds more end start : ℕ) (err : ℤ) (w : W)
      → end ≤ start + rounds
      → flush_loop os (rounds + more) fd buf end start err w
        ≡ flush_loop os rounds fd buf end start err w
  unfolding flush_loop
  flush_loop_rounds zero more end start err w h =
      flush_loop-done (0 + more) end start err w (omega arith)
  flush_loop_rounds (suc rounds) more end start err w h =
      let (err', w') = os.write fd (take (end - start) (drop start buf)) w in
      let e : suc rounds + more ≡ suc (rounds + more) = omega arith in
      rw e (elim (Bool-cases (ltb start end)) [
        | inl left ↦ elim (Bool-cases (leb_ℤ err' (pos 0))) [
          | inl failed ↦ rw (left, failed)
          | inr some_written ↦
              rw (left, some_written)
                (flush_loop_rounds rounds more end (start + pos_part err') err' w' (ground arith))
        ]
        | inr none_left ↦ rw none_left
      ])

module _ {W : Type 0} (os : OutputCalls W) where
  -- A flush with `pos` 0 sends nothing, sets the error -EINVAL and returns it.
  pub fd_flush-empty :
      (w : Writer (FdContext W))
      → w.pos ≡ 0
      → ((fd_flush os w).1 ≡ minus_einval)
        × ((fd_flush os w).0.error ≡ minus_einval)
        × ((fd_flush os w).0.context.world ≡ w.context.world)
  unfolding fd_flush flush_loop
  fd_flush-empty w e = rw e (refl, refl, refl)

module _ {W : Type 0} (os : OutputCalls W) (laws : WriteLaws os) where
  open laws use {outgoing, write_some}

  -- The loop hands over the bytes from `start` to `end`, and its last result is positive.
  flush_loop-all :
      (rounds : ℕ) (fd : ℤ) (buf : List ℕ) (end start : ℕ) (err : ℤ) (w : W)
      → start ≤ end
      → end ≤ length buf
      → end ≤ start + rounds
      → (start ≡ end → (is_neg err ≡ false) × (is_zero err ≡ false))
      → let (err', w') = flush_loop os rounds fd buf end start err w in
        (outgoing fd w' ≡ outgoing fd w ++ take (end - start) (drop start buf))
        × (is_neg err' ≡ false)
        × (is_zero err' ≡ false)
  unfolding flush_loop
  flush_loop-all zero fd buf end start err w h b f good =
      let e : start ≡ end = omega arith in
      let none_left : end - start ≡ 0 = omega arith in
      (rw (none_left, append-nil), (good e).0, (good e).1)
  flush_loop-all (suc rounds) fd buf end start err w h b f good =
      elim (Bool-cases (ltb start end)) [
        | inl left ↦
            let size : 0 < length bs = ground (arith, long) in
            let (n, took, fits, gone) = write_some fd w bs size in
            let w' = (os.write fd bs w).1 in
            let positive : leb_ℤ (pos (suc n)) (pos 0) ≡ false = ground arith in
            let nonzero : is_zero (pos (suc n)) ≡ false = ground arith in
            let (out, neg, zer) =
              flush_loop-all rounds fd buf end (start + suc n) (pos (suc n)) w'
                (ground (arith, long)) b (omega arith) (λ e. (refl, nonzero)) in
            rw (left, took, positive)
              (
                out
                    ∙ ap (λ t. t ++ take (end - (start + suc n)) (drop (start + suc n) buf)) gone
                    ∙ append_assoc (outgoing fd w) (take (suc n) bs) _
                    ∙ ap (λ t. outgoing fd w ++ t) (split n (ground (arith, long))),
                neg,
                zer,
              )
        | inr none_left ↦
            let e : start ≡ end = ground arith in
            let nothing : end - start ≡ 0 = omega arith in
            rw (none_left, nothing, append-nil) (refl, (good e).0, (good e).1)
      ]
    where
      bs : List ℕ
      bs = take (end - start) (drop start buf)

      long : length bs ≡ end - start
      long = omega (arith, length-take (end - start) (drop start buf), length-drop start buf)

      split :
          (n : ℕ)
          → suc n ≤ end - start
          → take (suc n) bs ++ take (end - (start + suc n)) (drop (start + suc n) buf) ≡ bs
      split n le =
          let e : end - (start + suc n) ≡ end - start - suc n = omega arith in
          rw (e, ← drop-drop (suc n) start buf)
            (sym (take-split (suc n) (end - start) (drop start buf) le))

  abbrev pub outgoing_of : FdContext W → List ℕ
  outgoing_of c = outgoing c.fd c.world

  -- Where each `write` of some bytes takes at least one, a flush of a writer in order whose
  -- buffer is not empty hands over exactly the bytes up to `pos`, in order and behind those
  -- sent before, empties the buffer, leaves the writer in order and returns 0.
  pub fd_flush-sends :
      (w : Writer (FdContext W))
      → IsOpen w
      → 0 < w.pos
      → let w' = (fd_flush os w).0 in
        IsOpen w'
        × (w'.pos ≡ 0)
        × (outgoing_of w'.context ≡ outgoing_of w.context ++ take w.pos w.buf)
        × (w'.memory ≡ w.memory)
        × ((fd_flush os w).1 ≡ pos 0)
  unfolding fd_flush
  fd_flush-sends w v h =
      let (sent, neg, zer) =
        flush_loop-all w.pos w.context.fd w.buf w.pos 0 (pos 0) w.context.world (omega arith)
          (omega (arith, v.storage, v.placed)) (omega arith) (λ e. absurd (omega arith)) in
      let whole : w.pos - 0 ≡ w.pos = omega arith in
      let last = flush_loop os w.pos w.context.fd w.buf w.pos 0 (pos 0) w.context.world in
      let fine : flush_error os w.error last.0 last.1 ≡ pos 0 = rw (neg, zer) v.clean in
      (
        record {
          storage = v.storage;
          placed = omega arith;
          room = v.room;
          sized = v.sized;
          clean = fine;
        },
        refl,
        sent ∙ ap (λ n. outgoing_of w.context ++ take n w.buf) whole,
        refl,
        fine,
      )

  fd_flush-flush_ok :
      (w : Writer (FdContext W))
      → IsOpen w
      → 0 < w.pos
      → let w' = (fd_flush os w).0 in
        IsOpen w'
        × (w'.pos < w'.count)
        × (outgoing_of w'.context ++ take w'.pos w'.buf ≡ outgoing_of w.context ++ take w.pos w.buf)
        × (w'.memory ≡ w.memory)
        × ((fd_flush os w).1 ≡ pos 0)
  fd_flush-flush_ok w v h =
      let (o, e, sent, same, fine) = fd_flush-sends w v h in
      let w' = (fd_flush os w).0 in
      (
        o,
        omega (arith, e, o.room),
        ap (λ n. outgoing_of w'.context ++ take n w'.buf) e ∙ append-nil _ ∙ sent,
        same,
        fine,
      )

  fd_start-start_ok :
      (index : ℤ) (value : Bool) (w : Writer (FdContext W))
      → IsOpen w
      → let w' = (fd_start os index value w).0 in
        IsOpen w'
        × (outgoing_of w'.context ++ take w'.pos w'.buf ≡ outgoing_of w.context)
        × (w'.memory ≡ w.memory)
        × ((fd_start os index value w).1 ≡ pos 0)
  unfolding fd_start
  fd_start-start_ok index value w v = (
    record {
      storage = v.storage;
      placed = omega arith;
      room = v.room;
      sized = v.sized;
      clean = v.clean;
    },
    append-nil _,
    refl,
    v.clean,
  )

  pub finish_law :
      (memory : ℕ → Bool) (w : Writer (FdContext W))
      → IsOpen w
      → w.memory ≡ memory
      → 0 < w.pos
      → let w' = (fd_flush os w).0 in
        IsOpen w'
        × (outgoing_of w'.context ++ take w'.pos w'.buf ≡ outgoing_of w.context ++ take w.pos w.buf)
        × (w'.memory ≡ memory)
        × (outgoing_of w'.context ≡ outgoing_of w.context ++ take w.pos w.buf)
        × ((fd_flush os w).1 ≡ pos 0)
  finish_law memory w v m h =
      let (o, more, sent, same, fine) = fd_flush-flush_ok w v h in
      (o, sent, same ∙ m, (fd_flush-sends w v h).2, fine)

  pub flush_law :
      (memory : ℕ → Bool) (w : Writer (FdContext W))
      → IsOpen w
      → w.memory ≡ memory
      → 0 < w.pos
      → let w' = (fd_flush os w).0 in
        IsOpen w'
        × (w'.pos < w'.count)
        × (outgoing_of w'.context ++ take w'.pos w'.buf ≡ outgoing_of w.context ++ take w.pos w.buf)
        × (w'.memory ≡ memory)
        × ((fd_flush os w).1 ≡ pos 0)
  flush_law memory w v m h =
      let (o, more, sent, same, fine) = fd_flush-flush_ok w v h in (o, more, sent, same ∙ m, fine)

  pub start_law :
      (memory : ℕ → Bool) (index : ℤ) (value : Bool) (w : Writer (FdContext W))
      → IsOpen w
      → w.memory ≡ memory
      → let w' = (fd_start os index value w).0 in
        IsOpen w'
        × (outgoing_of w'.context ++ take w'.pos w'.buf ≡ outgoing_of w.context)
        × (w'.memory ≡ memory)
        × ((fd_start os index value w).1 ≡ pos 0)
  start_law memory index value w v m =
      let (o, sent, same, fine) = fd_start-start_ok index value w v in (o, sent, same ∙ m, fine)

  -- The file descriptor writer as the encoder needs it: what has been sent stays sent.
  abbrev pub fd_sink : (memory : ℕ → Bool) → Sink (action os) memory
  fd_sink memory = record {
    delivered = outgoing_of;
    before = λ w. outgoing_of w.context;
    carry = λ bytes. bytes;
    flush_ok = λ w v m h. flush_law memory w v m h;
    start_ok = λ index value w v m. start_law memory index value w v m;
    finish_ok = λ w v m h. finish_law memory w v m h;
  }
