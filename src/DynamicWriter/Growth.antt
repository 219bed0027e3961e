-- ===== src/DynamicWriter/Growth.antt =====
-- The dynamic buffer loses no byte of a packet, however long the packet is.
use labcomm_core.Common.{
  ℕ, zero, suc, ◌+◌, ◌-◌, ◌≤◌, ◌<◌, ◌≡◌, refl, ap, ◌∙◌, Bool, true, List, [], ◌∷◌, ◌++◌, arith,
  length, length-append, length-take, length-replicate, replicate, take, ℤ, pos,
}
use labcomm_core.Writer.{Writer}
use labcomm_core.Writer.Sink.{IsOpen, Sink}
use labcomm_core.DynamicWriter.{Context, chunk, resize, dyn_start, dyn_end, dyn_flush, action}

-- The front of a buffer that has grown, or kept its size, is as it was.
take-take-append :
    (p n : ℕ) (xs ys : List ℕ) → p ≤ n → p ≤ length xs → take p (take n xs ++ ys) ≡ take p xs
take-take-append zero n xs ys h k = refl
take-take-append (suc p) zero xs ys h k = absurd (omega arith)
take-take-append (suc p) (suc n) [] ys h k = absurd (omega arith)
take-take-append (suc p) (suc n) (x ∷ xs) ys h k =
    ap (λ t. x ∷ t) (take-take-append p n xs ys (omega arith) (omega arith))

length-resize : (n : ℕ) (buf : List ℕ) → length (resize n buf) ≡ n
length-resize n buf = omega (
  arith,
  length-append (take n buf) (replicate (n - length buf) 0),
  length-take n buf,
  length-replicate {A = ℕ} (n - length buf) 0,
)

module _ (memory : ℕ → Bool) (plenty : (n : ℕ) → memory n ≡ true) where
  -- Where all allocations succeed, a flush of a dynamic buffer in order returns 0, makes room
  -- for a byte and keeps the bytes up to `pos`.
  pub dyn_flush-keeps :
      (w : Writer Context)
      → IsOpen w
      → w.memory ≡ memory
      → let w' = (dyn_flush w).0 in
        IsOpen w'
        × (w'.pos < w'.count)
        × (take w'.pos w'.buf ≡ take w.pos w.buf)
        × (w'.memory ≡ memory)
        × ((dyn_flush w).1 ≡ pos 0)
  unfolding dyn_flush
  dyn_flush-keeps w v m =
      let size = w.data_size + chunk in
      let given : w.memory size ≡ true = ap (λ f. f size) m ∙ plenty size in
      rw given (
        record {
          storage = omega (arith, length-resize size w.buf);
          placed = omega arith;
          room = omega arith;
          sized = refl;
          clean = refl;
        },
        omega arith,
        take-take-append w.pos size w.buf (replicate (size - length w.buf) 0) (omega arith)
            (omega arith),
        m,
        refl,
      )

  -- A start empties the buffer: nothing of the packet before stays.
  pub dyn_start-empties :
      (index : ℤ) (value : Bool) (w : Writer Context)
      → w.memory ≡ memory
      → let w' = (dyn_start index value w).0 in
        IsOpen w' × (w'.pos ≡ 0) × (w'.memory ≡ memory) × ((dyn_start index value w).1 ≡ pos 0)
  unfolding dyn_start
  dyn_start-empties index value w m =
      let given : w.memory chunk ≡ true = ap (λ f. f chunk) m ∙ plenty chunk in
      rw given (
        record {
          storage = omega (arith, length-resize chunk w.buf);
          placed = omega arith;
          room = omega arith;
          sized = refl;
          clean = refl;
        },
        refl,
        m,
        refl,
      )

  pub dyn_end-keeps :
      (w : Writer Context)
      → IsOpen w
      → w.memory ≡ memory
      → let w' = (dyn_end w).0 in
        IsOpen w'
        × (take w'.pos w'.buf ≡ take w.pos w.buf)
        × (w'.memory ≡ memory)
        × (◌≡◌ {A = List ℕ} [] [])
        × ((dyn_end w).1 ≡ pos 0)
  unfolding dyn_end
  dyn_end-keeps w v m = (v, refl, m, refl, refl)

  pub dyn_start-started :
      (index : ℤ) (value : Bool) (w : Writer Context)
      → w.memory ≡ memory
      → let w' = (dyn_start index value w).0 in
        IsOpen w'
        × (take w'.pos w'.buf ≡ [])
        × (w'.memory ≡ memory)
        × ((dyn_start index value w).1 ≡ pos 0)
  dyn_start-started index value w m =
      let (o, e, same, fine) = dyn_start-empties index value w m in
      (o, ap (λ n. take n (dyn_start index value w).0.buf) e, same, fine)

  -- The dynamic buffer as the encoder needs it: only the packet at hand is kept.
  abbrev pub dynamic_sink : Sink action memory
  dynamic_sink = record {
    delivered = λ c. [];
    before = λ w. [];
    carry = λ bytes. [];
    flush_ok = λ w v m p. dyn_flush-keeps w v m;
    start_ok = λ index value w v m. dyn_start-started index value w m;
    finish_ok = λ w v m p. dyn_end-keeps w v m;
  }
