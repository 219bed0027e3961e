-- ===== src/Writer/Numbers.antt =====
-- labcomm2014_write_* put the wire format of numbers and strings behind what is already emitted.
use labcomm_core.Common.{
  ℕ, zero, suc, ◌+◌, ◌/◌, ◌%◌, ◌^◌, ◌≤◌, ◌≡◌, refl, ap, ◌∙◌, inl, inr, Bool, false, List, [], ◌∷◌,
  ◌++◌, append-nil, append_assoc, arith, ◌==◌, if◌then◌else◌, Bool-cases, length, get_or,
}
use labcomm_core.Wire.{word, leading, packed32, string}
use labcomm_core.Writer.{
  Writer, WriterAction, put_byte, groups, tmp_size, write_word, write_groups, write_packed32,
  write_chars, write_string,
}
use labcomm_core.Writer.Sink.{Sink, Holds, Wrote, Holds-le, chain, put_byte-Wrote}

-- What the downward loop over the first `i` groups puts out.
emission : List ℕ → ℕ → List ℕ
emission tmp zero = []
emission tmp (suc i) = (get_or tmp i 0 + (if i == 0 then 0 else 128)) ∷ emission tmp i

-- The groups above the lowest, all with the top bit.
upper : List ℕ → ℕ → List ℕ
upper gs zero = []
upper gs (suc i) = (get_or gs i 0 + 128) ∷ upper gs i

emission-cons : (g : ℕ) (gs : List ℕ) (i : ℕ) → emission (g ∷ gs) (suc i) ≡ upper gs i ++ (g ∷ [])
unfolding emission upper
emission-cons g gs zero = let e : g + 0 ≡ g = omega arith in rw e
emission-cons g gs (suc i) =
    let e : (suc i == 0) ≡ false = ground arith in
    rw e (ap (λ t. (get_or gs i 0 + 128) ∷ t) (emission-cons g gs i))

upper-cons : (g : ℕ) (gs : List ℕ) (i : ℕ) → upper (g ∷ gs) (suc i) ≡ upper gs i ++ ((g + 128) ∷ [])
unfolding upper
upper-cons g gs zero = refl
upper-cons g gs (suc i) = ap (λ t. (get_or gs i 0 + 128) ∷ t) (upper-cons g gs i)

-- The groups that the loop collects are those of the wire format.
upper-groups :
    (k v : ℕ) → let gs = if v == 0 then [] else groups k v in upper gs (length gs) ≡ leading k v
unfolding groups leading upper
upper-groups zero v = elim (Bool-cases (v == 0)) [ inl e ↦ rw e | inr e ↦ rw e ]
upper-groups (suc k) v = elim (Bool-cases (v == 0)) [
  | inl e ↦ rw e
  | inr e ↦
      let rest : List ℕ = if v / 128 == 0 then [] else groups k (v / 128) in
      rw e (
        upper-cons (v % 128) rest (length rest)
        ∙ ap (λ t. t ++ ((v % 128 + 128) ∷ [])) (upper-groups k (v / 128)))
]

emission-groups : (v : ℕ) → emission (groups tmp_size v) (length (groups tmp_size v)) ≡ packed32 v
unfolding groups packed32
emission-groups v =
    let rest : List ℕ = if v / 128 == 0 then [] else groups 4 (v / 128) in
    emission-cons (v % 128) rest (length rest)
    ∙ ap (λ t. t ++ ((v % 128) ∷ [])) (upper-groups 4 (v / 128))

module _ {C : Type 0} {act : WriterAction C} {memory : ℕ → Bool} (sink : Sink act memory) where
  lower :
      {low : ℕ} {bytes : List ℕ} {w : Writer C}
      → low ≤ 1
      → Holds sink 1 bytes w
      → Holds sink low bytes w
  lower h a = record {
    is_open = a.is_open;
    low-le = omega arith;
    sent = a.sent;
    same_memory = a.same_memory;
  }

  write_groups-Wrote :
      (low : ℕ) (tmp : List ℕ) (i : ℕ) (bytes : List ℕ) (w : Writer C)
      → low ≤ 1
      → Holds sink low bytes w
      → Wrote sink low (bytes ++ emission tmp i) (write_groups act tmp i w)
  unfolding write_groups emission
  write_groups-Wrote low tmp zero bytes w l a = rw append-nil (record { done = refl; holds = a })
  write_groups-Wrote low tmp (suc i) bytes w l a =
      let b : ℕ = get_or tmp i 0 + (if i == 0 then 0 else 128) in
      chain sink (put_byte act b w) (write_groups act tmp i)
        (put_byte-Wrote sink b bytes w (Holds-le sink a))
        (λ h.
          rw append_assoc at
            (write_groups-Wrote low tmp i (bytes ++ (b ∷ [])) (put_byte act b w).0 l (lower l h)))

  write_groups-first :
      (tmp : List ℕ) (i : ℕ) (bytes : List ℕ) (w : Writer C)
      → Holds sink 0 bytes w
      → Wrote sink 1 (bytes ++ emission tmp (suc i)) (write_groups act tmp (suc i) w)
  unfolding write_groups emission
  write_groups-first tmp i bytes w a =
      let b : ℕ = get_or tmp i 0 + (if i == 0 then 0 else 128) in
      chain sink (put_byte act b w) (write_groups act tmp i) (put_byte-Wrote sink b bytes w a) (λ h.
        rw append_assoc at
          (write_groups-Wrote 1 tmp i (bytes ++ (b ∷ [])) (put_byte act b w).0 (omega arith) h))

  -- On a writer in order, labcomm2014_write_packed32 succeeds, emits the packed form of its
  -- number behind what was emitted, and leaves at least one byte in the buffer.
  pub write_packed32-Wrote :
      (v : ℕ) (bytes : List ℕ) (w : Writer C)
      → Holds sink 0 bytes w
      → Wrote sink 1 (bytes ++ packed32 v) (write_packed32 act v w)
  unfolding write_packed32 groups
  write_packed32-Wrote v bytes w a =
      let rest : List ℕ = if v / 128 == 0 then [] else groups 4 (v / 128) in
      rw (emission-groups v) at (write_groups-first ((v % 128) ∷ rest) (length rest) bytes w a)

  write_chars-Wrote :
      (low : ℕ) (xs bytes : List ℕ) (w : Writer C)
      → low ≤ 1
      → Holds sink low bytes w
      → Wrote sink low (bytes ++ xs) (write_chars act xs w)
  unfolding write_chars
  write_chars-Wrote low [] bytes w l a = rw append-nil (record { done = refl; holds = a })
  write_chars-Wrote low (x ∷ xs) bytes w l a =
      chain sink (put_byte act x w) (write_chars act xs)
        (put_byte-Wrote sink x bytes w (Holds-le sink a))
        (λ h.
          rw append_assoc at
            (write_chars-Wrote low xs (bytes ++ (x ∷ [])) (put_byte act x w).0 l (lower l h)))

  -- On a writer in order, labcomm2014_write_string succeeds and emits the length, packed, and
  -- the bytes behind what was emitted, and leaves at least one byte in the buffer.
  pub write_string-Wrote :
      (s bytes : List ℕ) (w : Writer C)
      → Holds sink 0 bytes w
      → Wrote sink 1 (bytes ++ string s) (write_string act s w)
  unfolding write_string string
  write_string-Wrote s bytes w a =
      chain sink (write_packed32 act (length s) w) (write_chars act s)
        (write_packed32-Wrote (length s) bytes w a)
        (λ h. rw append_assoc at (
          write_chars-Wrote 1 s (bytes ++ packed32 (length s)) (write_packed32 act (length s) w).0
            (omega arith) h))

  write_word-low :
      (low size v : ℕ) (bytes : List ℕ) (w : Writer C)
      → low ≤ 1
      → Holds sink low bytes w
      → Wrote sink low (bytes ++ word size v) (write_word act size v w)
  unfolding write_word word
  write_word-low low zero v bytes w l a = rw append-nil (record { done = refl; holds = a })
  write_word-low low (suc i) v bytes w l a =
      let b : ℕ = v / 256 ^ i % 256 in
      chain sink (put_byte act b w) (write_word act i v)
        (put_byte-Wrote sink b bytes w (Holds-le sink a))
        (λ h.
          rw append_assoc at
            (write_word-low low i v (bytes ++ (b ∷ [])) (put_byte act b w).0 l (lower l h)))

  -- On a writer in order with at least one byte in the buffer, the fixed-size writes succeed
  -- and emit the bytes of the number, highest first, behind what was emitted.
  pub write_word-Wrote :
      (size v : ℕ) (bytes : List ℕ) (w : Writer C)
      → Holds sink 1 bytes w
      → Wrote sink 1 (bytes ++ word size v) (write_word act size v w)
  write_word-Wrote size v bytes w a = write_word-low 1 size v bytes w (omega arith) a
