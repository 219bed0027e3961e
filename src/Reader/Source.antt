-- ===== src/Reader/Source.antt =====
-- What a reader promises: the bytes that are still to be read, and that `fill` supplies them.
use labcomm_core.Common.{
  ℕ, suc, ◌+◌, ◌-◌, ◌≤◌, ◌<◌, ◌≡◌, sym, ap, ◌∙◌, inl, inr, Bool, true, false, none, some, List, [],
  ◌∷◌, ◌++◌, arith, leb, if◌then◌else◌, Bool-cases, length, get_or, take, drop, take-drop-suc, ℤ,
  pos, is_neg, Yields, yields, ok,
}
use labcomm_core.Reader.{Reader, ReaderAction, next_byte}

module _ {C : Type 0} where
  pub record IsReady (r : Reader C) : Type 0 where
    pub within : r.count ≤ length r.buf
    pub placed : r.pos ≤ r.count
    pub storage : r.data_size ≤ length r.buf
    pub room : 0 < r.data_size
    pub clean : r.error ≡ pos 0

  -- The bytes in the buffer that have not been taken.
  abbrev pub buffered : Reader C → List ℕ
  buffered r = take (r.count - r.pos) (drop r.pos r.buf)

  -- The laws of the actions that the decoder relies on. `incoming` is what the far end has sent and
  -- `fill` has not fetched.
  pub record Source (act : ReaderAction C) : Type 0 where
    pub incoming : C → List ℕ
    -- On an empty buffer `fill` fetches some of the incoming bytes, if there are any,
    pub fill_some :
        (r : Reader C) (x : ℕ) (xs : List ℕ)
        → IsReady r
        → r.count ≤ r.pos
        → incoming r.context ≡ x ∷ xs
        → let r' = (act.fill r).0 in
          IsReady r'
          × (r'.pos < r'.count)
          × (buffered r' ++ incoming r'.context ≡ x ∷ xs)
          × (r'.memory ≡ r.memory)
    -- and fails if there are none.
    pub fill_none :
        (r : Reader C)
        → IsReady r
        → r.count ≤ r.pos
        → incoming r.context ≡ []
        → is_neg (act.fill r).0.error ≡ true
    pub start_keeps : (l m : ℤ) (v : Bool) (r : Reader C) → (act.start l m v r).0 ≡ r
    pub finish_keeps : (r : Reader C) → (act.finish r).0 ≡ r

module _ {C : Type 0} {act : ReaderAction C} (src : Source act) where
  open src use {incoming, fill_some, fill_none}

  abbrev pub pending : Reader C → List ℕ
  pending r = buffered r ++ incoming r.context

  -- The reader is in order and stands before the bytes `xs`.
  pub record At (memory : ℕ → Bool) (xs : List ℕ) (r : Reader C) : Type 0 where
    pub ready : IsReady r
    pub ahead : pending r ≡ xs
    pub same_memory : r.memory ≡ memory

  buffered-cons :
      (r : Reader C)
      → IsReady r
      → r.pos < r.count
      → buffered r ≡ get_or r.buf r.pos 0 ∷ take (r.count - (r.pos + 1)) (drop (r.pos + 1) r.buf)
  buffered-cons r v h =
      let e : r.count - r.pos ≡ suc (r.count - (r.pos + 1)) = omega arith in
      let f : r.pos + 1 ≡ suc r.pos = omega arith in
      ap (λ n. take n (drop r.pos r.buf)) e
      ∙ take-drop-suc (r.count - (r.pos + 1)) r.pos r.buf 0 (omega arith)
      ∙ ap (λ n. get_or r.buf r.pos 0 ∷ take (r.count - (r.pos + 1)) (drop n r.buf)) (sym f)

  buffered-nil : (r : Reader C) → r.count ≤ r.pos → buffered r ≡ []
  buffered-nil r h = let e : r.count - r.pos ≡ 0 = omega arith in rw e

  -- Taking a byte out of a buffer that holds one.
  taken-At :
      {memory : ℕ → Bool} (r : Reader C) (x : ℕ) (xs : List ℕ)
      → r.pos < r.count
      → At memory (x ∷ xs) r
      → Yields
          (some x)
          (At memory xs)
          (ok (some (get_or r.buf r.pos 0)) (record r { pos = r.pos + 1 }))
  taken-At {memory} r x xs h a =
      let rest : List ℕ = take (r.count - (r.pos + 1)) (drop (r.pos + 1) r.buf) in
      let e : get_or r.buf r.pos 0 ∷ (rest ++ incoming r.context) ≡ x ∷ xs =
        ap (λ t. t ++ incoming r.context) (sym (buffered-cons r a.ready h)) ∙ a.ahead in
      let first : get_or r.buf r.pos 0 ≡ x = cc in
      let later : rest ++ incoming r.context ≡ xs = cc in
      rw first (
        yields (record {
          ready = record {
            within = a.ready.within;
            placed = omega arith;
            storage = a.ready.storage;
            room = a.ready.room;
            clean = a.ready.clean;
          };
          ahead = later;
          same_memory = a.same_memory;
        }))

  -- The shared step of every loop, before a byte: it is returned, and the reader stands behind it.
  pub next_byte-At :
      {memory : ℕ → Bool} (failed : ℤ → Bool) (r : Reader C) (x : ℕ) (xs : List ℕ)
      → failed (pos 0) ≡ false
      → At memory (x ∷ xs) r
      → Yields (some x) (At memory xs) (next_byte act failed r)
  unfolding next_byte
  next_byte-At {memory} failed r x xs f a = elim (Bool-cases (leb r.count r.pos)) [
    | inl empty ↦ rw empty (refilled (fill_some r x xs a.ready (ground arith) (emptied empty)))
    | inr more ↦ rw more (taken-At r x xs (ground arith) a)
  ]
    where
      emptied : leb r.count r.pos ≡ true → incoming r.context ≡ x ∷ xs
      emptied h = ap (λ t. t ++ incoming r.context) (sym (buffered-nil r (ground arith))) ∙ a.ahead

      refilled :
          let r' = (act.fill r).0 in
          IsReady r'
            × (r'.pos < r'.count)
            × (buffered r' ++ incoming r'.context ≡ x ∷ xs)
            × (r'.memory ≡ r.memory)
          → Yields (some x) (At memory xs) (
              if failed r'.error
              then ok none r'
              else ok (some (get_or r'.buf r'.pos 0)) (record r' { pos = r'.pos + 1 }))
      refilled (ready, more, ahead, same) =
          let r' = (act.fill r).0 in
          let clean : r'.error ≡ pos 0 = ready.clean in
          let passes : failed r'.error ≡ false = rw clean f in
          rw passes (
            taken-At r' x xs more
              (record { ready = ready; ahead = ahead; same_memory = same ∙ a.same_memory }))

  -- At the end of the input no byte is returned and the reader's error is set.
  pub next_byte-end :
      {memory : ℕ → Bool} (failed : ℤ → Bool) (r : Reader C)
      → ((z : ℤ) → is_neg z ≡ true → failed z ≡ true)
      → At memory [] r
      → Yields none (λ r'. is_neg r'.error ≡ true) (next_byte act failed r)
  unfolding next_byte
  next_byte-end failed r f a = elim (Bool-cases (leb r.count r.pos)) [
    | inl empty ↦
        let nothing : incoming r.context ≡ [] =
          ap (λ t. t ++ incoming r.context) (sym (buffered-nil r (ground arith))) ∙ a.ahead in
        let fails : is_neg (act.fill r).0.error ≡ true =
          fill_none r a.ready (ground arith) nothing in
        rw (empty, f (act.fill r).0.error fails) (yields fails)
    | inr more ↦
        let full : buffered r ++ incoming r.context ≡ [] = a.ahead in
        let e = buffered-cons r a.ready (ground arith) in
        absurd (cc (ap (λ t. t ++ incoming r.context) (sym e) ∙ full))
  ]
