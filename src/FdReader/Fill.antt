-- ===== src/FdReader/Fill.antt =====
-- A file descriptor reader delivers the bytes that come in, in order.
use labcomm_core.Common.{
  ℕ, ◌-◌, ◌≤◌, ◌<◌, ◌≡◌, refl, sym, ap, ◌∙◌, Bool, true, some, List, [], ◌∷◌, ◌++◌, arith, le→ltb,
  length, length-append, length-drop, drop, take-append, pos, minus_epipe,
}
use labcomm_core.Reader.{Reader}
use labcomm_core.Reader.Source.{Source, IsReady, At, buffered}
use labcomm_core.FdReader.{
  InputCalls, ReadLaws, FdContext, fd_alloc, fd_store, fd_fill, action, buffer_size,
}

module _ {W : Type 0} (os : InputCalls W) (laws : ReadLaws os) where
  open laws use {incoming, read_some, read_none}

  abbrev pub incoming_of : FdContext W → List ℕ
  incoming_of c = incoming c.fd c.world

  -- The reader that supplies `front`: ready, not empty, with `front` buffered or to come.
  abbrev pub Supplies : (front : List ℕ) (memory : ℕ → Bool) → Reader (FdContext W) → Type 0
  Supplies front memory r' =
      IsReady r'
      × (r'.pos < r'.count)
      × (buffered r' ++ incoming_of r'.context ≡ front)
      × (r'.memory ≡ memory)

  fd_store-Supplies :
      (r : Reader (FdContext W)) (y : ℕ) (ys : List ℕ) (w : W)
      → IsReady r
      → length (y ∷ ys) ≤ r.data_size
      → Supplies ((y ∷ ys) ++ incoming r.context.fd w) r.memory (fd_store os r (some (y ∷ ys)) w).0
  unfolding fd_store
  fd_store-Supplies r y ys w v h =
      let n = length (y ∷ ys) in
      let old = drop n r.buf in
      let whole : n - 0 ≡ n = omega arith in
      (
        record {
          within = omega (arith, length-append (y ∷ ys) old);
          placed = omega arith;
          storage = omega (arith, v.storage, length-append (y ∷ ys) old, length-drop n r.buf);
          room = v.room;
          clean = v.clean;
        },
        omega arith,
        rw whole (ap (λ t. t ++ incoming r.context.fd w) (take-append n (y ∷ ys) old refl)),
        refl,
      )

  -- On an empty buffer, where bytes are still to come, `fd_fill` leaves a reader in order with
  -- at least one byte; what is then buffered and what is still to come are together what was to
  -- come.
  pub fd_fill-some :
      (r : Reader (FdContext W)) (x : ℕ) (xs : List ℕ)
      → IsReady r
      → r.count ≤ r.pos
      → incoming_of r.context ≡ x ∷ xs
      → Supplies (x ∷ xs) r.memory (fd_fill os r).0
  unfolding fd_fill
  fd_fill-some r x xs v h e =
      let (y, ys, got, fits, split) =
        read_some r.context.fd r.data_size r.context.world x xs v.room e in
      let w = (os.read r.context.fd r.data_size r.context.world).1 in
      rw (le→ltb r.pos r.count h, got) (rw (sym split ∙ e) at (fd_store-Supplies r y ys w v fits))

  -- On an empty buffer, where nothing is still to come, `fd_fill` sets the error -EPIPE and
  -- returns it.
  pub fd_fill-end :
      (r : Reader (FdContext W))
      → r.count ≤ r.pos
      → incoming_of r.context ≡ []
      → ((fd_fill os r).0.error ≡ minus_epipe) × ((fd_fill os r).1 ≡ minus_epipe)
  unfolding fd_fill
  fd_fill-end r h e =
      rw (le→ltb r.pos r.count h, read_none r.context.fd r.data_size r.context.world e, fd_store)
        (refl, refl)

  abbrev pub fd_source : Source (action os)
  fd_source = record {
    incoming = incoming_of;
    fill_some = fd_fill-some;
    fill_none = λ r v h e. rw ((fd_fill-end r h e).0);
    start_keeps = λ l m v r. refl;
    finish_keeps = λ r. refl;
  }

  -- `fd_alloc` gets a new reader ready before all that is to come, if the buffer can be allocated.
  pub fd_alloc-ready :
      (r : Reader (FdContext W))
      → r.error ≡ pos 0
      → r.memory buffer_size ≡ true
      → At fd_source r.memory (incoming_of r.context) (fd_alloc os r).0
  unfolding fd_alloc
  fd_alloc-ready r clean room = rw room (record {
    ready = record {
      within = omega arith;
      placed = omega arith;
      storage = omega arith;
      room = omega arith;
      clean = clean;
    };
    ahead = refl;
    same_memory = refl;
  })
