-- ===== src/FdWriter.antt =====
-- lib/c/2014/labcomm2014_fd_writer.c: a writer to a file descriptor, and the calls of the operating
-- system that it makes, which are parameters.
pub mod Flush
use labcomm_core.Common.{
  ℕ, zero, suc, ◌+◌, ◌-◌, ◌≤◌, ◌<◌, ◌≡◌, Bool, List, [], ◌∷◌, ◌++◌, ltb, if◌then◌else◌, length,
  take, drop, replicate, ℤ, pos, negsuc, leb_ℤ, is_neg, is_zero, pos_part, minus_enomem,
  minus_einval,
}
use labcomm_core.Writer.{Writer, WriterAction}

-- `write` returns how many bytes it took, or a negative number; `error_of` is the value that a
-- failed call leaves for the error, `-errno`.
pub record OutputCalls (W : Type 0) : Type 0 where
  pub write : ℤ → List ℕ → W → ℤ × W
  pub error_of : W → ℤ
  pub close : ℤ → W → W

-- What POSIX says of a blocking `write` on an open descriptor whose far end keeps up: it takes some
-- of the bytes that it is given, and they go behind those sent before.
pub record WriteLaws {W : Type 0} (os : OutputCalls W) : Type 0 where
  pub outgoing : ℤ → W → List ℕ
  pub write_some :
      (fd : ℤ) (w : W) (bs : List ℕ)
      → 0 < length bs
      → (n : ℕ) × ((os.write fd bs w).0 ≡ pos (suc n))
        × (suc n ≤ length bs)
        × (outgoing fd (os.write fd bs w).1 ≡ outgoing fd w ++ take (suc n) bs)

-- `struct labcomm2014_fd_writer`, with the state of the operating system.
pub record FdContext (W : Type 0) : Type 0 where
  pub fd : ℤ
  pub close_fd_on_free : Bool
  pub world : W

abbrev pub buffer_size : ℕ
buffer_size = 2048

module _ {W : Type 0} (os : OutputCalls W) where
  pub fd_alloc : Writer (FdContext W) → Writer (FdContext W) × ℤ
  fd_alloc w =
      if w.memory buffer_size
      then (
        record w {
          buf = replicate buffer_size 0;
          data_size = buffer_size;
          count = buffer_size;
          pos = 0;
        },
        w.error,
      )
      else (
        record w { buf = []; data_size = 0; count = 0; pos = 0; error = minus_enomem },
        minus_enomem,
      )

  pub fd_free : Writer (FdContext W) → Writer (FdContext W) × ℤ
  fd_free w =
      let c = w.context in
      let world' = if c.close_fd_on_free then os.close c.fd c.world else c.world in
      (
        record w {
          buf = [];
          data_size = 0;
          count = 0;
          pos = 0;
          context = record c { world = world' };
        },
        pos 0,
      )

  pub fd_start : ℤ → Bool → Writer (FdContext W) → Writer (FdContext W) × ℤ
  fd_start index value w = (record w { pos = 0 }, w.error)

  -- `while (start < w->pos)`, with the result of the last call of `write`. Each round but the last
  -- moves `start` on, so as many rounds as there are bytes are enough.
  pub flush_loop : ℕ → ℤ → List ℕ → ℕ → ℕ → ℤ → W → ℤ × W
  flush_loop zero fd buf end start err w = (err, w)
  flush_loop (suc rounds) fd buf end start err w =
      let (err', w') = os.write fd (take (end - start) (drop start buf)) w in
      let next = flush_loop rounds fd buf end (start + pos_part err') err' w' in
      if ltb start end then (if leb_ℤ err' (pos 0) then (err', w') else next) else (err, w)

  -- What the result of the last call makes of the error.
  pub flush_error : ℤ → ℤ → W → ℤ
  flush_error old err w =
      if is_neg err then os.error_of w else if is_zero err then minus_einval else old

  pub fd_flush : Writer (FdContext W) → Writer (FdContext W) × ℤ
  unfolding flush_error
  fd_flush w =
      let c = w.context in
      let (err, world') = flush_loop w.pos c.fd w.buf w.pos 0 (pos 0) c.world in
      let error' = flush_error w.error err world' in
      (record w { pos = 0; error = error'; context = record c { world = world' } }, error')

  -- `end` is `fd_flush` too. `ioctl` is NULL.
  abbrev pub action : WriterAction (FdContext W)
  action = record {
    alloc = fd_alloc;
    free = fd_free;
    start = fd_start;
    finish = fd_flush;
    flush = fd_flush;
  }
