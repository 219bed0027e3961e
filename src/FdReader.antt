-- ===== src/FdReader.antt =====
-- lib/c/2014/labcomm2014_fd_reader.c: a reader over a file descriptor, and the two calls of the
-- operating system that it makes, which are parameters.
pub mod Fill
use labcomm_core.Common.{
  ℕ, zero, suc, ◌+◌, ◌-◌, ◌≤◌, ◌<◌, ◌≡◌, Bool, Option, none, some, List, [], ◌∷◌, ◌++◌, ltb,
  if◌then◌else◌, length, drop, replicate, ℤ, pos, negsuc, minus_enomem, minus_epipe, minus_enosys,
}
use labcomm_core.Reader.{Reader, ReaderAction}

-- `read` returns the bytes that it stored, or `none` for -1. `close` closes a descriptor.
pub record InputCalls (W : Type 0) : Type 0 where
  pub read : ℤ → ℕ → W → Option (List ℕ) × W
  pub close : ℤ → W → W

-- What POSIX says of `read` on an open descriptor at whose far end `incoming` is still to come:
-- it takes at most as many bytes as it is asked for, off the front; some bytes, if there are any
-- and it is asked for any; and none at the end of the input.
pub record ReadLaws {W : Type 0} (os : InputCalls W) : Type 0 where
  pub incoming : ℤ → W → List ℕ
  pub read_some :
      (fd : ℤ) (n : ℕ) (w : W) (x : ℕ) (xs : List ℕ)
      → 0 < n
      → incoming fd w ≡ x ∷ xs
      → (y : ℕ) × (ys : List ℕ) × ((os.read fd n w).0 ≡ some (y ∷ ys))
        × (length (y ∷ ys) ≤ n)
        × (incoming fd w ≡ (y ∷ ys) ++ incoming fd (os.read fd n w).1)
  pub read_none : (fd : ℤ) (n : ℕ) (w : W) → incoming fd w ≡ [] → (os.read fd n w).0 ≡ some []

-- `struct labcomm2014_fd_reader`, with the state of the operating system.
pub record FdContext (W : Type 0) : Type 0 where
  pub fd : ℤ
  pub close_fd_on_free : Bool
  pub world : W

abbrev pub buffer_size : ℕ
buffer_size = 2048

-- A new buffer holds arbitrary bytes, here 0.
abbrev pub new_buffer : ℕ → List ℕ
new_buffer n = replicate n 0

-- `read(fd, data, n)` overwrites the front of the buffer.
abbrev pub overwrite : List ℕ → List ℕ → List ℕ
overwrite bs buf = bs ++ drop (length bs) buf

module _ {W : Type 0} (os : InputCalls W) where
  pub fd_alloc : Reader (FdContext W) → Reader (FdContext W) × ℤ
  fd_alloc r =
      if r.memory buffer_size
      then (
        record r { buf = new_buffer buffer_size; data_size = buffer_size; count = 0; pos = 0 },
        pos buffer_size,
      )
      else (record r { buf = []; data_size = 0; count = 0; pos = 0 }, minus_enomem)

  pub fd_free : Reader (FdContext W) → Reader (FdContext W) × ℤ
  fd_free r =
      let c = r.context in
      let w = if c.close_fd_on_free then os.close c.fd c.world else c.world in
      (
        record r { buf = []; data_size = 0; count = 0; pos = 0; context = record c { world = w } },
        pos 0,
      )

  -- What `fd_fill` does with the result of `read`: 0 and -1 end the input for good.
  pub fd_store : Reader (FdContext W) → Option (List ℕ) → W → Reader (FdContext W) × ℤ
  fd_store r none w = (
    record r { count = 0; pos = 0; error = minus_epipe; context = record r.context { world = w } },
    minus_epipe,
  )
  fd_store r (some []) w = (
    record r { count = 0; pos = 0; error = minus_epipe; context = record r.context { world = w } },
    minus_epipe,
  )
  fd_store r (some (x ∷ xs)) w =
      let n = length (x ∷ xs) in
      (
        record r {
          buf = overwrite (x ∷ xs) r.buf;
          count = n;
          pos = 0;
          context = record r.context { world = w };
        },
        pos n,
      )

  pub fd_fill : Reader (FdContext W) → Reader (FdContext W) × ℤ
  unfolding fd_store
  fd_fill r =
      if ltb r.pos r.count
      then (r, pos (r.count - r.pos))
      else (let (got, w) = os.read r.context.fd r.data_size r.context.world in fd_store r got w)

  -- `start`, `end` and `ioctl` are NULL: a call of one returns -ENOSYS.
  abbrev pub action : ReaderAction (FdContext W)
  action = record {
    alloc = fd_alloc;
    free = fd_free;
    start = λ l m v r. (r, minus_enosys);
    finish = λ r. (r, minus_enosys);
    fill = fd_fill;
  }
