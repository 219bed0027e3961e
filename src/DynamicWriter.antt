-- ===== src/DynamicWriter.antt =====
-- lib/c/2014/labcomm2014_dynamic_buffer_writer.c: a writer that keeps one packet in memory and
-- lets its buffer grow.
pub mod Growth
use labcomm_core.Common.{
  ℕ, ◌+◌, ◌-◌, ◌≡◌, Bool, Option, none, some, List, [], ◌++◌, ◌==◌, if◌then◌else◌, length, take,
  replicate, ℤ, pos, minus_enomem, minus_enotsup,
}
use labcomm_core.Writer.{Writer, WriterAction}

-- The size of a new buffer, and by how much it grows.
abbrev pub chunk : ℕ
chunk = 1000

-- `realloc` keeps the front of the old buffer; what it adds is arbitrary, here 0.
abbrev pub resize : ℕ → List ℕ → List ℕ
resize n buf = take n buf ++ replicate (n - length buf) 0

-- The writer has no context of its own.
abbrev pub Context : Type 0
Context = Unit {0}

pub dyn_alloc : Writer Context → Writer Context × ℤ
dyn_alloc w =
    if w.memory chunk
    then (record w { buf = replicate chunk 0; data_size = chunk; count = chunk; pos = 0 }, w.error)
    else (
      record w { buf = []; data_size = chunk; count = chunk; pos = 0; error = minus_enomem },
      minus_enomem,
    )

pub dyn_free : Writer Context → Writer Context × ℤ
dyn_free w = (record w { buf = []; data_size = 0; count = 0; pos = 0 }, pos 0)

pub dyn_start : ℤ → Bool → Writer Context → Writer Context × ℤ
dyn_start index value w =
    if w.memory chunk
    then (
      record w {
        buf = resize chunk w.buf;
        data_size = chunk;
        count = chunk;
        pos = 0;
        error = pos 0;
      },
      pos 0,
    )
    else (
      record w { data_size = chunk; count = chunk; pos = 0; error = minus_enomem },
      minus_enomem,
    )

pub dyn_end : Writer Context → Writer Context × ℤ
dyn_end w = (w, pos 0)

pub dyn_flush : Writer Context → Writer Context × ℤ
dyn_flush w =
    let size = w.data_size + chunk in
    if w.memory size
    then (
      record w { buf = resize size w.buf; data_size = size; count = size; error = pos 0 },
      pos 0,
    )
    else (record w { data_size = size; count = size; error = minus_enomem }, minus_enomem)

-- The two requests that `dyn_ioctl` answers: the number of bytes written, and the buffer.
pub data Answer : Type 0 where
  bytes_written : ℕ → Answer
  byte_pointer : List ℕ → Answer

-- LABCOMM_IOCTL_WRITER_GET_BYTES_WRITTEN and LABCOMM_IOCTL_WRITER_GET_BYTE_POINTER, by their
-- numbers in lib/c/2014/labcomm2014_ioctl.h.
abbrev pub get_bytes_written : ℕ
get_bytes_written = 1

abbrev pub get_byte_pointer : ℕ
get_byte_pointer = 2

pub dyn_ioctl : ℕ → Writer Context → Option Answer × ℤ
dyn_ioctl request w =
    if request == get_bytes_written
    then (some (bytes_written w.pos), pos 0)
    else if request == get_byte_pointer
    then (some (byte_pointer w.buf), pos 0)
    else (none, minus_enotsup)

abbrev pub action : WriterAction Context
action = record {
  alloc = dyn_alloc;
  free = dyn_free;
  start = dyn_start;
  finish = dyn_end;
  flush = dyn_flush;
}
