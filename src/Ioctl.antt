-- ===== src/Ioctl.antt =====
-- lib/c/2014/labcomm2014_ioctl.h: the fields of a request number. A mask of the lowest bits is a
-- remainder, and a shift a product or a quotient.
pub mod Fields
use labcomm_core.Common.{ℕ, ◌+◌, ◌*◌, ◌/◌, ◌%◌, ◌^◌}
use Prim.Native.Nat.{bit_or}

abbrev pub nosig : ℕ
nosig = 0

abbrev pub usesig : ℕ
usesig = 1

abbrev pub dir_none : ℕ
dir_none = 0

abbrev pub dir_write : ℕ
dir_write = 1

abbrev pub dir_read : ℕ
dir_read = 2

unfoldable pub ioc : ℕ → ℕ → ℕ → ℕ → ℕ → ℕ
ioc sig dir type nr size =
    bit_or (bit_or (bit_or (bit_or (sig * 2 ^ 31) (dir * 2 ^ 29)) (size * 2 ^ 16)) (type * 2 ^ 8))
      (nr * 2 ^ 0)

unfoldable pub ioc_sig : ℕ → ℕ
ioc_sig nr = nr / 2 ^ 31 % 2 ^ 1

unfoldable pub ioc_dir : ℕ → ℕ
ioc_dir nr = nr / 2 ^ 29 % 2 ^ 2

unfoldable pub ioc_size : ℕ → ℕ
ioc_size nr = nr / 2 ^ 16 % 2 ^ 13

unfoldable pub ioc_type : ℕ → ℕ
ioc_type nr = nr / 2 ^ 8 % 2 ^ 8

unfoldable pub ioc_nr : ℕ → ℕ
ioc_nr nr = nr / 2 ^ 0 % 2 ^ 8

-- LABCOMM_IO and its variants; `size` is that of the type that is handed over.
unfoldable pub io : ℕ → ℕ → ℕ
io type nr = ioc nosig dir_none type nr 0

unfoldable pub ior : ℕ → ℕ → ℕ → ℕ
ior type nr size = ioc nosig dir_read type nr size

unfoldable pub iow : ℕ → ℕ → ℕ → ℕ
iow type nr size = ioc nosig dir_write type nr size

unfoldable pub ios : ℕ → ℕ → ℕ
ios type nr = ioc usesig dir_read type nr 0

unfoldable pub iosr : ℕ → ℕ → ℕ → ℕ
iosr type nr size = ioc usesig dir_read type nr size

unfoldable pub iosw : ℕ → ℕ → ℕ → ℕ
iosw type nr size = ioc usesig dir_write type nr size

-- The requests to a writer, where an `int` has 4 bytes and a pointer 8.
unfoldable pub writer_get_bytes_written : ℕ
writer_get_bytes_written = ior 0 1 4

unfoldable pub writer_get_byte_pointer : ℕ
writer_get_byte_pointer = ior 0 2 8
