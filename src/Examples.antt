-- ===== src/Examples.antt =====
-- Concrete instances for the theorems: operating systems with one stream of bytes, small buffers, an
-- allocator that always succeeds, and a signature.
mod Decoding
mod Definitions
mod Encoding
mod Parsing
mod Reading
mod Renaming
mod Chains
mod Requests
mod Scheduling
mod Session
mod Storage
mod Writing
use labcomm_core.Common.{
  ℕ, zero, suc, ◌+◌, ◌≤◌, ◌<◌, ◌≡◌, refl, Bool, true, false, Option, some, List, [], ◌∷◌, ◌++◌,
  arith, length, take, ℤ, pos, pure, ◌>>=◌, bind, yields,
}
use labcomm_core.Reader.{Reader, ReaderAction, read_packed32}
use labcomm_core.Reader.Source.{Source, IsReady, At}
use labcomm_core.Writer.{Writer, WriterAction}
use labcomm_core.Writer.Sink.{Sink, IsOpen, Holds}
use labcomm_core.Signature.{Signature, signature, end, bytes}
use labcomm_core.Wire.{packed32}
use labcomm_core.Reader.Packed.{read_packed32-packed32}
use labcomm_core.Decoder.{DecoderFunction, sample}
use labcomm_core.Decoder.Packets.Delivery.{Decodes}
use labcomm_core.FdReader as Input
use labcomm_core.FdReader.Fill.{fd_source}
use labcomm_core.FdWriter as Output
use labcomm_core.FdWriter.Flush.{fd_sink}

abbrev plenty : ℕ → Bool
plenty n = true

-- Each read supplies one byte,
abbrev one_byte : List ℕ → Option (List ℕ) × List ℕ
one_byte [] = (some [], [])
one_byte (x ∷ xs) = (some (x ∷ []), xs)

abbrev input : Input.InputCalls (List ℕ)
input = record { read = λ fd n w. one_byte w; close = λ fd w. w }

one_byte_lem :
    (n : ℕ) (w : List ℕ) (x : ℕ) (xs : List ℕ)
    → 0 < n
    → w ≡ x ∷ xs
    → (y : ℕ) × (ys : List ℕ) × ((one_byte w).0 ≡ some (y ∷ ys))
      × (length (y ∷ ys) ≤ n)
      × (w ≡ (y ∷ ys) ++ (one_byte w).1)
one_byte_lem n [] x xs h e = absurd (cc e)
one_byte_lem n (y ∷ ys) x xs h e = (y, [], refl, omega (arith, h), refl)

one_byte-nil : (w : List ℕ) → w ≡ [] → (one_byte w).0 ≡ some []
one_byte-nil [] e = refl
one_byte-nil (x ∷ xs) e = absurd (cc e)

abbrev input_laws : Input.ReadLaws input
input_laws = record {
  incoming = λ fd w. w;
  read_some = λ fd n w x xs h e. one_byte_lem n w x xs h e;
  read_none = λ fd n w e. one_byte-nil w e;
}

-- and each write takes one.
abbrev output : Output.OutputCalls (List ℕ)
output = record {
  write = λ fd bs w. (pos 1, w ++ take 1 bs);
  error_of = λ w. pos 0;
  close = λ fd w. w;
}

abbrev output_laws : Output.WriteLaws output
output_laws = record {
  outgoing = λ fd w. w;
  write_some = λ fd w bs h. (0, refl, omega (arith, h), refl);
}

abbrev InputContext : Type 0
InputContext = Input.FdContext (List ℕ)

abbrev OutputContext : Type 0
OutputContext = Output.FdContext (List ℕ)

abbrev in_action : ReaderAction InputContext
in_action = Input.action input

abbrev out_action : WriterAction OutputContext
out_action = Output.action output

abbrev source : Source in_action
source = fd_source input input_laws

abbrev sink : Sink out_action plenty
sink = fd_sink output output_laws plenty

-- A reader with a buffer of two bytes, at whose far end `xs` is still to come.
abbrev reader : List ℕ → Reader InputContext
reader xs = record {
  buf = 0 ∷ 0 ∷ [];
  data_size = 2;
  count = 0;
  pos = 0;
  error = pos 0;
  memory = plenty;
  context = record { fd = pos 3; close_fd_on_free = false; world = xs };
}

reader-IsReady : (xs : List ℕ) → IsReady (reader xs)
reader-IsReady xs = record {
  within = omega arith;
  placed = omega arith;
  storage = omega arith;
  room = omega arith;
  clean = refl;
}

reader-At : (xs : List ℕ) → At source plenty xs (reader xs)
reader-At xs = record { ready = reader-IsReady xs; ahead = refl; same_memory = refl }

-- A writer with a buffer of three bytes, one of them used.
abbrev writer : Writer OutputContext
writer = record {
  buf = 7 ∷ 0 ∷ 0 ∷ [];
  data_size = 3;
  count = 3;
  pos = 1;
  error = pos 0;
  memory = plenty;
  context = record { fd = pos 4; close_fd_on_free = false; world = 9 ∷ [] };
}

writer-IsOpen : IsOpen writer
writer-IsOpen = record {
  storage = omega arith;
  placed = omega arith;
  room = omega arith;
  sized = refl;
  clean = refl;
}

writer-Holds : Holds sink 1 (9 ∷ 7 ∷ []) writer
writer-Holds = record {
  is_open = writer-IsOpen;
  low-le = omega arith;
  sent = refl;
  same_memory = refl;
}

-- A sample named "ab" with the local index 64.
abbrev ab : Signature
ab = signature (97 ∷ 98 ∷ []) (pos 64) (1 ∷ 35 ∷ []) (bytes (1 ∷ 35 ∷ []) end)

-- A generated function that decodes a packed number.
abbrev decode_number : DecoderFunction InputContext ℕ
decode_number = do v ← read_packed32 in_action 5; pure (some (sample v))

decode_number-Decodes : Decodes source plenty (packed32 500) decode_number (sample 500)
decode_number-Decodes rest r a =
    bind _ (read_packed32-packed32 source 5 500 rest r (omega arith) (omega arith) a)
      (λ r' a'. yields a')
