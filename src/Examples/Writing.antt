-- ===== src/Examples/Writing.antt =====
-- The theorems on writers at concrete inputs.
use labcomm_core.Common.{◌≡◌, refl, [], ◌∷◌, arith, pos}
use labcomm_core.Wire.{packed32, string}
use labcomm_core.Writer.{Writer, write_packed32, write_string}
use labcomm_core.Writer.Sink.{IsOpen, Wrote, Holds-le}
use labcomm_core.Writer.Numbers.{write_packed32-Wrote, write_string-Wrote}
use labcomm_core.FdWriter.{fd_flush}
use labcomm_core.FdWriter.Flush.{outgoing_of, fd_flush-sends}
use labcomm_core.DynamicWriter as Dynamic
use labcomm_core.Examples.{
  OutputContext, plenty, output, output_laws, out_action, sink, writer, writer-IsOpen, writer-Holds,
}

write_packed32-Wrote_example :
    Wrote sink 1 (9 ∷ 7 ∷ packed32 300000) (write_packed32 out_action 300000 writer)
write_packed32-Wrote_example =
    write_packed32-Wrote sink 300000 (9 ∷ 7 ∷ []) writer (Holds-le sink writer-Holds)

write_string-Wrote_example :
    Wrote sink 1
      (9 ∷ 7 ∷ string (97 ∷ 98 ∷ 99 ∷ []))
      (write_string out_action (97 ∷ 98 ∷ 99 ∷ []) writer)
write_string-Wrote_example =
    write_string-Wrote sink (97 ∷ 98 ∷ 99 ∷ []) (9 ∷ 7 ∷ []) writer (Holds-le sink writer-Holds)

abbrev empty_writer : Writer OutputContext
empty_writer = record writer { pos = 0 }

fd_flush-sends_example :
    let w' = (fd_flush output writer).0 in
    IsOpen w'
    × (w'.pos ≡ 0)
    × (outgoing_of output output_laws w'.context ≡ 9 ∷ 7 ∷ [])
    × (w'.memory ≡ plenty)
    × ((fd_flush output writer).1 ≡ pos 0)
fd_flush-sends_example = fd_flush-sends output output_laws writer writer-IsOpen (omega arith)

-- A dynamic buffer of two bytes that is full.
abbrev full : Writer Dynamic.Context
full = record {
  buf = 5 ∷ 6 ∷ [];
  data_size = 2;
  count = 2;
  pos = 2;
  error = pos 0;
  memory = plenty;
  context = tt;
}

full-IsOpen : IsOpen full
full-IsOpen = record {
  storage = omega arith;
  placed = omega arith;
  room = omega arith;
  sized = refl;
  clean = refl;
}
