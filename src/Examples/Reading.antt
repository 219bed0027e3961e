-- ===== src/Examples/Reading.antt =====
-- The theorems on readers at concrete inputs.
use labcomm_core.Common.{refl, some, [], ◌∷◌, ◌++◌, arith, Yields}
use labcomm_core.Wire.{packed32, string}
use labcomm_core.Reader.{read_packed32, read_string}
use labcomm_core.Reader.Source.{At}
use labcomm_core.Reader.Packed.{read_packed32-packed32}
use labcomm_core.Reader.Strings.{read_string-string}
use labcomm_core.FdReader.{fd_fill}
use labcomm_core.FdReader.Fill.{Supplies, fd_fill-some}
use labcomm_core.Examples.{
  plenty, input, input_laws, in_action, source, reader, reader-IsReady, reader-At,
}

read_packed32-packed32_example :
    Yields 300
      (At source plenty (5 ∷ []))
      (read_packed32 in_action 5 (reader (packed32 300 ++ (5 ∷ []))))
read_packed32-packed32_example =
    read_packed32-packed32 source 5 300 (5 ∷ []) (reader (packed32 300 ++ (5 ∷ []))) (omega arith)
      (omega arith) (reader-At _)

read_string-string_example :
    Yields
      (some (97 ∷ 98 ∷ []))
      (At source plenty (5 ∷ []))
      (read_string in_action 5 (reader (string (97 ∷ 98 ∷ []) ++ (5 ∷ []))))
read_string-string_example =
    read_string-string source 5 (97 ∷ 98 ∷ []) (5 ∷ []) (reader (string (97 ∷ 98 ∷ []) ++ (5 ∷ [])))
      (omega arith) (omega arith) refl (reader-At _)

fd_fill-some_example :
    Supplies input input_laws (1 ∷ 2 ∷ []) plenty (fd_fill input (reader (1 ∷ 2 ∷ []))).0
fd_fill-some_example =
    fd_fill-some input input_laws (reader (1 ∷ 2 ∷ [])) 1 (2 ∷ []) (reader-IsReady _) (omega arith)
      refl
