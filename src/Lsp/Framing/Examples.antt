-- ===== src/Lsp/Framing/Examples.antt =====
-- A message in two chunks, and the theorems at it.
use mathlib.Core.List.{foldl, flatten}
use tflw_tests.Prelude.{
  ◌≡◌, refl, List, [], ◌∷◌, ◌++◌, codes, starts_with, decimal, read_digits, read_decimal,
}
use tflw_tests.Lsp.Framing.{
  Bytes, blank_line, index_of, length_here, content_length, next, scanned, scan, on_data, send,
}
use tflw_tests.Lsp.Framing.Chunks.{on_data-flatten}
use tflw_tests.Lsp.Framing.Delivery.{on_data-send}

abbrev body : Bytes
body = codes "{}"

abbrev two_chunks : List Bytes
two_chunks = codes "Content-Le" ∷ (codes "ngth: 2" ++ (blank_line ++ codes "{}")) ∷ []

on_data-two_chunks : foldl on_data (scanned [] []) two_chunks ≡ scanned (body ∷ []) []
unfolding on_data scan next index_of content_length length_here starts_with read_decimal read_digits
on_data-two_chunks = refl

on_data-flatten_example : foldl on_data (scanned [] []) two_chunks ≡ scan (flatten two_chunks)
on_data-flatten_example = on_data-flatten two_chunks

on_data-send_example : foldl on_data (scanned [] []) two_chunks ≡ scanned (body ∷ []) []
unfolding flatten send decimal
on_data-send_example = on_data-send (body ∷ []) two_chunks refl
