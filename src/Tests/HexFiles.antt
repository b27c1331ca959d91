-- ===== src/Tests/HexFiles.antt =====
-- HEX lines and files.
use programmer.Prelude.{ℕ, ◌≡◌, some, refl, List, [], ◌∷◌, arith}
use programmer.Exceptions.{IsDefined, ok}
use programmer.Image.{Section}
use programmer.Pipeline.{image, hex_image}
use programmer.Pipeline.Blocks.{Programs}
use programmer.Pipeline.Files.{blocks, read-Programs, hex_image-IsDefined}
use programmer.Hex.{Hex, parse_line, read_file}
use programmer.Hex.Codec.{
  print_bytes, sum, IsRecord, parse_line-print_bytes, parse_line-IsRecord, parse_line_single_error,
}
use programmer.Hex.Lines.{
  bytes_at, upper_is, Entry, end_line, print_records, obey_all, read_file-end_line,
}

abbrev start : Hex image
start = record { start_address = 0; segment_address = 0; state = [] }

-- The record of no bytes at 0: 00 0000 01 FF.
end_bytes : parse_line (print_bytes (0 ∷ 0 ∷ 0 ∷ 1 ∷ 255 ∷ [])) ≡ ok (0 ∷ 0 ∷ 0 ∷ 1 ∷ 255 ∷ [])
end_bytes = parse_line-print_bytes 0 (0 ∷ 0 ∷ 1 ∷ 255 ∷ []) (omega arith) (unfold sum in refl) refl

parse_line-print_bytes_example :
    parse_line (print_bytes (1 ∷ 0 ∷ 16 ∷ 0 ∷ 10 ∷ 229 ∷ [])) ≡ ok (1 ∷ 0 ∷ 16 ∷ 0 ∷ 10 ∷ 229 ∷ [])
parse_line-print_bytes_example =
    parse_line-print_bytes 1 (0 ∷ 16 ∷ 0 ∷ 10 ∷ 229 ∷ []) (omega arith) (unfold sum in refl) refl

parse_line-IsRecord_example :
    IsRecord (print_bytes (0 ∷ 0 ∷ 0 ∷ 1 ∷ 255 ∷ [])) (0 ∷ 0 ∷ 0 ∷ 1 ∷ 255 ∷ [])
parse_line-IsRecord_example =
    parse_line-IsRecord (print_bytes (0 ∷ 0 ∷ 0 ∷ 1 ∷ 255 ∷ [])) (0 ∷ 0 ∷ 0 ∷ 1 ∷ 255 ∷ [])
      end_bytes

parse_line_single_error_example : ◌≡◌ {A = ℕ} 255 255
parse_line_single_error_example =
    parse_line_single_error (print_bytes (0 ∷ 0 ∷ 0 ∷ 1 ∷ 255 ∷ []))
      (print_bytes (0 ∷ 0 ∷ 0 ∷ 1 ∷ 255 ∷ [])) (0 ∷ 0 ∷ 0 ∷ 1 ∷ []) [] 255 255 end_bytes end_bytes

abbrev entries : List Entry
entries =
    record { comments = (b'#' ∷ []) ∷ []; entry = upper_is 1 }
    ∷ record { comments = []; entry = bytes_at 16 (10 ∷ 11 ∷ []) }
    ∷ []

read_file-end_line_example :
    read_file image (print_records entries (end_line ∷ [])) start
    ≡ obey_all image start (upper_is 1 ∷ bytes_at 16 (10 ∷ 11 ∷ []) ∷ [])
read_file-end_line_example = read_file-end_line image entries [] start (omega arith)

abbrev blocks_of_entries : List Section
blocks_of_entries = record { address = 65552; bytes = 10 ∷ 11 ∷ [] } ∷ []

read-Programs_example :
    Programs [] blocks_of_entries (hex_image (some (print_records entries (end_line ∷ []))))
unfolding blocks
read-Programs_example =
    read-Programs [] entries [] (record { address = 65552; bytes = 10 ∷ 11 ∷ [] }) [] (omega arith)
      refl (omega arith, tt) (tt, tt)

-- A data record whose checksum is right and that counts nine bytes and holds none.
hex_image-IsDefined_example :
    IsDefined (hex_image (some ((b':' ∷ print_bytes (9 ∷ 0 ∷ 0 ∷ 0 ∷ 247 ∷ [])) ∷ [])))
hex_image-IsDefined_example =
    hex_image-IsDefined (some ((b':' ∷ print_bytes (9 ∷ 0 ∷ 0 ∷ 0 ∷ 247 ∷ [])) ∷ []))
