-- ===== src/Hex/Lines.antt =====
-- Whole files: records, the lines that stand for them, and what `read_file` makes of the lines.
use mathlib.Core.Path.{fun_ext}
use programmer.Prelude.{
  ℕ, ◌+◌, ◌-◌, ◌*◌, ◌/◌, ◌%◌, ◌^◌, ◌<◌, ◌≡◌, refl, sym, ◌∙◌, ap, ◌≢◌, false, none, List, [], ◌∷◌,
  ◌++◌, map, All, length, length-append, take-append, IsByte, u32, bit_or, bit_or_byte, bit_or_24,
  arith,
}
use programmer.Exceptions.{Result, ok, ◌>>=◌, >>=_assoc, >>=-ok, throw}
use programmer.Hex.{
  ImageInterface, Hex, parse_line, at, span, word, check_size, process_line, process_record,
  process_data, process_ext_addr, process_ext_seg_addr, process_eof, after_colon, read_file,
}
use programmer.Hex.Codec.{print_bytes, sum, sum-append, parse_line-print_bytes}

-- The records of a file that say where code goes.
pub data Record : Type 0 where
  bytes_at : ℕ → List ℕ → Record
  segment_is upper_is : ℕ → Record

-- Byte count, address, type and payload; the checksum follows.
unfoldable pub body : Record → List ℕ
body (bytes_at address bs) = length bs ∷ address / 256 ∷ address % 256 ∷ 0 ∷ bs
body (segment_is segment) = 2 ∷ 0 ∷ 0 ∷ 2 ∷ segment / 256 ∷ segment % 256 ∷ []
body (upper_is upper) = 2 ∷ 0 ∷ 0 ∷ 4 ∷ upper / 256 ∷ upper % 256 ∷ []

-- The checksum makes the sum 0 modulo 256.
abbrev pub checksum : List ℕ → ℕ
checksum bs = (256 - sum bs % 256) % 256

unfoldable pub line_of : List ℕ → List ℕ
line_of bs = b':' ∷ print_bytes (bs ++ checksum bs ∷ [])

abbrev pub end_line : List ℕ
end_line = line_of (0 ∷ 0 ∷ 0 ∷ 1 ∷ [])

abbrev pub IsValid : Record → Type 0
IsValid (bytes_at address bs) = (address < 65536) × (length bs < 256) × All IsByte bs
IsValid (segment_is segment) = segment < 65536
IsValid (upper_is upper) = upper < 65536

module _ (image : ImageInterface) where
  open image use {State, process}

  -- What a record asks for.
  unfoldable pub obey : Hex image → Record → Result (Hex image)
  obey h (bytes_at address bs) =
      process h.state (u32 (h.segment_address + address)) bs >>= λ s. ok (record h { state = s })
  obey h (segment_is segment) = ok (record h { segment_address = segment * 16 })
  obey h (upper_is upper) = ok (record h { segment_address = upper * 2 ^ 16 })

  unfoldable pub obey_all : Hex image → List Record → Result (Hex image)
  obey_all h [] = ok h
  obey_all h (r ∷ rs) = obey h r >>= λ h'. obey_all h' rs

sum-checksum : (bs : List ℕ) → sum (bs ++ checksum bs ∷ []) % 256 ≡ 0
unfolding sum
sum-checksum bs = omega (arith, sum-append bs (checksum bs ∷ []))

All-append : (xs ys : List ℕ) → All IsByte xs → All IsByte ys → All IsByte (xs ++ ys)
All-append [] ys h k = k
All-append (x ∷ xs) ys h k = (h.0, All-append xs ys h.1 k)

-- The line of a record is read back.
parse_line-line_of :
    (count : ℕ) (bs : List ℕ)
    → All IsByte (count ∷ bs)
    → length bs ≡ count + 3
    → parse_line (print_bytes (count ∷ (bs ++ checksum (count ∷ bs) ∷ [])))
      ≡ ok (count ∷ (bs ++ checksum (count ∷ bs) ∷ []))
parse_line-line_of count bs h k =
    parse_line-print_bytes count (bs ++ checksum (count ∷ bs) ∷ [])
      (h.0, All-append bs (checksum (count ∷ bs) ∷ []) h.1 (omega arith))
      (sum-checksum (count ∷ bs)) (omega (arith, length-append bs (checksum (count ∷ bs) ∷ [])))

span-body :
    (p q r s c : ℕ) (bs : List ℕ) → span (p ∷ q ∷ r ∷ s ∷ (bs ++ c ∷ [])) 4 (length bs) ≡ ok bs
unfolding span
span-body p q r s c bs = ground (arith, length-append bs (c ∷ []), take-append bs (c ∷ []))

-- Two bytes of a number, put together again.
bytes_of : (n : ℕ) → n < 65536 → bit_or (n / 256 * 256) (n % 256) ≡ n
bytes_of n h = omega (arith, bit_or_byte (n / 256) (n % 256) (omega arith))

module _ (image : ImageInterface) where
  open image use {State, process}

  process_data-bytes :
      (h : Hex image) (address : ℕ) (bs : List ℕ) (c : ℕ)
      → address < 65536
      → process_data image h (length bs ∷ address / 256 ∷ address % 256 ∷ 0 ∷ (bs ++ c ∷ []))
        ≡ (obey image h (bytes_at address bs) >>= λ h'. ok (h', false))
  unfolding process_data word at span obey
  process_data-bytes h address bs c low =
      rw (span-body, bytes_of address low)
        (sym (>>=_assoc (process h.state (u32 (h.segment_address + address)) bs) _ _))

  process_line-body :
      (h : Hex image) (r : Record) (c : ℕ)
      → IsValid r
      → process_line image h (body r ++ c ∷ []) ≡ (obey image h r >>= λ h'. ok (h', false))
  unfolding process_line process_record body at
  process_line-body h (bytes_at address bs) c v = process_data-bytes h address bs c v.0
  process_line-body h (segment_is segment) c v =
      unfold process_ext_seg_addr check_size word obey in rw (bytes_of segment v)
  process_line-body h (upper_is upper) c v =
      unfold process_ext_addr check_size obey in
      rw (bit_or_24 (upper / 256) (upper % 256 * 2 ^ 16) (omega arith))
        (ap (λ (i : ℕ). ok (record h { segment_address = i }, false)) (omega arith))

parse_line-body :
    (r : Record)
    → IsValid r
    → parse_line (print_bytes (body r ++ checksum (body r) ∷ []))
      ≡ ok (body r ++ checksum (body r) ∷ [])
unfolding body
parse_line-body (bytes_at address bs) v =
    parse_line-line_of (length bs) (address / 256 ∷ address % 256 ∷ 0 ∷ bs)
      (v.1, (omega arith, (omega arith, (omega arith, v.2)))) (omega arith)
parse_line-body (segment_is segment) v =
    parse_line-line_of 2 (0 ∷ 0 ∷ 2 ∷ segment / 256 ∷ segment % 256 ∷ []) (omega arith) refl
parse_line-body (upper_is upper) v =
    parse_line-line_of 2 (0 ∷ 0 ∷ 4 ∷ upper / 256 ∷ upper % 256 ∷ []) (omega arith) refl

-- A line of a comment, which has no colon.
abbrev pub IsComment : List ℕ → Type 0
IsComment = All λ c. c ≢ b':'

after_colon-IsComment : (line : List ℕ) → IsComment line → after_colon line ≡ none
unfolding after_colon
after_colon-IsComment [] h = refl
after_colon-IsComment (c ∷ line) h = ground (arith, after_colon-IsComment line h.1)

-- The lines of records, each behind lines of comment, in front of further lines.
pub record Entry : Type 0 where
  pub comments : List (List ℕ)
  pub entry : Record

abbrev pub IsProper : Entry → Type 0
IsProper e = All IsComment e.comments × IsValid e.entry

unfoldable pub print_records : List Entry → List (List ℕ) → List (List ℕ)
print_records [] ls = ls
print_records (e ∷ es) ls = e.comments ++ (line_of (body e.entry) ∷ print_records es ls)

module _ (image : ImageInterface) where
  read_file-comments :
      (cs ls : List (List ℕ)) (h : Hex image)
      → All IsComment cs
      → read_file image (cs ++ ls) h ≡ read_file image ls h
  unfolding read_file
  read_file-comments [] ls h q = refl
  read_file-comments (c ∷ cs) ls h q =
      rw (after_colon-IsComment c q.0, read_file) (read_file-comments cs ls h q.1)

  read_file-line_of :
      (r : Record) (ls : List (List ℕ)) (h : Hex image)
      → IsValid r
      → read_file image (line_of (body r) ∷ ls) h ≡ (obey image h r >>= λ h'. read_file image ls h')
  unfolding read_file line_of after_colon
  read_file-line_of r ls h v =
      rw (parse_line-body r v, process_line-body image h r (checksum (body r)) v)
        (>>=_assoc (obey image h r) _ _)

  read_file_end : (ls : List (List ℕ)) (h : Hex image) → read_file image (end_line ∷ ls) h ≡ ok h
  unfolding read_file line_of after_colon
  read_file_end ls h =
      rw (parse_line-line_of 0 (0 ∷ 0 ∷ 1 ∷ []) (omega arith) refl)
        (unfold process_line process_record process_eof check_size at in refl)

  read_file-print_records :
      (es : List Entry) (ls : List (List ℕ)) (h : Hex image)
      → All IsProper es
      → read_file image (print_records es ls) h
        ≡ (obey_all image h (map (λ e. e.entry) es) >>= λ h'. read_file image ls h')
  unfolding print_records obey_all
  read_file-print_records [] ls h q = refl
  read_file-print_records (e ∷ es) ls h q =
      read_file-comments e.comments _ h q.0.0
      ∙ read_file-line_of e.entry (print_records es ls) h q.0.1
      ∙ ap (◌>>=◌ (obey image h e.entry)) (fun_ext λ h'. read_file-print_records es ls h' q.1)
      ∙ sym (>>=_assoc (obey image h e.entry) _ _)

  -- A file printed from records is read as they say: `read_file` obeys the records in turn, up to
  -- the end record, and returns what that comes to, an exception of the image included. Lines
  -- without a colon and what follows the end record make no difference.
  pub read_file-end_line :
      (es : List Entry) (rest : List (List ℕ)) (h : Hex image)
      → All IsProper es
      → read_file image (print_records es (end_line ∷ rest)) h
        ≡ obey_all image h (map (λ e. e.entry) es)
  read_file-end_line es rest h q =
      read_file-print_records es (end_line ∷ rest) h q
      ∙ ap (◌>>=◌ (obey_all image h (map (λ e. e.entry) es))) (fun_ext λ h'. read_file_end rest h')
      ∙ >>=-ok (obey_all image h (map (λ e. e.entry) es))

  -- A file with no end record is refused, whatever its records are, once the image took them.
  pub read_file_truncated :
      (es : List Entry) (h : Hex image)
      → All IsProper es
      → read_file image (print_records es []) h
        ≡ (obey_all image h (map (λ e. e.entry) es) >>= λ h'. throw "Unexcepted end of file.")
  unfolding read_file
  read_file_truncated es h q = read_file-print_records es [] h q
