-- ===== src/Hex/Total.antt =====
-- The reader of src/Hex.cpp on any file, whatever stands in it.
use programmer.Prelude.{
  zero, suc, bit_or, take, drop, u32, ◌^◌, subst, sym, not, ℕ, ◌+◌, ◌*◌, ◌/◌, ◌%◌, ◌≤◌, ◌<◌, ◌≡◌,
  refl, Bool, true, false, ◌||◌, Option, none, some, Option-cases, Bool-cases, inl, inr, List, [],
  ◌∷◌, ◌++◌, length, arith, ltb, ◌==◌, u8,
}
use programmer.Exceptions.{
  Result, ok, throw_if, IsDefined, >>=-IsDefined, value-IsDefined, if-IsDefined, throw_if-IsDefined,
  ◌>>=◌, ◌>>◌,
}
use programmer.Hex.{
  ImageInterface, Hex, from_chars, parse_bytes, parse_line, check_record, at, span, check_size,
  word, process_data, process_ext_seg_addr, process_start_seg_addr, process_ext_addr,
  process_start_addr, process_eof, process_record, process_line, after_colon, read_file, read,
  min_length,
}
use programmer.Hex.Codec.{parse_bytes_bad, parse_bytes_pair, parse_bytes-Reads, parse_line-IsRecord}

parse_bytes-IsDefined :
    (line payload : List ℕ) (checksum : ℕ)
    → length line % 2 ≡ 0
    → IsDefined (parse_bytes line payload checksum)
unfolding parse_bytes
parse_bytes-IsDefined [] payload checksum e = tt
parse_bytes-IsDefined (c ∷ []) payload checksum e = absurd (omega (arith, e))
parse_bytes-IsDefined (c ∷ d ∷ line) payload checksum e = elim (Option-cases (from_chars c d)) [
  | inl h ↦ subst IsDefined (sym (parse_bytes_bad c d line payload checksum h)) tt
  | inr (b, h) ↦
      subst IsDefined (sym (parse_bytes_pair c d b line payload checksum h))
        (parse_bytes-IsDefined line (payload ++ b ∷ []) (u8 (checksum + b)) (omega (arith, e)))
]

continued :
    {A : Type 0} (done : Bool) (r s : Result A)
    → IsDefined r
    → IsDefined s
    → IsDefined (elim done [ true ↦ r | false ↦ s ])
continued true r s d e = d
continued false r s d e = e

at-value : (xs : List ℕ) (i : ℕ) → i < length xs → (x : ℕ) × (at xs i ≡ ok x)
unfolding at
at-value [] i l = absurd (omega (arith, l))
at-value (x ∷ xs) zero l = (x, refl)
at-value (x ∷ xs) (suc i) l = at-value xs i (omega (arith, l))

check_record-IsDefined :
    (payload : List ℕ) (checksum : ℕ)
    → 0 < length payload
    → IsDefined (check_record payload checksum)
unfolding check_record at
check_record-IsDefined [] checksum l = absurd (omega (arith, l))
check_record-IsDefined (count ∷ rest) checksum l =
    throw_if-IsDefined (not (checksum == 0)) "Invalid line checksum."
      (throw_if (not (length (count ∷ rest) == count + min_length)) "Invalid record size."
        >> ok (count ∷ rest))
      λ z.
        throw_if-IsDefined (not (length (count ∷ rest) == count + min_length))
          "Invalid record size." (ok (count ∷ rest)) λ e. tt

parse_line-IsDefined : (line : List ℕ) → IsDefined (parse_line line)
unfolding parse_line
parse_line-IsDefined line =
    let read : List ℕ × ℕ → Result (List ℕ) = λ r. check_record r.0 r.1 in
    throw_if-IsDefined ((length line % 2 == 1) || ltb (length line / 2) min_length)
      "Invalid line length." (parse_bytes line [] 0 >>= read)
      λ e.
        >>=-IsDefined (parse_bytes line [] 0) read
          (parse_bytes-IsDefined line [] 0 (ground (arith, e)))
          λ r h.
            let reads = parse_bytes-Reads line [] 0 r.0 r.1 h in
            check_record-IsDefined r.0 r.1 (ground (arith, e, reads.joined, reads.pairs))

span-value :
    (xs : List ℕ) (start count : ℕ)
    → start + count ≤ length xs
    → (ys : List ℕ) × (span xs start count ≡ ok ys)
unfolding span
span-value xs start count l = (take count (drop start xs), ground (arith, l))

module _ (image : ImageInterface)
    (safe : (s : image.State) (address : ℕ) (bytes : List ℕ)
      → IsDefined (image.process s address bytes)) where
  word-value : (xs : List ℕ) (i : ℕ) → i + 1 < length xs → (x : ℕ) × (word image xs i ≡ ok x)
  unfolding word
  word-value xs i l =
      let (high, e) = at-value xs i (omega (arith, l)) in
      let (low, f) = at-value xs (i + 1) l in (bit_or (high * 2 ^ 8) low, rw (e, f) refl)

  -- The payload of a record.
  module _ (h : Hex image) (count : ℕ) (rest : List ℕ) (size : length rest ≡ count + 4) where
    abbrev payload : List ℕ
    payload = count ∷ rest

    check_size-IsDefined {ℓ} :
        {B : Type ℓ} (x : ℕ) (next : Result B)
        → (length payload ≡ x + 5 → IsDefined next)
        → IsDefined (check_size image payload x >> next)
    unfolding check_size at
    check_size-IsDefined x next d = elim (Bool-cases (count == x)) [
      | inl e ↦ rw e (d (ground (arith, e, size)))
      | inr e ↦ rw e tt
    ]

    process_data-IsDefined : IsDefined (process_data image h payload)
    unfolding process_data at span
    process_data-IsDefined =
        value-IsDefined (word image payload 1) _ (word-value payload 1 (omega (arith, size)))
          λ address.
            value-IsDefined (span payload 4 count) _
              (span-value payload 4 count (omega (arith, size)))
              λ bytes.
                >>=-IsDefined (image.process h.state (u32 (h.segment_address + address)) bytes) _
                  (safe h.state (u32 (h.segment_address + address)) bytes) λ state e. tt

    process_ext_seg_addr-IsDefined : IsDefined (process_ext_seg_addr image h payload)
    unfolding process_ext_seg_addr
    process_ext_seg_addr-IsDefined = check_size-IsDefined 2 _ λ l.
        value-IsDefined (word image payload 4) _ (word-value payload 4 (omega (arith, l)))
          λ segment. tt

    process_start_seg_addr-IsDefined : IsDefined (process_start_seg_addr image h payload)
    unfolding process_start_seg_addr
    process_start_seg_addr-IsDefined = check_size-IsDefined 4 _ λ l.
        value-IsDefined (word image payload 4) _ (word-value payload 4 (omega (arith, l)))
          λ segment.
            value-IsDefined (word image payload 6) _ (word-value payload 6 (omega (arith, l)))
              λ offset. tt

    process_ext_addr-IsDefined : IsDefined (process_ext_addr image h payload)
    unfolding process_ext_addr
    process_ext_addr-IsDefined = check_size-IsDefined 2 _ λ l.
        value-IsDefined (at payload 4) _ (at-value payload 4 (omega (arith, l)))
          λ high. value-IsDefined (at payload 5) _ (at-value payload 5 (omega (arith, l))) λ low. tt

    process_start_addr-IsDefined : IsDefined (process_start_addr image h payload)
    unfolding process_start_addr
    process_start_addr-IsDefined = check_size-IsDefined 4 _ λ l.
        value-IsDefined (at payload 4) _ (at-value payload 4 (omega (arith, l))) λ a.
          value-IsDefined (at payload 5) _ (at-value payload 5 (omega (arith, l))) λ b.
            value-IsDefined (at payload 6) _ (at-value payload 6 (omega (arith, l)))
              λ c. value-IsDefined (at payload 7) _ (at-value payload 7 (omega (arith, l))) λ d. tt

    process_eof-IsDefined : IsDefined (process_eof image h payload)
    unfolding process_eof
    process_eof-IsDefined = check_size-IsDefined 0 _ λ l. tt

    process_line-IsDefined : IsDefined (process_line image h payload)
    unfolding process_line process_record
    process_line-IsDefined =
        value-IsDefined (at payload 3) _ (at-value payload 3 (omega (arith, size))) λ type.
          if-IsDefined (type == 0) _ _ process_data-IsDefined (
            if-IsDefined (type == 1) _ _ process_eof-IsDefined (
              if-IsDefined (type == 2) _ _ process_ext_seg_addr-IsDefined (
                if-IsDefined (type == 3) _ _ process_start_seg_addr-IsDefined (
                  if-IsDefined (type == 4) _ _ process_ext_addr-IsDefined
                    (if-IsDefined (type == 5) _ _ process_start_addr-IsDefined tt)))))

  -- A line with no colon, and one with a record.
  read_file_skips :
      (line : List ℕ) (lines : List (List ℕ)) (h : Hex image)
      → after_colon line ≡ none
      → read_file image (line ∷ lines) h ≡ read_file image lines h
  unfolding read_file
  read_file_skips line lines h e = rw (e, read_file)

  read_file_record :
      (line rest : List ℕ) (lines : List (List ℕ)) (h : Hex image)
      → after_colon line ≡ some rest
      → read_file image (line ∷ lines) h ≡ (
          parse_line rest >>= λ payload. process_line image h payload >>= λ (h', done). elim done [
            | true ↦ ok h'
            | false ↦ read_file image lines h'
          ])
  unfolding read_file
  read_file_record line rest lines h e = rw (e, read_file)

  read_file-IsDefined :
      (lines : List (List ℕ)) (h : Hex image) → IsDefined (read_file image lines h)
  unfolding read_file
  read_file-IsDefined [] h = tt
  read_file-IsDefined (line ∷ lines) h = elim (Option-cases (after_colon line)) [
    | inl e ↦ subst IsDefined (sym (read_file_skips line lines h e)) (read_file-IsDefined lines h)
    | inr (rest, e) ↦ subst IsDefined (sym (read_file_record line rest lines h e)) (
        >>=-IsDefined (parse_line rest) _ (parse_line-IsDefined rest) λ payload q.
          let r = parse_line-IsRecord rest payload q in
          >>=-IsDefined (process_line image h payload) _
            (subst (λ p. IsDefined (process_line image h p)) (sym r.split)
              (process_line-IsDefined h r.count r.rest r.size))
            λ r e.
              continued r.1 (ok r.0) (read_file image lines r.0) tt (read_file-IsDefined lines r.0))
  ]

  -- Reading a file never has undefined behaviour, whatever its lines hold: `read` returns an image or
  -- throws, and each access to a record is inside it. The image is one whose `process` has none
  -- either.
  pub read-IsDefined :
      (file : Option (List (List ℕ))) (s : image.State) → IsDefined (read image file s)
  unfolding read
  read-IsDefined none s = tt
  read-IsDefined (some lines) s =
      >>=-IsDefined (read_file image lines _) _ (read_file-IsDefined lines _) λ h e. tt
