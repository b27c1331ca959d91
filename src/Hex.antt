-- ===== src/Hex.antt =====
-- src/Hex.cpp and include/Programmer/Hex.hpp: the reader of Intel HEX files.
--
-- A file is the list of the lines that std::getline returns, a line the list of its character
-- codes. The image behind `ImageInterface` is a parameter. The members `_file` and `_image` are
-- arguments here; output to std::cout is left out. `_payload` is handed from `parse_line` to
-- `process_line`.
pub mod Record
pub mod Codec
pub mod Lines
pub mod Total
use programmer.Prelude.{
  ℕ, ◌+◌, ◌-◌, ◌*◌, ◌/◌, ◌%◌, ◌^◌, Bool, true, false, not, ◌&&◌, ◌||◌, Option, none, some, List, [],
  ◌∷◌, ◌++◌, length, take, drop, get_elem?, u8, u32, bit_or, ltb, leb, ◌==◌, if◌then◌else◌,
}
use programmer.Hex.Record.{
  rt_data, rt_eof, rt_ext_seg_addr, rt_start_seg_addr, rt_ext_addr, rt_start_addr, pos_byte_cnt,
  pos_addr_h, pos_type, pos_payload,
}
use programmer.Exceptions.{Result, ok, fault, Fault, ◌>>=◌, ◌>>◌, throw, throw_if}

-- The overload of `ImageInterface::process` for a block of data, on the state of an image.
pub record ImageInterface : Type 1 where
  pub State : Type 0
  pub process : State → ℕ → List ℕ → Result State

unfoldable pub hex_digit : ℕ → Option ℕ
hex_digit c =
    if leb b'0' c && leb c b'9'
    then some (c - b'0')
    else if leb b'a' c && leb c b'f'
    then some (c - b'a' + 10)
    else if leb b'A' c && leb c b'F'
    then some (c - b'A' + 10)
    else none

-- std::from_chars on two characters into a uint8_t, base 16. It stops at the first character that
-- is no digit, and fails only where that is the first of the two.
unfoldable pub from_chars : ℕ → ℕ → Option ℕ
from_chars c d = elim (hex_digit c) [
  | none ↦ none
  | some x ↦ elim (hex_digit d) [ none ↦ some x | some y ↦ some (x * 16 + y) ]
]

-- The loop of `parse_line`: the payload and the checksum so far. The characters come in pairs.
unfoldable pub parse_bytes : List ℕ → List ℕ → ℕ → Result (List ℕ × ℕ)
parse_bytes [] payload checksum = ok (payload, checksum)
parse_bytes (c ∷ []) payload checksum = fault Fault.out_of_bounds
parse_bytes (c ∷ d ∷ line) payload checksum = elim (from_chars c d) [
  | none ↦ throw "Invalid character in record."
  | some value ↦ parse_bytes line (payload ++ value ∷ []) (u8 (checksum + value))
]

abbrev pub min_length : ℕ
min_length = 5

-- `v[i]` of a std::vector.
unfoldable pub at : List ℕ → ℕ → Result ℕ
at xs i = elim (get_elem? xs i) [ none ↦ fault Fault.out_of_bounds | some x ↦ ok x ]

-- The two tests behind the loop.
unfoldable pub check_record : List ℕ → ℕ → Result (List ℕ)
check_record payload checksum = do
  throw_if (not (checksum == 0)) "Invalid line checksum."
  count ← at payload pos_byte_cnt
  throw_if (not (length payload == count + min_length)) "Invalid record size."
  ok payload

unfoldable pub parse_line : List ℕ → Result (List ℕ)
parse_line line = do
  throw_if ((length line % 2 == 1) || ltb (length line / 2) min_length) "Invalid line length."
  (payload, checksum) ← parse_bytes line [] 0
  check_record payload checksum

-- A span over `count` elements from `start` on.
unfoldable pub span : List ℕ → ℕ → ℕ → Result (List ℕ)
span xs start count =
    if leb (start + count) (length xs)
    then ok (take count (drop start xs))
    else fault Fault.out_of_bounds

module _ (image : ImageInterface) where
  open image use {State, process}

  pub record Hex : Type 0 where
    pub start_address : ℕ
    pub segment_address : ℕ
    pub state : State

  unfoldable pub check_size : List ℕ → ℕ → Result (Unit {0})
  check_size payload x = do
    count ← at payload pos_byte_cnt
    throw_if (not (count == x)) "Invalid record byte count."

  -- Two bytes, the high one first.
  unfoldable pub word : List ℕ → ℕ → Result ℕ
  word payload i = do high ← at payload i; low ← at payload (i + 1); ok (bit_or (high * 2 ^ 8) low)

  unfoldable pub process_data : Hex → List ℕ → Result (Hex × Bool)
  process_data h payload = do
    address ← word payload pos_addr_h
    count ← at payload pos_byte_cnt
    bytes ← span payload pos_payload count
    state ← process h.state (u32 (h.segment_address + address)) bytes
    ok (record h { state = state }, false)

  unfoldable pub process_ext_seg_addr : Hex → List ℕ → Result (Hex × Bool)
  process_ext_seg_addr h payload = do
    check_size payload 2
    segment ← word payload pos_payload
    ok (record h { segment_address = segment * 16 }, false)

  unfoldable pub process_start_seg_addr : Hex → List ℕ → Result (Hex × Bool)
  process_start_seg_addr h payload = do
    check_size payload 4
    segment ← word payload pos_payload
    offset ← word payload (pos_payload + 2)
    ok (record h { start_address = segment * 16 + offset }, false)

  unfoldable pub process_ext_addr : Hex → List ℕ → Result (Hex × Bool)
  process_ext_addr h payload = do
    check_size payload 2
    high ← at payload pos_payload
    low ← at payload (pos_payload + 1)
    ok (record h { segment_address = bit_or (high * 2 ^ 24) (low * 2 ^ 16) }, false)

  unfoldable pub process_start_addr : Hex → List ℕ → Result (Hex × Bool)
  process_start_addr h payload = do
    check_size payload 4
    a ← at payload pos_payload
    b ← at payload (pos_payload + 1)
    c ← at payload (pos_payload + 2)
    d ← at payload (pos_payload + 3)
    ok (
      record h { start_address = bit_or (bit_or (bit_or (a * 2 ^ 24) (b * 2 ^ 16)) (c * 2 ^ 8)) d },
      false,
    )

  unfoldable pub process_eof : Hex → List ℕ → Result (Hex × Bool)
  process_eof h payload = do check_size payload 0; ok (h, true)

  -- The switch over the record type; the result tells whether the file has ended.
  unfoldable pub process_record : Hex → List ℕ → ℕ → Result (Hex × Bool)
  process_record h payload type =
      if type == rt_data
      then process_data h payload
      else if type == rt_eof
      then process_eof h payload
      else if type == rt_ext_seg_addr
      then process_ext_seg_addr h payload
      else if type == rt_start_seg_addr
      then process_start_seg_addr h payload
      else if type == rt_ext_addr
      then process_ext_addr h payload
      else if type == rt_start_addr
      then process_start_addr h payload
      else throw "Unknown recod type."

  unfoldable pub process_line : Hex → List ℕ → Result (Hex × Bool)
  process_line h payload = do type ← at payload pos_type; process_record h payload type

-- `line.find(':')` and `substr(start + 1)`.
unfoldable pub after_colon : List ℕ → Option (List ℕ)
after_colon [] = none
after_colon (c ∷ line) = if c == b':' then some line else after_colon line

module _ (image : ImageInterface) where
  open image use {State}

  unfoldable pub read_file : List (List ℕ) → Hex image → Result (Hex image)
  read_file [] h = throw "Unexcepted end of file."
  read_file (line ∷ lines) h = elim (after_colon line) [
    | none ↦ read_file lines h
    | some rest ↦ parse_line rest >>= λ payload. process_line image h payload >>= λ (h', done).
        elim done [ true ↦ ok h' | false ↦ read_file lines h' ]
  ]

  -- `none` is a file that cannot be opened.
  unfoldable pub read : Option (List (List ℕ)) → State → Result State
  read none s = throw "File open error."
  read (some lines) s =
      read_file lines (record { start_address = 0; segment_address = 0; state = s }) >>= λ h.
      ok h.state
