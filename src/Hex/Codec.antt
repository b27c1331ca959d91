-- ===== src/Hex/Codec.antt =====
-- The bytes of a line: printed in hexadecimal, and what `parse_line` accepts.
use mathlib.Core.List.{append-nil, append_assoc}
use programmer.Prelude.{
  ℕ, ◌+◌, ◌-◌, ◌*◌, ◌/◌, ◌%◌, ◌<◌, ◌≡◌, refl, sym, ◌∙◌, subst, none, some, List, [], ◌∷◌, ◌++◌, All,
  length, IsByte, arith, ltb, if◌then◌else◌, Option-cases, inl, inr,
}
use programmer.Exceptions.{Thrown, Fault, Result-cases, ok, throws, fault, throw}
use programmer.Hex.{hex_digit, from_chars, parse_bytes, parse_line, check_record, at}

unfoldable pub hex_char : ℕ → ℕ
hex_char v = if ltb v 10 then b'0' + v else b'A' + (v - 10)

-- Two digits for each byte.
unfoldable pub print_bytes : List ℕ → List ℕ
print_bytes [] = []
print_bytes (b ∷ bs) = hex_char (b / 16) ∷ hex_char (b % 16) ∷ print_bytes bs

unfoldable pub sum : List ℕ → ℕ
sum [] = 0
sum (x ∷ xs) = x + sum xs

pub sum-append : (xs ys : List ℕ) → sum (xs ++ ys) ≡ sum xs + sum ys
unfolding sum
sum-append [] ys = omega arith
sum-append (x ∷ xs) ys = omega (arith, sum-append xs ys)

hex_digit-hex_char : (v : ℕ) → v < 16 → hex_digit (hex_char v) ≡ some v
unfolding hex_digit hex_char
hex_digit-hex_char v h = ground arith

from_chars-print : (b : ℕ) → IsByte b → from_chars (hex_char (b / 16)) (hex_char (b % 16)) ≡ some b
unfolding from_chars
from_chars-print b h = ground (arith, hex_digit-hex_char (b / 16), hex_digit-hex_char (b % 16))

hex_digit-lt : (c x : ℕ) → hex_digit c ≡ some x → x < 16
unfolding hex_digit
hex_digit-lt c x h = ground arith

from_chars-IsByte : (c d b : ℕ) → from_chars c d ≡ some b → IsByte b
unfolding from_chars
from_chars-IsByte c d b h = elim (Option-cases (hex_digit c)) [
  | inl e ↦ ground (arith, e)
  | inr (x, e) ↦ elim (Option-cases (hex_digit d)) [
    | inl e' ↦ ground (arith, e, e', hex_digit-lt c x)
    | inr (y, e') ↦ ground (arith, e, e', hex_digit-lt c x, hex_digit-lt d y)
  ]
]

pub parse_bytes_pair :
    (c d b : ℕ) (line acc : List ℕ) (s : ℕ)
    → from_chars c d ≡ some b
    → parse_bytes (c ∷ d ∷ line) acc s ≡ parse_bytes line (acc ++ b ∷ []) ((s + b) % 256)
unfolding parse_bytes
parse_bytes_pair c d b line acc s e = rw (e, parse_bytes)

pub parse_bytes_bad :
    (c d : ℕ) (line acc : List ℕ) (s : ℕ)
    → from_chars c d ≡ none
    → parse_bytes (c ∷ d ∷ line) acc s ≡ throw "Invalid character in record."
unfolding parse_bytes
parse_bytes_bad c d line acc s e = rw (e, parse_bytes)

pub parse_bytes-print :
    (bs acc : List ℕ) (s : ℕ)
    → All IsByte bs
    → s < 256
    → parse_bytes (print_bytes bs) acc s ≡ ok (acc ++ bs, (s + sum bs) % 256)
unfolding parse_bytes print_bytes sum
parse_bytes-print [] acc s h k = ground (arith, append-nil acc)
parse_bytes-print (b ∷ bs) acc s h k =
    parse_bytes_pair _ _ b (print_bytes bs) acc s (from_chars-print b h.0)
    ∙ (parse_bytes-print bs (acc ++ b ∷ []) ((s + b) % 256) h.1 (omega arith)
        ∙ ground (arith, append_assoc acc (b ∷ []) bs))

length-print_bytes : (bs : List ℕ) → length (print_bytes bs) ≡ 2 * length bs
unfolding print_bytes
length-print_bytes [] = refl
length-print_bytes (b ∷ bs) = omega (arith, length-print_bytes bs)

-- A record prints to a line that is read back: its bytes are bytes, their sum is 0 modulo 256 and
-- the first of them counts all but five.
pub parse_line-print_bytes :
    (count : ℕ) (bs : List ℕ)
    → All IsByte (count ∷ bs)
    → sum (count ∷ bs) % 256 ≡ 0
    → length bs ≡ count + 4
    → parse_line (print_bytes (count ∷ bs)) ≡ ok (count ∷ bs)
unfolding parse_line check_record at
parse_line-print_bytes count bs h k e =
    rw (parse_bytes-print (count ∷ bs) [] 0 h (omega arith))
      (ground (arith, length-print_bytes (count ∷ bs)))

-- What the loop has read when it ends.
pub record Reads (line acc : List ℕ) (s : ℕ) (payload : List ℕ) (checksum : ℕ) : Type 0 where
  pub bs : List ℕ
  pub joined : payload ≡ acc ++ bs
  pub bytes : All IsByte bs
  pub total : checksum % 256 ≡ (s + sum bs) % 256
  pub pairs : length line ≡ 2 * length bs

pub parse_bytes-Reads :
    (line acc : List ℕ) (s : ℕ) (payload : List ℕ) (checksum : ℕ)
    → parse_bytes line acc s ≡ ok (payload, checksum)
    → Reads line acc s payload checksum
unfolding parse_bytes sum
parse_bytes-Reads [] acc s payload checksum h = record {
  bs = [];
  joined = ground (arith, append-nil acc);
  bytes = tt;
  total = ground arith;
  pairs = refl;
}
parse_bytes-Reads (c ∷ []) acc s payload checksum h = cc
parse_bytes-Reads (c ∷ d ∷ line) acc s payload checksum h = elim (Option-cases (from_chars c d)) [
  | inl e ↦ cc (parse_bytes_bad c d line acc s e)
  | inr (b, e) ↦
      let rest : Reads line (acc ++ b ∷ []) ((s + b) % 256) payload checksum =
        parse_bytes-Reads line (acc ++ b ∷ []) ((s + b) % 256) payload checksum
          (sym (parse_bytes_pair c d b line acc s e) ∙ h) in
      record {
        bs = b ∷ rest.bs;
        joined = rest.joined ∙ append_assoc acc (b ∷ []) rest.bs;
        bytes = (from_chars-IsByte c d b e, rest.bytes);
        total = omega (arith, rest.total);
        pairs = omega (arith, rest.pairs);
      }
]

-- What is known of a payload that `parse_line` returns.
pub record IsRecord (line payload : List ℕ) : Type 0 where
  pub bytes : All IsByte payload
  pub total : sum payload % 256 ≡ 0
  pub count : ℕ
  pub rest : List ℕ
  pub split : payload ≡ count ∷ rest
  pub size : length rest ≡ count + 4
  pub pairs : length line ≡ 2 * length payload

check_record-ok :
    (q payload : List ℕ) (t : ℕ)
    → check_record q t ≡ ok payload
    → (payload ≡ q)
      × (t ≡ 0)
      × (count : ℕ) × (rest : List ℕ) × (q ≡ count ∷ rest)
      × (length rest ≡ count + 4)
unfolding check_record at
check_record-ok [] payload t h = absurd (ground arith)
check_record-ok (count ∷ rest) payload t h =
    (ground arith, ground arith, count, rest, refl, ground arith)

-- A line that is accepted holds two characters for each byte of its record, whose sum is 0 modulo
-- 256 and whose first byte counts all but five.
pub parse_line-IsRecord :
    (line payload : List ℕ) → parse_line line ≡ ok payload → IsRecord line payload
parse_line-IsRecord line payload h = elim (Result-cases (parse_bytes line [] 0)) [
  | inl ((q, t), e) ↦
      let read : Reads line [] 0 q t = parse_bytes-Reads line [] 0 q t e in
      let (p, z, count, rest, split, size) = check_record-ok q payload t (tested q t e) in
      let same : payload ≡ read.bs = p ∙ read.joined in
      record {
        bytes = subst (All IsByte) (sym same) read.bytes;
        total = rw same (omega (arith, read.total, z));
        count = count;
        rest = rest;
        split = p ∙ split;
        size = size;
        pairs = rw same read.pairs;
      }
  | inr (inl (x, e)) ↦ absurd (not_thrown x e)
  | inr (inr (f, e)) ↦ absurd (not_fault f e)
]
  where
    tested :
        (q : List ℕ) (t : ℕ) → parse_bytes line [] 0 ≡ ok (q, t) → check_record q t ≡ ok payload
    tested q t e = unfold parse_line in ground (arith, e, h)

    not_thrown : (x : Thrown) → parse_bytes line [] 0 ≡ throws x → ⊥
    not_thrown x e = unfold parse_line in ground (arith, e, h)

    not_fault : (f : Fault) → parse_bytes line [] 0 ≡ fault f → ⊥
    not_fault f e = unfold parse_line in ground (arith, e, h)

All_middle : (xs : List ℕ) (b : ℕ) (ys : List ℕ) → All IsByte (xs ++ b ∷ ys) → IsByte b
All_middle [] b ys h = h.0
All_middle (x ∷ xs) b ys h = All_middle xs b ys h.1

-- The checksum finds every error in a single byte: two lines that are both accepted never hold
-- records that differ in one byte only.
pub parse_line_single_error :
    (line line' xs ys : List ℕ) (b b' : ℕ)
    → parse_line line ≡ ok (xs ++ b ∷ ys)
    → parse_line line' ≡ ok (xs ++ b' ∷ ys)
    → b ≡ b'
unfolding sum
parse_line_single_error line line' xs ys b b' h h' =
    let r = parse_line-IsRecord line (xs ++ b ∷ ys) h in
    let r' = parse_line-IsRecord line' (xs ++ b' ∷ ys) h' in
    omega (
      arith,
      r.total,
      r'.total,
      sum-append xs (b ∷ ys),
      sum-append xs (b' ∷ ys),
      All_middle xs b ys r.bytes,
      All_middle xs b' ys r'.bytes,
    )

-- The test for a digit looks at the first character of a pair only: where the second is no digit,
-- the pair stands for its first digit, and nothing is thrown.
pub parse_bytes_half_pair :
    (c d x : ℕ) (line acc : List ℕ) (s : ℕ)
    → hex_digit c ≡ some x
    → hex_digit d ≡ none
    → parse_bytes (c ∷ d ∷ line) acc s ≡ parse_bytes line (acc ++ x ∷ []) ((s + x) % 256)
unfolding from_chars
parse_bytes_half_pair c d x line acc s h k =
    parse_bytes_pair c d x line acc s (ground (arith, h, k))
