-- ===== src/Protocol/Fields.antt =====
-- Numbers in a buffer: what is stored is read back, big-endian, and disjoint fields do not disturb
-- each other.
use programmer.Prelude.{
  ℕ, zero, suc, ◌+◌, ◌/◌, ◌%◌, ◌^◌, ◌≤◌, ◌<◌, ◌≡◌, refl, ◌⊎◌, inr, List, [], ◌∷◌, length, get_or,
  overwrite, arith,
}
use programmer.Protocol.{
  byteswap16, byteswap32, host16, host32, host16_at, host32_at, set_be16, set_be32, be16_at,
  be32_at,
}

-- The cell `k` of a buffer after a block write at `i`, by its offset `j` in the block.
pub get_or-overwrite :
    (xs : List ℕ) (i : ℕ) (ys : List ℕ) (j k : ℕ)
    → i + length ys ≤ length xs
    → j < length ys
    → k ≡ i + j
    → get_or (overwrite xs i ys) k 0 ≡ get_or ys j 0
get_or-overwrite [] i ys j k h l e = absurd (omega arith)
get_or-overwrite (x ∷ xs) zero [] j k h l e = absurd (omega arith)
get_or-overwrite (x ∷ xs) zero (y ∷ ys) zero zero h l e = refl
get_or-overwrite (x ∷ xs) zero (y ∷ ys) zero (suc k) h l e = absurd (omega arith)
get_or-overwrite (x ∷ xs) zero (y ∷ ys) (suc j) zero h l e = absurd (omega arith)
get_or-overwrite (x ∷ xs) zero (y ∷ ys) (suc j) (suc k) h l e =
    get_or-overwrite xs zero ys j k (omega arith) (omega arith) (omega arith)
get_or-overwrite (x ∷ xs) (suc i) ys j zero h l e = absurd (omega arith)
get_or-overwrite (x ∷ xs) (suc i) ys j (suc k) h l e =
    get_or-overwrite xs i ys j k (omega arith) l (omega arith)

pub get_or-overwrite_ne :
    (xs : List ℕ) (i : ℕ) (ys : List ℕ) (j : ℕ)
    → (j < i) ⊎ (i + length ys ≤ j)
    → get_or (overwrite xs i ys) j 0 ≡ get_or xs j 0
get_or-overwrite_ne [] i ys j h = refl
get_or-overwrite_ne (x ∷ xs) zero [] j h = refl
get_or-overwrite_ne (x ∷ xs) zero (y ∷ ys) zero h = absurd (omega arith)
get_or-overwrite_ne (x ∷ xs) zero (y ∷ ys) (suc j) h =
    get_or-overwrite_ne xs zero ys j (inr (omega arith))
get_or-overwrite_ne (x ∷ xs) (suc i) ys zero h = refl
get_or-overwrite_ne (x ∷ xs) (suc i) ys (suc j) h = get_or-overwrite_ne xs i ys j (omega arith)

-- A 32-bit number is stored with its high byte first, and read back.
pub be32_at-set_be32 :
    (buf : List ℕ) (i v : ℕ)
    → i + 4 ≤ length buf
    → v < 2 ^ 32
    → (be32_at (set_be32 buf i v) i ≡ v)
      × (get_or (set_be32 buf i v) i 0 ≡ v / 2 ^ 24)
      × (get_or (set_be32 buf i v) (i + 1) 0 ≡ v / 2 ^ 16 % 256)
      × (get_or (set_be32 buf i v) (i + 2) 0 ≡ v / 2 ^ 8 % 256)
      × (get_or (set_be32 buf i v) (i + 3) 0 ≡ v % 256)
unfolding be32_at set_be32 host32_at host32 byteswap32
be32_at-set_be32 buf i v h k =
    let bytes = host32 (byteswap32 v) in
    let b0 = get_or-overwrite buf i bytes 0 i h (omega arith) (omega arith) in
    let b1 = get_or-overwrite buf i bytes 1 (i + 1) h (omega arith) refl in
    let b2 = get_or-overwrite buf i bytes 2 (i + 2) h (omega arith) refl in
    let b3 = get_or-overwrite buf i bytes 3 (i + 3) h (omega arith) refl in
    (
      omega (arith, b0, b1, b2, b3),
      omega (arith, b0),
      omega (arith, b1),
      omega (arith, b2),
      omega (arith, b3),
    )

pub be16_at-set_be16 :
    (buf : List ℕ) (i v : ℕ)
    → i + 2 ≤ length buf
    → v < 2 ^ 16
    → (be16_at (set_be16 buf i v) i ≡ v)
      × (get_or (set_be16 buf i v) i 0 ≡ v / 2 ^ 8)
      × (get_or (set_be16 buf i v) (i + 1) 0 ≡ v % 256)
unfolding be16_at set_be16 host16_at host16 byteswap16
be16_at-set_be16 buf i v h k =
    let bytes = host16 (byteswap16 v) in
    let b0 = get_or-overwrite buf i bytes 0 i h (omega arith) (omega arith) in
    let b1 = get_or-overwrite buf i bytes 1 (i + 1) h (omega arith) refl in
    (omega (arith, b0, b1), omega (arith, b0), omega (arith, b1))

-- `byteswap` twice is the identity.
pub byteswap32-byteswap32 : (v : ℕ) → v < 2 ^ 32 → byteswap32 (byteswap32 v) ≡ v
unfolding byteswap32
byteswap32-byteswap32 v h = omega arith

-- The cells that a datagram covers at the start of a buffer are those of the datagram.
pub get_or-overwrite_start :
    (buf datagram : List ℕ) (i : ℕ)
    → length datagram ≤ length buf
    → i < length datagram
    → get_or (overwrite buf 0 datagram) i 0 ≡ get_or datagram i 0
get_or-overwrite_start buf datagram i h l =
    get_or-overwrite buf 0 datagram i i (omega arith) l (omega arith)
