-- ===== src/Prelude/Bits.antt =====
-- `&` and `|` with the masks and disjoint fields that the program uses, as arithmetic.
use Prim.Native.Nat.{ℕ, zero, suc, ◌+◌, ◌*◌, ◌/◌, ◌%◌, ◌^◌, ◌≤◌, ◌<◌, min, max, bit_and, bit_or}
use Prim.Native.Nat.{digits, bitwise, bit_and-bitwise, bit_or-bitwise}
use mathlib.Core.Path.{◌≡◌, refl}
use native.Mathlib.Nat.{le_refl}
use native.Mathlib.Omega.{arith}

module _ (z : ℕ → ℕ) (f : ℕ → ℕ → ℕ) where
  digits-fuel :
      (fuel more x y : ℕ) → x ≤ fuel → x ≤ more → digits z f fuel x y ≡ digits z f more x y
  digits-fuel (suc fuel) (suc more) (suc x) y h k =
      rw (digits-fuel fuel more (suc x / 2) (y / 2) (omega arith) (omega arith))
  digits-fuel (suc fuel) zero (suc x) y h k = absurd (omega arith)
  digits-fuel zero (suc more) (suc x) y h k = absurd (omega arith)
  digits-fuel zero zero (suc x) y h k = absurd (omega arith)
  digits-fuel zero zero zero y h k = refl
  digits-fuel zero (suc more) zero y h k = refl
  digits-fuel (suc fuel) zero zero y h k = refl
  digits-fuel (suc fuel) (suc more) zero y h k = refl

  bitwise_digit :
      (a b : ℕ)
      → bitwise z f (suc a) b ≡ bitwise z f (suc a / 2) (b / 2) * 2 + f (suc a % 2) (b % 2)
  bitwise_digit a b =
      omega (arith, digits-fuel a (suc a / 2) (suc a / 2) (b / 2) (omega arith) (le_refl _))

pub bit_or_digit : (a b : ℕ) → bit_or a b ≡ bit_or (a / 2) (b / 2) * 2 + max (a % 2) (b % 2)
bit_or_digit zero b = simp bit_or-bitwise (omega arith)
bit_or_digit (suc a) b = simp bit_or-bitwise (bitwise_digit (λ y. y) max a b)

pub bit_and_digit : (a b : ℕ) → bit_and a b ≡ bit_and (a / 2) (b / 2) * 2 + min (a % 2) (b % 2)
bit_and_digit zero b = simp bit_and-bitwise (omega arith)
bit_and_digit (suc a) b = simp bit_and-bitwise (bitwise_digit (λ y. 0) min a b)

-- `k` ones, the low mask of `k` bits.
abbrev ones : ℕ → ℕ
ones zero = 0
ones (suc k) = ones k * 2 + 1

bit_and-zero_fuel : (bound x : ℕ) → x ≤ bound → bit_and x 0 ≡ 0
bit_and-zero_fuel (suc bound) (suc x) h =
    let half : bit_and (suc x / 2) 0 ≡ 0 = bit_and-zero_fuel bound (suc x / 2) (omega arith) in
    omega (arith, bit_and_digit (suc x) 0, half)
bit_and-zero_fuel zero (suc x) h = absurd (omega arith)
bit_and-zero_fuel zero zero h = refl
bit_and-zero_fuel (suc bound) zero h = refl

pow_two : ℕ → ℕ
pow_two zero = 1
pow_two (suc k) = pow_two k * 2

bit_and_odd : (a b : ℕ) → bit_and a (b * 2 + 1) ≡ bit_and (a / 2) b * 2 + a % 2
bit_and_odd a b = ground (arith, bit_and_digit a (b * 2 + 1))

bit_and_even : (a b : ℕ) → bit_and a (b * 2) ≡ bit_and (a / 2) b * 2
bit_and_even a b = ground (arith, bit_and_digit a (b * 2))

bit_and-ones : (k a : ℕ) → a < pow_two k → bit_and a (ones k) ≡ a
unfolding pow_two
bit_and-ones zero a h = omega (arith, bit_and-zero_fuel a a (le_refl _))
bit_and-ones (suc k) a h =
    omega (arith, bit_and_odd a (ones k), bit_and-ones k (a / 2) (omega arith))

-- A mask of 32 bits whose six lowest bits are clear rounds down to a sector.
pub bit_and_sector : (a : ℕ) → a < 2 ^ 32 → bit_and a 0xFFFFFFC0 ≡ a / 64 * 64
unfolding pow_two
bit_and_sector a h = omega (
  arith,
  bit_and_even a 0x7FFFFFE0,
  bit_and_even (a / 2) 0x3FFFFFF0,
  bit_and_even (a / 2 / 2) 0x1FFFFFF8,
  bit_and_even (a / 2 / 2 / 2) 0x0FFFFFFC,
  bit_and_even (a / 2 / 2 / 2 / 2) 0x07FFFFFE,
  bit_and_even (a / 2 / 2 / 2 / 2 / 2) 0x03FFFFFF,
  bit_and-ones 26 (a / 2 / 2 / 2 / 2 / 2 / 2) (omega arith),
)

-- One whose ten lowest bits are clear rounds down to a page.
pub bit_and_page : (a : ℕ) → a < 2 ^ 32 → bit_and a 0xFFFFFC00 ≡ a / 1024 * 1024
unfolding pow_two
bit_and_page a h = omega (
  arith,
  bit_and_even a 0x7FFFFE00,
  bit_and_even (a / 2) 0x3FFFFF00,
  bit_and_even (a / 2 / 2) 0x1FFFFF80,
  bit_and_even (a / 2 / 2 / 2) 0x0FFFFFC0,
  bit_and_even (a / 2 / 2 / 2 / 2) 0x07FFFFE0,
  bit_and_even (a / 2 / 2 / 2 / 2 / 2) 0x03FFFFF0,
  bit_and_even (a / 2 / 2 / 2 / 2 / 2 / 2) 0x01FFFFF8,
  bit_and_even (a / 2 / 2 / 2 / 2 / 2 / 2 / 2) 0x00FFFFFC,
  bit_and_even (a / 2 / 2 / 2 / 2 / 2 / 2 / 2 / 2) 0x007FFFFE,
  bit_and_even (a / 2 / 2 / 2 / 2 / 2 / 2 / 2 / 2 / 2) 0x003FFFFF,
  bit_and-ones 22 (a / 2 / 2 / 2 / 2 / 2 / 2 / 2 / 2 / 2 / 2) (omega arith),
)

bit_or-zero_fuel : (bound x : ℕ) → x ≤ bound → bit_or x 0 ≡ x
bit_or-zero_fuel (suc bound) (suc x) h =
    let half : bit_or (suc x / 2) 0 ≡ suc x / 2 =
      bit_or-zero_fuel bound (suc x / 2) (omega arith) in
    omega (arith, bit_or_digit (suc x) 0, half)
bit_or-zero_fuel zero (suc x) h = absurd (omega arith)
bit_or-zero_fuel zero zero h = refl
bit_or-zero_fuel (suc bound) zero h = refl

-- `(q << k) | r` is a sum where `r` fits in `k` bits.
bit_or_shifted : (k q r : ℕ) → r < pow_two k → bit_or (q * pow_two k) r ≡ q * pow_two k + r
unfolding pow_two
bit_or_shifted zero q r h = ground (arith, bit_or-zero_fuel q q (le_refl _))
bit_or_shifted (suc k) q r h =
    ground (arith, bit_or_digit (q * (pow_two k * 2)) r, bit_or_shifted k q (r / 2) (omega arith))

pub bit_or_byte : (q r : ℕ) → r < 256 → bit_or (q * 256) r ≡ q * 256 + r
unfolding pow_two
bit_or_byte q r h = bit_or_shifted 8 q r h

pub bit_or_24 : (q r : ℕ) → r < 2 ^ 24 → bit_or (q * 2 ^ 24) r ≡ q * 2 ^ 24 + r
unfolding pow_two
bit_or_24 q r h = bit_or_shifted 24 q r h
