-- ===== src/Prelude/Words.antt =====
-- The fixed widths of the program: casts, and sums and differences of size_t on a 64-bit build.
use Prim.Native.Nat.{ℕ, ◌+◌, ◌-◌, ◌%◌, ◌^◌, ◌<◌}

abbrev pub u8 : ℕ → ℕ
u8 n = n % 2 ^ 8

abbrev pub u16 : ℕ → ℕ
u16 n = n % 2 ^ 16

abbrev pub u32 : ℕ → ℕ
u32 n = n % 2 ^ 32

abbrev pub size_add : ℕ → ℕ → ℕ
size_add a b = (a + b) % 2 ^ 64

-- 2 ^ 64 is added first, since `-` stops at 0.
abbrev pub size_sub : ℕ → ℕ → ℕ
size_sub a b = (a + 2 ^ 64 - b) % 2 ^ 64

abbrev pub IsByte : ℕ → Type 0
IsByte b = b < 256
