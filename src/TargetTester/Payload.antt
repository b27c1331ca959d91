-- ===== src/TargetTester/Payload.antt =====
-- `TargetNetworkTester::prepare_payload` of src/TargetTester.cpp: random bytes, and the bytes that
-- the device should answer. The random numbers are a stream of unsigned longs, of 32 bits.
use programmer.Prelude.{
  ℕ, zero, suc, ◌/◌, ◌%◌, List, [], ◌∷◌, ◌++◌, bit_xor, leb, ◌==◌, if◌then◌else◌,
}
use programmer.Exceptions.{Result, ok, fault, Fault, ◌>>=◌}

-- What the loops have written, the mask, the bytes left to write and the numbers drawn.
pub record Filled : Type 0 where
  pub tx : List ℕ
  pub check : List ℕ
  pub mask : ℕ
  pub size : ℕ

-- The `for` loop over the bytes of one random number, with the rounds that are left.
unfoldable pub fill_word : ℕ → ℕ → ℕ → ℕ → Filled
fill_word zero size rand mask = record { tx = []; check = []; mask = mask; size = size }
fill_word (suc i) zero rand mask = record { tx = []; check = []; mask = mask; size = 0 }
fill_word (suc i) (suc size) rand mask =
    let value = rand % 256 in
    let mask' = bit_xor mask value in
    let rest = fill_word i size (rand / 256) mask' in
    record rest { tx = value ∷ rest.tx; check = mask' ∷ rest.check }

-- The `while` loop; the third part of the result is the count of the numbers drawn.
unfoldable pub fill_words : ℕ → (ℕ → ℕ) → ℕ → ℕ → ℕ → Result (List ℕ × List ℕ × ℕ)
fill_words zero draws drawn size mask = fault Fault.out_of_fuel
fill_words (suc fuel) draws drawn size mask =
    let word = fill_word 4 size (draws drawn) mask in
    let next = fill_words fuel draws (suc drawn) word.size word.mask >>= λ rest.
    ok (word.tx ++ rest.0, word.check ++ rest.1, rest.2) in
    if size == 0 then ok ([], [], drawn) else next

abbrev pub buffer_size : ℕ
buffer_size = 512

unfoldable pub prepare_payload : (ℕ → ℕ) → ℕ → ℕ → Result (List ℕ × List ℕ × ℕ)
prepare_payload draws drawn size =
    if leb size buffer_size
    then fill_words (suc size) draws drawn size 0x5A
    else fault Fault.assertion
