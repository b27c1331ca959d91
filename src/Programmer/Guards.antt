-- ===== src/Programmer/Guards.antt =====
-- What class Programmer hands on to its strategy, and what it refuses.
use programmer.Prelude.{
  ℕ, ◌%◌, ◌≤◌, ◌≡◌, refl, List, length, not, ◌||◌, ltb, ◌==◌, arith, Bool-cases, inl, inr,
}
use programmer.Exceptions.{Result}
use programmer.Programmer.{ProgrammerStrategy, write, erase, erase_write}

-- A property of the states that a strategy's `write` and `erase` keep when the arguments are
-- aligned: the address to the sector and the size to whole sectors within the limit, the address
-- of an erase to the page.
pub record IsKept {State : Type 0} (programmer : ProgrammerStrategy State) (P : State → Type 0)
    : Type 0 where
  pub write :
      (address : ℕ) (buffer : List ℕ) (s : State)
      → address % 64 ≡ 0
      → length buffer % 64 ≡ 0
      → length buffer ≤ programmer.descriptor.max_write
      → P s
      → P (programmer.write address buffer s).0
  pub erase :
      (address : ℕ) (s : State) → address % 1024 ≡ 0 → P s → P (programmer.erase address s).0

module _ {State : Type 0} (programmer : ProgrammerStrategy State) (P : State → Type 0)
    (kept : IsKept programmer P) where
  write-IsKept :
      (address : ℕ) (buffer : List ℕ) (s : State) → P s → P (write programmer address buffer s).0
  unfolding write
  write-IsKept address buffer s h = elim (Bool-cases (not (address % 64 == 0))) [
    | inl a ↦ rw a h
    | inr a ↦ elim (Bool-cases (not (length buffer % 64 == 0))) [
      | inl b ↦ rw (a, b) h
      | inr b ↦ elim (Bool-cases (ltb programmer.descriptor.max_write (length buffer))) [
        | inl c ↦ rw (a, b, c) h
        | inr c ↦
            rw (a, b, c)
              (kept.write address buffer s (ground arith) (ground arith) (ground arith) h)
      ]
    ]
  ]

  erase-IsKept : (address : ℕ) (s : State) → P s → P (erase programmer address s).0
  unfolding erase
  erase-IsKept address s h = elim (Bool-cases (not (address % 1024 == 0))) [
    | inl a ↦ rw a h
    | inr a ↦ rw a (kept.erase address s (ground arith) h)
  ]

  erase_write-IsKept :
      (address : ℕ) (buffer : List ℕ) (s : State)
      → P s
      → P (erase_write programmer address buffer s).0
  unfolding erase_write
  erase_write-IsKept address buffer s h = elim (Bool-cases (not (address % 1024 == 0))) [
    | inl a ↦ rw a h
    | inr a ↦ elim (Bool-cases (not (length buffer % 64 == 0))) [
      | inl b ↦ rw (a, b) h
      | inr b ↦
          elim (Bool-cases
            (ltb programmer.descriptor.max_write (length buffer) || ltb 1024 (length buffer))) [
              | inl c ↦ rw (a, b, c) h
              | inr c ↦
                  rw (a, b, c)
                    (kept.write address buffer s (ground arith) (ground arith) (ground arith) h)
            ]
    ]
  ]

  -- What a strategy keeps when it is called with aligned addresses and sizes within its limit is
  -- kept by `write`, `erase` and `erase_write` of Programmer, whatever they are called with.
  pub guarded-IsKept :
      (address : ℕ) (buffer : List ℕ) (s : State)
      → P s
      → P (write programmer address buffer s).0
        × P (erase programmer address s).0
        × P (erase_write programmer address buffer s).0
  guarded-IsKept address buffer s h = (
    write-IsKept address buffer s h,
    erase-IsKept address s h,
    erase_write-IsKept address buffer s h,
  )

-- `erase_write` never calls the strategy's `erase_write`: with another one in its place it does
-- the same.
pub erase_write_unused :
    {State : Type 0} (programmer : ProgrammerStrategy State)
    (other : ℕ → List ℕ → State → State × Result (Unit {0})) (address : ℕ) (buffer : List ℕ)
    (s : State)
    → erase_write (record programmer { erase_write = other }) address buffer s
      ≡ erase_write programmer address buffer s
unfolding erase_write
erase_write_unused programmer other address buffer s = refl
