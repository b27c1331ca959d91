-- ===== src/Image/Contents.antt =====
-- What an image holds, as a partial function from addresses to bytes.
use programmer.Prelude.{
  ℕ, zero, suc, ◌+◌, ◌-◌, ◌^◌, ◌≤◌, ◌<◌, ◌≡◌, refl, ◌⊎◌, inl, inr, Option, none, some, List, [],
  ◌∷◌, ◌++◌, All, length, get_elem?, arith, leb, if◌then◌else◌, Bool-cases,
}
use programmer.Image.{Section}

abbrev pub or_else {ℓ} : {A : Type ℓ} → Option A → Option A → Option A
or_else (some a) o = some a
or_else none o = o

pub or_else-swap : (o p : Option ℕ) → (o ≡ none) ⊎ (p ≡ none) → or_else o p ≡ or_else p o
or_else-swap none none h = refl
or_else-swap none (some y) h = refl
or_else-swap (some x) none h = refl
or_else-swap (some x) (some y) (inl e) = cc
or_else-swap (some x) (some y) (inr e) = cc

pub or_else_assoc : (o p q : Option ℕ) → or_else (or_else o p) q ≡ or_else o (or_else p q)
or_else_assoc none p q = refl
or_else_assoc (some x) p q = refl

unfoldable pub byte_at : Section → ℕ → Option ℕ
byte_at s a = if leb s.address a then get_elem? s.bytes (a - s.address) else none

-- The byte of the first section that has one at `a`.
unfoldable pub lookup : List Section → ℕ → Option ℕ
lookup [] a = none
lookup (s ∷ ss) a = or_else (byte_at s a) (lookup ss a)

-- The end of a section as a number that does not wrap.
abbrev pub limit : Section → ℕ
limit s = s.address + length s.bytes

-- It has a byte, and its end does not wrap.
abbrev pub IsProper : Section → Type 0
IsProper s = (0 < length s.bytes) × (limit s < 2 ^ 64)

abbrev pub Apart : Section → Section → Type 0
Apart s t = (limit s ≤ t.address) ⊎ (limit t ≤ s.address)

-- No two sections overlap.
abbrev pub IsSeparate : List Section → Type 0
IsSeparate [] = Unit {0}
IsSeparate (s ∷ ss) = All (Apart s) ss × IsSeparate ss

get_elem?_past : (xs : List ℕ) (i : ℕ) → length xs ≤ i → get_elem? xs i ≡ none
get_elem?_past [] i h = refl
get_elem?_past (x ∷ xs) zero h = absurd (omega arith)
get_elem?_past (x ∷ xs) (suc i) h = get_elem?_past xs i (omega arith)

get_elem?_within : (xs : List ℕ) (i : ℕ) → i < length xs → (x : ℕ) × (get_elem? xs i ≡ some x)
get_elem?_within [] i h = absurd (omega arith)
get_elem?_within (x ∷ xs) zero h = (x, refl)
get_elem?_within (x ∷ xs) (suc i) h = get_elem?_within xs i (omega arith)

pub get_elem?-append :
    (xs ys : List ℕ) (i : ℕ)
    → get_elem? (xs ++ ys) i ≡ or_else (get_elem? xs i) (get_elem? ys (i - length xs))
get_elem?-append [] ys i = ground arith
get_elem?-append (x ∷ xs) ys zero = refl
get_elem?-append (x ∷ xs) ys (suc i) = ground (arith, get_elem?-append xs ys i)

pub byte_at_below : (s : Section) (a : ℕ) → a < s.address → byte_at s a ≡ none
unfolding byte_at
byte_at_below s a h = ground arith

pub byte_at_above : (s : Section) (a : ℕ) → limit s ≤ a → byte_at s a ≡ none
unfolding byte_at
byte_at_above s a h = ground (arith, get_elem?_past s.bytes (a - s.address))

pub byte_at_within :
    (s : Section) (a : ℕ) → s.address ≤ a → a < limit s → (x : ℕ) × (byte_at s a ≡ some x)
unfolding byte_at
byte_at_within s a h k =
    let found : (x : ℕ) × (get_elem? s.bytes (a - s.address) ≡ some x) =
      get_elem?_within s.bytes (a - s.address) (omega arith) in
    (found.0, ground (arith, found.1))

-- Of two sections that are apart, one at most has a byte at `a`.
pub byte_at-Apart :
    (s t : Section) (a : ℕ) → Apart s t → (byte_at s a ≡ none) ⊎ (byte_at t a ≡ none)
byte_at-Apart s t a (inl h) = elim (Bool-cases (leb (limit s) a)) [
  | inl e ↦ inl (byte_at_above s a (ground arith))
  | inr e ↦ inr (byte_at_below t a (ground arith))
]
byte_at-Apart s t a (inr h) = elim (Bool-cases (leb (limit t) a)) [
  | inl e ↦ inr (byte_at_above t a (ground arith))
  | inr e ↦ inl (byte_at_below s a (ground arith))
]

-- Two runs of bytes, one right behind the other, hold what they hold apart.
pub byte_at-append :
    (start : ℕ) (xs ys : List ℕ) (a : ℕ)
    → byte_at (record { address = start; bytes = xs ++ ys }) a
      ≡ or_else
          (byte_at (record { address = start; bytes = xs }) a)
          (byte_at (record { address = start + length xs; bytes = ys }) a)
unfolding byte_at
byte_at-append start xs ys a = ground (
  arith,
  get_elem?-append xs ys (a - start),
  get_elem?_past xs (a - start),
  get_elem?_within xs (a - start),
)
