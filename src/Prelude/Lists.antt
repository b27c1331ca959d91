-- ===== src/Prelude/Lists.antt =====
-- Lists measured and indexed by native numbers, and writes of a whole block into a list.
use Prim.Native.Nat.{ℕ, zero, suc, ◌+◌, ◌-◌, ◌≤◌, ◌<◌, min}
use mathlib.Core.Path.{◌≡◌, refl, sym, ap}
use mathlib.Core.Logic.{◌≢◌, ◌⊎◌, inl, inr}
use mathlib.Core.List.{List, [], ◌∷◌, ◌++◌}
use mathlib.Core.Option.{Option, none, some}
use native.Mathlib.Omega.{arith}

module _ {ℓ} {A : Type ℓ} where
  abbrev pub length : List A → ℕ
  length [] = 0
  length (x ∷ xs) = suc (length xs)

  abbrev pub get_elem? : List A → ℕ → Option A
  get_elem? [] i = none
  get_elem? (x ∷ xs) zero = some x
  get_elem? (x ∷ xs) (suc i) = get_elem? xs i

  abbrev pub get_or : List A → ℕ → A → A
  get_or [] i d = d
  get_or (x ∷ xs) zero d = x
  get_or (x ∷ xs) (suc i) d = get_or xs i d

  abbrev pub set : List A → ℕ → A → List A
  set [] i v = []
  set (x ∷ xs) zero v = v ∷ xs
  set (x ∷ xs) (suc i) v = x ∷ set xs i v

  abbrev pub take : ℕ → List A → List A
  take zero xs = []
  take (suc n) [] = []
  take (suc n) (x ∷ xs) = x ∷ take n xs

  abbrev pub drop : ℕ → List A → List A
  drop zero xs = xs
  drop (suc n) [] = []
  drop (suc n) (x ∷ xs) = drop n xs

  abbrev pub replicate : ℕ → A → List A
  replicate zero a = []
  replicate (suc n) a = a ∷ replicate n a

  -- The block `ys` written over `xs` from index `i` on; what falls off the end is dropped.
  abbrev pub overwrite : List A → ℕ → List A → List A
  overwrite [] i ys = []
  overwrite (x ∷ xs) zero [] = x ∷ xs
  overwrite (x ∷ xs) zero (y ∷ ys) = y ∷ overwrite xs zero ys
  overwrite (x ∷ xs) (suc i) ys = x ∷ overwrite xs i ys

  abbrev pub All {κ} : (A → Type κ) → List A → Type κ
  All P [] = Unit
  All P (x ∷ xs) = P x × All P xs

  pub length-append : (xs ys : List A) → length (xs ++ ys) ≡ length xs + length ys
  length-append [] ys = omega arith
  length-append (x ∷ xs) ys = omega (arith, length-append xs ys)

  pub length-set : (xs : List A) (i : ℕ) (v : A) → length (set xs i v) ≡ length xs
  length-set [] i v = refl
  length-set (x ∷ xs) zero v = refl
  length-set (x ∷ xs) (suc i) v = ap suc (length-set xs i v)

  pub length-take : (n : ℕ) (xs : List A) → length (take n xs) ≡ min n (length xs)
  length-take zero xs = omega arith
  length-take (suc n) [] = omega arith
  length-take (suc n) (x ∷ xs) = omega (arith, length-take n xs)

  pub length-drop : (n : ℕ) (xs : List A) → length (drop n xs) ≡ length xs - n
  length-drop zero xs = omega arith
  length-drop (suc n) [] = omega arith
  length-drop (suc n) (x ∷ xs) = omega (arith, length-drop n xs)

  pub length-replicate : (n : ℕ) (a : A) → length (replicate n a) ≡ n
  length-replicate zero a = refl
  length-replicate (suc n) a = ap suc (length-replicate n a)

  pub length-overwrite :
      (xs : List A) (i : ℕ) (ys : List A) → length (overwrite xs i ys) ≡ length xs
  length-overwrite [] i ys = refl
  length-overwrite (x ∷ xs) zero [] = refl
  length-overwrite (x ∷ xs) zero (y ∷ ys) = ap suc (length-overwrite xs zero ys)
  length-overwrite (x ∷ xs) (suc i) ys = ap suc (length-overwrite xs i ys)

  pub overwrite-nil : (xs : List A) (i : ℕ) → overwrite xs i [] ≡ xs
  overwrite-nil [] i = refl
  overwrite-nil (x ∷ xs) zero = refl
  overwrite-nil (x ∷ xs) (suc i) = ap (◌∷◌ x) (overwrite-nil xs i)

  -- A block write is the write of its first element and then of the rest.
  pub overwrite-cons :
      (xs : List A) (i : ℕ) (y : A) (ys : List A)
      → overwrite xs i (y ∷ ys) ≡ overwrite (set xs i y) (suc i) ys
  overwrite-cons [] i y ys = refl
  overwrite-cons (x ∷ xs) zero y ys = refl
  overwrite-cons (x ∷ xs) (suc i) y ys = ap (◌∷◌ x) (overwrite-cons xs i y ys)

  pub take-append-drop : (n : ℕ) (xs : List A) → take n xs ++ drop n xs ≡ xs
  take-append-drop zero xs = refl
  take-append-drop (suc n) [] = refl
  take-append-drop (suc n) (x ∷ xs) = ap (◌∷◌ x) (take-append-drop n xs)

  pub take-append : (xs ys : List A) → take (length xs) (xs ++ ys) ≡ xs
  take-append [] ys = refl
  take-append (x ∷ xs) ys = ap (◌∷◌ x) (take-append xs ys)

  pub drop-append : (xs ys : List A) → drop (length xs) (xs ++ ys) ≡ ys
  drop-append [] ys = refl
  drop-append (x ∷ xs) ys = drop-append xs ys

  pub get_or-set :
      (xs : List A) (i j : ℕ) (v d : A) → i < length xs → i ≡ j → get_or (set xs i v) j d ≡ v
  get_or-set [] i j v d h e = absurd (omega arith)
  get_or-set (x ∷ xs) zero zero v d h e = refl
  get_or-set (x ∷ xs) zero (suc j) v d h e = absurd (omega arith)
  get_or-set (x ∷ xs) (suc i) zero v d h e = absurd (omega arith)
  get_or-set (x ∷ xs) (suc i) (suc j) v d h e = get_or-set xs i j v d (omega arith) (omega arith)

  pub get_or-set_ne :
      (xs : List A) (i j : ℕ) (v d : A) → i ≢ j → get_or (set xs i v) j d ≡ get_or xs j d
  get_or-set_ne [] i j v d h = refl
  get_or-set_ne (x ∷ xs) zero zero v d h = absurd (h refl)
  get_or-set_ne (x ∷ xs) zero (suc j) v d h = refl
  get_or-set_ne (x ∷ xs) (suc i) zero v d h = refl
  get_or-set_ne (x ∷ xs) (suc i) (suc j) v d h = get_or-set_ne xs i j v d (λ e. h (ap suc e))

  pub get_or-set_other :
      (xs : List A) (i j : ℕ) (v d : A)
      → (i < j) ⊎ (j < i)
      → get_or (set xs i v) j d ≡ get_or xs j d
  get_or-set_other xs i j v d h =
      get_or-set_ne xs i j v d
        (λ e. absurd (elim h [ inl a ↦ omega (arith, e) | inr b ↦ omega (arith, e) ]))

  pub get_or-take :
      (n : ℕ) (xs : List A) (i : ℕ) (d : A) → i < n → get_or (take n xs) i d ≡ get_or xs i d
  get_or-take zero xs i d h = absurd (omega arith)
  get_or-take (suc n) [] i d h = refl
  get_or-take (suc n) (x ∷ xs) zero d h = refl
  get_or-take (suc n) (x ∷ xs) (suc i) d h = get_or-take n xs i d (omega arith)

  pub get_or-drop :
      (n : ℕ) (xs : List A) (i : ℕ) (d : A) → get_or (drop n xs) i d ≡ get_or xs (n + i) d
  get_or-drop zero xs i d = let e : 0 + i ≡ i = omega arith in rw e refl
  get_or-drop (suc n) [] i d = refl
  get_or-drop (suc n) (x ∷ xs) i d =
      let e : suc n + i ≡ suc (n + i) = omega arith in rw e (get_or-drop n xs i d)

  pub drop-set : (n : ℕ) (xs : List A) (i : ℕ) (v : A) → i < n → drop n (set xs i v) ≡ drop n xs
  drop-set zero xs i v h = absurd (omega arith)
  drop-set (suc n) [] i v h = refl
  drop-set (suc n) (x ∷ xs) zero v h = refl
  drop-set (suc n) (x ∷ xs) (suc i) v h = drop-set n xs i v (omega arith)

  -- A block that was written is read back.
  pub take-drop-overwrite :
      (xs : List A) (i : ℕ) (ys : List A)
      → i + length ys ≤ length xs
      → take (length ys) (drop i (overwrite xs i ys)) ≡ ys
  take-drop-overwrite [] zero [] h = refl
  take-drop-overwrite [] zero (y ∷ ys) h = absurd (omega arith)
  take-drop-overwrite [] (suc i) ys h = absurd (omega arith)
  take-drop-overwrite (x ∷ xs) zero [] h = refl
  take-drop-overwrite (x ∷ xs) zero (y ∷ ys) h =
      ap (◌∷◌ y) (take-drop-overwrite xs zero ys (omega arith))
  take-drop-overwrite (x ∷ xs) (suc i) ys h = take-drop-overwrite xs i ys (omega arith)

  pub get_or-replicate : (n : ℕ) (a : A) (i : ℕ) → get_or (replicate n a) i a ≡ a
  get_or-replicate zero a i = refl
  get_or-replicate (suc n) a zero = refl
  get_or-replicate (suc n) a (suc i) = get_or-replicate n a i

  take-nil : (n : ℕ) → take n [] ≡ []
  take-nil zero = refl
  take-nil (suc n) = refl

  pub drop-take : (n k : ℕ) (xs : List A) → drop k (take (n + k) xs) ≡ take n (drop k xs)
  drop-take n zero xs = let e : n + 0 ≡ n = omega arith in rw e refl
  drop-take n (suc k) [] = let e : n + suc k ≡ suc (n + k) = omega arith in rw e (sym (take-nil n))
  drop-take n (suc k) (x ∷ xs) =
      let e : n + suc k ≡ suc (n + k) = omega arith in rw e (drop-take n k xs)
