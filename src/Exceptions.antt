-- ===== src/Exceptions.antt =====
-- include/Programmer/Exceptions.hpp and the exceptions that the other files throw.
--
-- A message is the list of its parts, the outermost first: `prepend` puts a part and a space in
-- front. A part keeps its format and arguments, since std::vformat belongs to the standard library.
pub mod Message
use Prim.Native.String.{String}
use programmer.Prelude.{
  ℕ, List, [], ◌∷◌, ◌++◌, Bool, true, false, ◌≡◌, ◌≢◌, refl, sym, subst, ap, ◌⊎◌, inl, inr,
  if◌then◌else◌,
}

pub record Part : Type 0 where
  pub format : String
  pub args : List ℕ

abbrev pub text : String → Part
text s = record { format = s; args = [] }

-- The classes of what is thrown: `Exception`, its subclass `ETarget` with the status byte,
-- `SocketException` (a std::system_error, no `Exception`) and the wide string of `throw String(…)`.
pub data Thrown : Type 0 where
  exception : List Part → Thrown
  target_error : ℕ → List Part → Thrown
  socket_exception : Thrown
  wide_string : String → Thrown

-- Where a run of the C++ program has no defined meaning: an access outside an array, a failed
-- `assert`. `out_of_fuel` is the model's own, for a loop that was given too few rounds.
pub data Fault : Type 0 where
  out_of_bounds assertion out_of_fuel : Fault

pub data Result {ℓ} (A : Type ℓ) : Type ℓ where
  ok : A → Result A
  throws : Thrown → Result A
  fault : Fault → Result A

-- What follows runs on a value only.
infixl 5 ◌>>◌ ◌>>=◌
abbrev pub ◌>>=◌ {ℓ κ} : {A : Type ℓ} {B : Type κ} → Result A → (A → Result B) → Result B
throws e >>= next = throws e
fault f >>= next = fault f
ok a >>= next = next a

abbrev pub ◌>>◌ {ℓ} : {B : Type ℓ} → Result (Unit {0}) → Result B → Result B
first >> rest = first >>= λ done. rest

abbrev pub throw {ℓ} : {A : Type ℓ} → String → Result A
throw s = throws (exception (text s ∷ []))

-- `if (test) throw Exception(message);`
abbrev pub throw_if : Bool → String → Result (Unit {0})
throw_if true s = throw s
throw_if false s = ok tt

abbrev pub prepend : Part → Thrown → Thrown
prepend p (exception m) = exception (p ∷ m)
prepend p (target_error s m) = target_error s (p ∷ m)
prepend p socket_exception = socket_exception
prepend p (wide_string s) = wide_string s

abbrev pub append : Part → Thrown → Thrown
append p (exception m) = exception (m ++ p ∷ [])
append p (target_error s m) = target_error s (m ++ p ∷ [])
append p socket_exception = socket_exception
append p (wide_string s) = wide_string s

-- `catch (Exception& err) { err.prepend(part); throw; }`
abbrev pub rethrow {ℓ} : {A : Type ℓ} → Part → Result A → Result A
rethrow p (ok a) = ok a
rethrow p (throws e) = throws (prepend p e)
rethrow p (fault f) = fault f

pub Result-cases {ℓ} :
    {A : Type ℓ} (r : Result A)
    → ((a : A) × (r ≡ ok a)) ⊎ ((e : Thrown) × (r ≡ throws e)) ⊎ ((f : Fault) × (r ≡ fault f))
Result-cases (ok a) = inl (a, refl)
Result-cases (throws e) = inr (inl (e, refl))
Result-cases (fault f) = inr (inr (f, refl))

pub >>=_assoc {ℓ κ μ} :
    {A : Type ℓ} {B : Type κ} {C : Type μ} (m : Result A) (f : A → Result B) (g : B → Result C)
    → ((m >>= f) >>= g) ≡ (m >>= λ a. f a >>= g)
>>=_assoc (ok a) f g = refl
>>=_assoc (throws e) f g = refl
>>=_assoc (fault e) f g = refl

pub >>=-ok {ℓ} : {A : Type ℓ} (m : Result A) → (m >>= ok) ≡ m
>>=-ok (ok a) = refl
>>=-ok (throws e) = refl
>>=-ok (fault e) = refl

abbrev pub IsOk {ℓ} : {A : Type ℓ} → Result A → Type 0
IsOk (ok a) = Unit {0}
IsOk (throws e) = ⊥
IsOk (fault f) = ⊥

-- A value or an exception.
abbrev pub IsDefined {ℓ} : {A : Type ℓ} → Result A → Type 0
IsDefined (ok a) = Unit {0}
IsDefined (throws e) = Unit {0}
IsDefined (fault f) = ⊥

pub >>=-IsDefined {ℓ κ} :
    {A : Type ℓ} {B : Type κ} (m : Result A) (f : A → Result B)
    → IsDefined m
    → ((a : A) → m ≡ ok a → IsDefined (f a))
    → IsDefined (m >>= f)
>>=-IsDefined (ok a) f d next = next a refl
>>=-IsDefined (throws e) f d next = tt
>>=-IsDefined (fault x) f d next = d

pub value-IsDefined {ℓ κ} :
    {A : Type ℓ} {B : Type κ} (m : Result A) (f : A → Result B)
    → (a : A) × (m ≡ ok a)
    → ((a : A) → IsDefined (f a))
    → IsDefined (m >>= f)
value-IsDefined m f (a, e) d = subst (λ m. IsDefined (m >>= f)) (sym e) (d a)

pub if-IsDefined {ℓ} :
    {A : Type ℓ} (test : Bool) (r s : Result A)
    → IsDefined r
    → IsDefined s
    → IsDefined (if test then r else s)
if-IsDefined true r s d e = d
if-IsDefined false r s d e = e

pub throw_if-IsDefined {ℓ} :
    {B : Type ℓ} (test : Bool) (s : String) (rest : Result B)
    → (test ≡ false → IsDefined rest)
    → IsDefined (throw_if test s >> rest)
throw_if-IsDefined true s rest d = tt
throw_if-IsDefined false s rest d = d refl

pub throws-ne-ok {ℓ} : {A : Type ℓ} (e : Thrown) (a : A) → throws e ≢ ok a
throws-ne-ok e a h = subst IsOk (sym h) tt

pub fault-ne-ok {ℓ} : {A : Type ℓ} (f : Fault) (a : A) → fault f ≢ ok a
fault-ne-ok f a h = subst IsOk (sym h) tt

-- A sequence that returns is two parts that return.
pub >>=-ok_inv {ℓ κ} :
    {A : Type ℓ} {B : Type κ} (m : Result A) (f : A → Result B) (b : B)
    → (m >>= f) ≡ ok b
    → (a : A) × (m ≡ ok a) × (f a ≡ ok b)
>>=-ok_inv (ok a) f b e = (a, refl, e)
>>=-ok_inv (throws x) f b e = absurd (throws-ne-ok x b e)
>>=-ok_inv (fault x) f b e = absurd (fault-ne-ok x b e)

abbrev value_or {ℓ} : {A : Type ℓ} → A → Result A → A
value_or d (ok a) = a
value_or d (throws e) = d
value_or d (fault f) = d

pub ok-injective {ℓ} : {A : Type ℓ} (a b : A) → ok a ≡ ok b → a ≡ b
ok-injective a b e = ap (value_or a) e

-- A test that is passed, and what comes after it.
pub throw_if-ok {ℓ} :
    {B : Type ℓ} (test : Bool) (s : String) (rest : Result B) (b : B)
    → (throw_if test s >> rest) ≡ ok b
    → (test ≡ false) × (rest ≡ ok b)
throw_if-ok true s rest b e = absurd (subst IsOk (sym e) tt)
throw_if-ok false s rest b e = (refl, e)
