-- ===== src/Pipeline/Blocks.antt =====
-- Blocks that are separate go into an image without an exception, and the image holds them.
use mathlib.Core.Option.{none-ne-some}
use programmer.Prelude.{
  ℕ, ◌-◌, ◌^◌, ◌≡◌, ◌≢◌, refl, sym, ap, ap₂, ◌∙◌, ◌⊎◌, inl, inr, ◌||◌, none, some, if◌then◌else◌,
  List, [], ◌∷◌, All, length, replicate, length-replicate, arith,
}
use programmer.Exceptions.{Result, ok}
use programmer.Image.{Section, of_block}
use programmer.Image.Contents.{
  or_else, or_else-swap, or_else_assoc, byte_at, lookup, limit, IsProper, Apart, IsSeparate,
  byte_at-Apart, byte_at_within,
}
use programmer.Image.Join.{Joins, process-Joins}
use programmer.ImageProgrammer.{Operation, program}
use programmer.ImageProgrammer.Flash.{Flash, run, touched, programmed}
use programmer.ImageProgrammer.Order.{IsLow}
use programmer.ImageProgrammer.Correct.{program-programmed}
use programmer.Pipeline.{process_all}
use programmer.Pipeline.Touched.{process-touched}

-- An image after some blocks have been put into it.
pub record Collects (ss bs : List Section) (r : Result (List Section)) : Type 0 where
  pub out : List Section
  pub returns : r ≡ ok out
  pub low : All IsLow out
  pub separate : IsSeparate out
  pub contents : (a : ℕ) → lookup out a ≡ or_else (lookup bs a) (lookup ss a)
  pub pages : (a : ℕ) → touched out a ≡ (touched bs a || touched ss a)

IsLow-IsProper : (ss : List Section) → All IsLow ss → All IsProper ss
IsLow-IsProper [] h = tt
IsLow-IsProper (s ∷ ss) h = (omega (arith, h.0), IsLow-IsProper ss h.1)

-- The section of all that lies behind 32 bits, so that low sections are those apart from it.
high : (n : ℕ) → (s : Section) × (s.address ≡ 2 ^ 32) × (length s.bytes ≡ n)
high n = (record { address = 2 ^ 32; bytes = replicate n 0 }, refl, length-replicate n 0)

high-Apart :
    (t : Section) (ss : List Section) → t.address ≡ 2 ^ 32 → All IsLow ss → All (Apart t) ss
high-Apart t [] e h = tt
high-Apart t (s ∷ ss) e h = (inr (omega (arith, e, h.0)), high-Apart t ss e h.1)

Apart-IsLow :
    (t : Section) (ss : List Section)
    → t.address ≡ 2 ^ 32
    → limit t ≡ 2 ^ 64 - 1
    → All IsProper ss
    → All (Apart t) ss
    → All IsLow ss
Apart-IsLow t [] e k p h = tt
Apart-IsLow t (s ∷ ss) e k p h = (omega (arith, e, k, p.0, h.0), Apart-IsLow t ss e k p.1 h.1)

-- A section apart from all has no byte where one of them has.
lookup-Apart :
    (s : Section) (ts : List Section) (a : ℕ)
    → All (Apart s) ts
    → (byte_at s a ≡ none) ⊎ (lookup ts a ≡ none)
unfolding lookup
lookup-Apart s [] a h = inr refl
lookup-Apart s (t ∷ ts) a h = elim (byte_at-Apart s t a h.0) [
  | inl e ↦ inl e
  | inr e ↦ elim (lookup-Apart s ts a h.1) [ inl k ↦ inl k | inr k ↦ inr (rw (e, k) refl) ]
]

-- Blocks that are apart from an image.
abbrev IsFree : List Section → List Section → Type 0
IsFree ss bs = All (λ b. All (Apart b) ss) bs

Apart-sym : (b : Section) (ss : List Section) → All (Apart b) ss → All (λ s. Apart s b) ss
Apart-sym b [] h = tt
Apart-sym b (s ∷ ss) h = (omega (arith, h.0), Apart-sym b ss h.1)

-- They are apart from it when one of them has been put into it.
Joins-IsFree :
    {ss : List Section} (b : Section) {r : Result (List Section)}
    (put : Joins ss (record { address = b.address; bytes = b.bytes }) r) (bs : List Section)
    → All IsLow bs
    → All (Apart b) bs
    → IsFree ss bs
    → IsFree put.out bs
Joins-IsFree b put [] l h f = tt
Joins-IsFree b put (c ∷ bs) l h f = (
  put.apart c (omega (arith, l.0)) f.0 (unfold of_block in omega (arith, h.0)),
  Joins-IsFree b put bs l.1 h.1 f.1,
)

Joins-IsLow :
    {ss : List Section} (b : Section) {r : Result (List Section)}
    (put : Joins ss (record { address = b.address; bytes = b.bytes }) r)
    → All IsLow ss
    → IsLow b
    → All IsLow put.out
Joins-IsLow {ss} b put l h =
    let up = high (2 ^ 64 - 2 ^ 32 - 1) in
    Apart-IsLow up.0 put.out up.1 (omega (arith, up.1, up.2)) put.proper (
      put.apart up.0 (omega (arith, up.1, up.2)) (high-Apart up.0 ss up.1 l)
        (inr (unfold of_block in omega (arith, up.1, h))))

pub process_all-Collects :
    (ss bs : List Section)
    → All IsLow ss
    → IsSeparate ss
    → All IsLow bs
    → IsSeparate bs
    → IsFree ss bs
    → Collects ss bs (process_all ss bs)
unfolding process_all lookup touched of_block
process_all-Collects ss [] l s k t f = record {
  out = ss;
  returns = refl;
  low = l;
  separate = s;
  contents = λ a. refl;
  pages = λ a. refl;
}
process_all-Collects ss (b ∷ bs) l s k t f =
    let proper : IsProper b = omega (arith, k.0) in
    let put =
      process-Joins ss b.address b.bytes (IsLow-IsProper ss l) s proper (Apart-sym b ss f.0) in
    let rest =
      process_all-Collects put.out bs (Joins-IsLow b put l k.0) put.separate k.1 t.1
        (Joins-IsFree b put bs k.1 t.0 f.1) in
    rw put.returns (record {
      out = rest.out;
      returns = rest.returns;
      low = rest.low;
      separate = rest.separate;
      contents = λ a.
          rest.contents a
          ∙ ap (or_else (lookup bs a)) (put.contents a)
          ∙ sym (or_else_assoc (lookup bs a) (byte_at b a) (lookup ss a))
          ∙ ap (λ o. or_else o (lookup ss a))
              (sym (or_else-swap (byte_at b a) (lookup bs a) (lookup-Apart b bs a t.0)));
      pages = λ a.
          rw
            (
              rest.pages a,
              process-touched ss b.address b.bytes put.out a (IsLow-IsProper ss l) proper
                  put.returns,
            )
            (ground arith);
    })

-- What programming an image that holds some blocks comes to.
pub record Programs (garbage : List ℕ) (bs : List Section) (r : Result (List Section))
    : Type 0 where
  pub out : List Section
  pub log : List Operation
  pub returns : r ≡ ok out
  pub emits : program garbage out ≡ ok log
  pub flash : (f : Flash) (a : ℕ) → run log f a ≡ programmed bs f a

-- An image with the bytes and the pages of some blocks programs them.
same-programmed :
    (out bs : List Section) (f : Flash) (a : ℕ)
    → lookup out a ≡ lookup bs a
    → touched out a ≡ touched bs a
    → programmed out f a ≡ programmed bs f a
unfolding programmed
same-programmed out bs f a l t =
    ap₂ (λ o u. elim o [ some b ↦ b | none ↦ if u then 0xFF else f a ]) l t

pub image-Programs :
    (garbage : List ℕ) (out bs : List Section)
    → out ≢ []
    → All IsLow out
    → IsSeparate out
    → ((a : ℕ) → lookup out a ≡ lookup bs a)
    → ((a : ℕ) → touched out a ≡ touched bs a)
    → Programs garbage bs (ok out)
image-Programs garbage [] bs ne l s c p = absurd (ne refl)
image-Programs garbage (o ∷ out) bs ne l s c p =
    let done = program-programmed garbage o out l s in
    record {
      out = o ∷ out;
      log = done.0;
      returns = refl;
      emits = done.1;
      flash = λ f a. done.2 f a ∙ same-programmed (o ∷ out) bs f a (c a) (p a);
    }

nil-IsFree : (bs : List Section) → IsFree [] bs
nil-IsFree [] = tt
nil-IsFree (b ∷ bs) = (tt, nil-IsFree bs)

-- Separate blocks that are put into an empty image are programmed.
pub process_all-Programs :
    (garbage : List ℕ) (b : Section) (bs : List Section)
    → All IsLow (b ∷ bs)
    → IsSeparate (b ∷ bs)
    → Programs garbage (b ∷ bs) (process_all [] (b ∷ bs))
unfolding lookup touched
process_all-Programs garbage b bs l s =
    let c = process_all-Collects [] (b ∷ bs) tt tt l s (nil-IsFree (b ∷ bs)) in
    let first = byte_at_within b b.address (omega arith) (omega (arith, l.0)) in
    rw c.returns (
      image-Programs garbage c.out (b ∷ bs)
        (λ e.
          none-ne-some first.0
            (ap (λ o. lookup o b.address) (sym e) ∙ c.contents b.address ∙ rw first.1 refl))
        c.low c.separate (λ a. c.contents a ∙ or_else-swap (lookup (b ∷ bs) a) none (inr refl))
        (λ a. c.pages a ∙ ground arith))
