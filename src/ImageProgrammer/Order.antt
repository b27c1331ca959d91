-- ===== src/ImageProgrammer/Order.antt =====
-- Sorting the sections: the result is a chain, and holds what the image holds.
use programmer.Prelude.{
  ℕ, ◌^◌, ◌≤◌, ◌<◌, ◌≡◌, refl, ◌∙◌, ap, ◌≢◌, inl, inr, ◌||◌, List, [], ◌∷◌, All, length, arith, ltb,
  Bool-cases,
}
use programmer.Image.{Section}
use programmer.Image.Contents.{
  or_else, or_else-swap, or_else_assoc, byte_at, lookup, limit, Apart, byte_at-Apart, IsSeparate,
}
use programmer.ImageProgrammer.{insert, sort}
use programmer.ImageProgrammer.Flash.{touches, touched}
use programmer.ImageProgrammer.Copy.{Chain}

-- The sections of a 32-bit address space that hold at least a byte.
abbrev pub IsLow : Section → Type 0
IsLow s = (0 < length s.bytes) × (limit s ≤ 2 ^ 32)

insert-Chain :
    (s : Section) (ts : List Section) (lo : ℕ)
    → IsLow s
    → lo ≤ s.address
    → All (Apart s) ts
    → All IsLow ts
    → Chain lo ts
    → Chain lo (insert s ts)
unfolding insert
insert-Chain s [] lo q h k l c = (h, q.1, tt)
insert-Chain s (t ∷ ts) lo q h k l c = elim (Bool-cases (ltb t.address s.address)) [
  | inl e ↦ rw e (c.0, c.1, insert-Chain s ts (limit t) q (ground (arith, k.0)) k.1 l.1 c.2)
  | inr e ↦ rw e (h, q.1, (ground (arith, k.0, l.0), c.1, c.2))
]

All-insert :
    (P : Section → Type 0) (s : Section) (ts : List Section) → P s → All P ts → All P (insert s ts)
unfolding insert
All-insert P s [] h k = (h, tt)
All-insert P s (t ∷ ts) h k = elim (Bool-cases (ltb t.address s.address)) [
  | inl e ↦ rw e (k.0, All-insert P s ts h k.1)
  | inr e ↦ rw e (h, k)
]

pub All-sort : (P : Section → Type 0) (ss : List Section) → All P ss → All P (sort ss)
unfolding sort
All-sort P [] h = tt
All-sort P (s ∷ ss) h = All-insert P s (sort ss) h.0 (All-sort P ss h.1)

pub sort-Chain : (ss : List Section) → All IsLow ss → IsSeparate ss → Chain 0 (sort ss)
unfolding sort
sort-Chain [] h k = tt
sort-Chain (s ∷ ss) h k =
    insert-Chain s (sort ss) 0 h.0 (omega arith) (All-sort (Apart s) ss k.0) (All-sort IsLow ss h.1)
      (sort-Chain ss h.1 k.1)

lookup-insert :
    (s : Section) (ts : List Section) (a : ℕ)
    → All (Apart s) ts
    → lookup (insert s ts) a ≡ or_else (byte_at s a) (lookup ts a)
unfolding insert lookup
lookup-insert s [] a h = refl
lookup-insert s (t ∷ ts) a h = elim (Bool-cases (ltb t.address s.address)) [
  | inl e ↦ rw e (
      ap (or_else (byte_at t a)) (lookup-insert s ts a h.1)
      ∙ ground (
        arith,
        or_else_assoc (byte_at t a) (byte_at s a) (lookup ts a),
        or_else_assoc (byte_at s a) (byte_at t a) (lookup ts a),
        or_else-swap (byte_at s a) (byte_at t a) (byte_at-Apart s t a h.0),
      ))
  | inr e ↦ rw e
]

pub lookup-sort : (ss : List Section) (a : ℕ) → IsSeparate ss → lookup (sort ss) a ≡ lookup ss a
unfolding sort lookup
lookup-sort [] a h = refl
lookup-sort (s ∷ ss) a h =
    lookup-insert s (sort ss) a (All-sort (Apart s) ss h.0)
    ∙ ap (or_else (byte_at s a)) (lookup-sort ss a h.1)

touched-insert :
    (s : Section) (ts : List Section) (a : ℕ)
    → touched (insert s ts) a ≡ (touches s.address s.bytes a || touched ts a)
unfolding insert touched
touched-insert s [] a = refl
touched-insert s (t ∷ ts) a = ground (arith, touched-insert s ts a)

pub touched-sort : (ss : List Section) (a : ℕ) → touched (sort ss) a ≡ touched ss a
unfolding sort touched
touched-sort [] a = refl
touched-sort (s ∷ ss) a =
    touched-insert s (sort ss) a ∙ ap (◌||◌ (touches s.address s.bytes a)) (touched-sort ss a)

pub sort-ne-nil : (s : Section) (ss : List Section) → sort (s ∷ ss) ≢ []
unfolding sort
sort-ne-nil s ss = insert-ne-nil (sort ss)
  where
    insert-ne-nil : (ts : List Section) → insert s ts ≢ []
    insert-ne-nil [] e = unfold insert in cc e
    insert-ne-nil (t ∷ ts) e = unfold insert in ground (arith, e)
