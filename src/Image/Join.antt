-- ===== src/Image/Join.antt =====
-- `Image::process` on blocks: which sections result, and what they hold.
use programmer.Prelude.{
  ℕ, ◌≡◌, refl, inl, inr, List, [], ◌∷◌, ◌++◌, All, length-append, arith, Bool-cases, true,
}
use programmer.Exceptions.{Result, ok, throw, IsDefined, >>=-IsDefined, if-IsDefined}
use programmer.Image.{
  Section, MemoryBlock, of_block, end_address, block_end_address, add, joinable, join_first,
  process,
}
use programmer.Image.Contents.{
  or_else, or_else-swap, or_else_assoc, byte_at, lookup, limit, IsProper, Apart, IsSeparate,
  byte_at-append, byte_at-Apart,
}

-- The section that a block becomes behind or in front of a section that it touches.
record Touches (s : Section) (b : MemoryBlock) (r : Result Section) : Type 0 where
  out : Section
  returns : r ≡ ok out
  proper : IsProper out
  contents : (a : ℕ) → byte_at out a ≡ or_else (byte_at (of_block b) a) (byte_at s a)
  apart : (t : Section) → IsProper t → Apart t s → Apart t (of_block b) → Apart t out

module _ (s : Section) (b : MemoryBlock) (proper_s : IsProper s)
    (proper_b : IsProper (of_block b)) where
  add_before : limit (of_block b) ≡ s.address → Touches s b (add s b)
  unfolding add block_end_address of_block
  add_before e = record {
    out = record { address = b.address; bytes = b.bytes ++ s.bytes };
    returns = ground arith;
    proper = omega (arith, length-append b.bytes s.bytes);
    contents = λ a. ground (arith, byte_at-append b.address b.bytes s.bytes a);
    apart = λ t q h k. omega (arith, length-append b.bytes s.bytes);
  }

  add_after : limit s ≡ b.address → Touches s b (add s b)
  unfolding add block_end_address end_address of_block
  add_after e = record {
    out = record { address = s.address; bytes = s.bytes ++ b.bytes };
    returns = ground arith;
    proper = omega (arith, length-append s.bytes b.bytes);
    contents = λ a. ground (
      arith,
      byte_at-append s.address s.bytes b.bytes a,
      or_else-swap (byte_at s a) (byte_at (of_block b) a),
      byte_at-Apart s (of_block b) a (inl (omega arith)),
    );
    apart = λ t q h k. omega (arith, length-append s.bytes b.bytes);
  }

  -- A section that a block can be joined to without an overlap touches it at one end.
  joinable-Touches : Apart s (of_block b) → joinable s b ≡ true → Touches s b (add s b)
  unfolding joinable block_end_address end_address of_block
  joinable-Touches (inl h) j = add_after (ground arith)
  joinable-Touches (inr h) j = add_before (ground arith)

Apart-sym : (s t : Section) → Apart s t → Apart t s
Apart-sym s t (inl h) = inr h
Apart-sym s t (inr h) = inl h

Touches-Apart :
    {s : Section} {b : MemoryBlock} {r : Result Section} (t : Touches s b r) (ss : List Section)
    → All IsProper ss
    → All (Apart s) ss
    → All (λ x. Apart x (of_block b)) ss
    → All (Apart t.out) ss
Touches-Apart t [] ps h k = tt
Touches-Apart {s} t (x ∷ ss) ps h k =
    (Apart-sym x t.out (t.apart x ps.0 (Apart-sym s x h.0) k.0), Touches-Apart t ss ps.1 h.1 k.1)

-- The sections after `process`: separate, and holding the block and all that was there.
pub record Joins (ss : List Section) (b : MemoryBlock) (r : Result (List Section)) : Type 0 where
  pub out : List Section
  pub returns : r ≡ ok out
  pub proper : All IsProper out
  pub separate : IsSeparate out
  pub contents : (a : ℕ) → lookup out a ≡ or_else (byte_at (of_block b) a) (lookup ss a)
  pub apart :
      (t : Section) → IsProper t → All (Apart t) ss → Apart t (of_block b) → All (Apart t) out

join_first-Joins :
    (ss : List Section) (b : MemoryBlock)
    → All IsProper ss
    → IsSeparate ss
    → IsProper (of_block b)
    → All (λ s. Apart s (of_block b)) ss
    → Joins ss b (join_first ss b)
unfolding join_first lookup
join_first-Joins [] b ps sep pb ap = record {
  out = of_block b ∷ [];
  returns = refl;
  proper = (pb, tt);
  separate = (tt, tt);
  contents = λ a. refl;
  apart = λ t q h k. (k, tt);
}
join_first-Joins (s ∷ ss) b ps sep pb ap = elim (Bool-cases (joinable s b)) [
  | inl j ↦
      rw (j, join_first)
        (let touched = joinable-Touches s b ps.0 pb ap.0 j in
          record {
            out = touched.out ∷ ss;
            returns = rw touched.returns;
            proper = (touched.proper, ps.1);
            separate = (Touches-Apart touched ss ps.1 sep.0 ap.1, sep.1);
            contents = λ a.
                rw touched.contents
                  (or_else_assoc (byte_at (of_block b) a) (byte_at s a) (lookup ss a));
            apart = λ t q h k. (touched.apart t q h.0 k, h.1);
          })
  | inr j ↦
      rw (j, join_first)
        (let rest = join_first-Joins ss b ps.1 sep.1 pb ap.1 in
          record {
            out = s ∷ rest.out;
            returns = rw rest.returns;
            proper = (ps.0, rest.proper);
            separate = (rest.apart s ps.0 sep.0 ap.0, rest.separate);
            contents = λ a. ground (
              arith,
              rest.contents a,
              or_else-swap (byte_at s a) (byte_at (of_block b) a)
                  (byte_at-Apart s (of_block b) a ap.0),
              or_else_assoc (byte_at s a) (byte_at (of_block b) a) (lookup ss a),
              or_else_assoc (byte_at (of_block b) a) (byte_at s a) (lookup ss a),
            );
            apart = λ t q h k. (h.0, rest.apart t q h.1 k);
          })
]

-- A block that overlaps no section of a separate image is taken without an exception: the
-- sections stay separate and proper, and the image holds the block and what it held before.
pub process-Joins :
    (ss : List Section) (address : ℕ) (bytes : List ℕ)
    → All IsProper ss
    → IsSeparate ss
    → IsProper (record { address = address; bytes = bytes })
    → All (λ s. Apart s (record { address = address; bytes = bytes })) ss
    → Joins ss (record { address = address; bytes = bytes }) (process ss address bytes)
unfolding process of_block
process-Joins ss address [] ps sep pb h = absurd (omega arith)
process-Joins ss address (x ∷ xs) ps sep pb h =
    join_first-Joins ss (record { address = address; bytes = x ∷ xs }) ps sep pb h

-- A block that overlaps the first section which it reaches is refused.
pub process_overlap :
    (s : Section) (ss : List Section) (address x : ℕ) (bytes : List ℕ)
    → IsProper s
    → IsProper (record { address = address; bytes = x ∷ bytes })
    → ¬ Apart s (record { address = address; bytes = x ∷ bytes })
    → process (s ∷ ss) address (x ∷ bytes) ≡ throw "Overlapping memory blocks."
unfolding process join_first add joinable block_end_address end_address
process_overlap s ss address x bytes ps pb h = ground (arith, h)

-- The check compares with that section only. Where the block touches the end of one section and
-- overlaps a later one, it is joined to the first, and the image has two sections that overlap.
pub process_misses_overlap :
    (s t : Section) (ss : List Section) (x : ℕ) (bytes : List ℕ)
    → IsProper s
    → IsProper (record { address = limit s; bytes = x ∷ bytes })
    → ¬ Apart t (record { address = limit s; bytes = x ∷ bytes })
    → (u : Section) × (process (s ∷ t ∷ ss) (limit s) (x ∷ bytes) ≡ ok (u ∷ t ∷ ss)) × (¬ Apart t u)
unfolding process join_first add joinable block_end_address end_address
process_misses_overlap s t ss x bytes ps pb h = (
  record { address = s.address; bytes = s.bytes ++ x ∷ bytes },
  ground arith,
  λ a. h (omega (arith, length-append s.bytes (x ∷ bytes))),
)

add-IsDefined : (s : Section) (b : MemoryBlock) → IsDefined (add s b)
unfolding add
add-IsDefined s b = ground arith

join_first-IsDefined : (ss : List Section) (b : MemoryBlock) → IsDefined (join_first ss b)
unfolding join_first
join_first-IsDefined [] b = tt
join_first-IsDefined (s ∷ ss) b =
    let added = >>=-IsDefined (add s b) _ (add-IsDefined s b) λ s' e. tt in
    let joined = >>=-IsDefined (join_first ss b) _ (join_first-IsDefined ss b) λ ss' e. tt in
    if-IsDefined (joinable s b) _ _ added joined

-- A block is put into an image, or refused.
pub process-IsDefined :
    (ss : List Section) (address : ℕ) (bytes : List ℕ) → IsDefined (process ss address bytes)
unfolding process
process-IsDefined ss address [] = tt
process-IsDefined ss address (x ∷ xs) = join_first-IsDefined ss _
