-- ===== src/Pipeline/Touched.antt =====
-- The pages that an image touches are those of the blocks that are put into it.
use programmer.Prelude.{
  ℕ, ◌+◌, ◌≡◌, refl, subst, ◌∙◌, false, ◌||◌, List, [], ◌∷◌, ◌++◌, All, length, ◌==◌, Bool-cases,
  inl, inr, arith,
}
use programmer.Exceptions.{ok, >>=-ok_inv, ok-injective, throws-ne-ok}
use programmer.Image.{
  process, Section, MemoryBlock, of_block, add, joinable, join_first, end_address,
  block_end_address,
}
use programmer.Image.Contents.{IsProper}
use programmer.ImageProgrammer.Flash.{touches, touched}

touches-append :
    (start : ℕ) (xs ys : List ℕ) (a : ℕ)
    → touches start (xs ++ ys) a ≡ (touches start xs a || touches (start + length xs) ys a)
unfolding touches
touches-append start [] ys a = let e : start + 0 ≡ start = omega arith in rw e refl
touches-append start (x ∷ xs) ys a =
    let e : start + length (x ∷ xs) ≡ start + 1 + length xs = omega arith in
    rw e (ground (arith, touches-append (start + 1) xs ys a))

add-touches :
    (s : Section) (b : MemoryBlock) (out : Section) (a : ℕ)
    → IsProper s
    → IsProper (of_block b)
    → add s b ≡ ok out
    → touches out.address out.bytes a ≡ (touches b.address b.bytes a || touches s.address s.bytes a)
unfolding add of_block block_end_address end_address
add-touches s b out a p q e = elim (Bool-cases (block_end_address b == s.address)) [
  | inl h ↦
      let same : record { address = b.address; bytes = b.bytes ++ s.bytes } ≡ out =
        ok-injective _ out (rw h at e) in
      let next : b.address + length b.bytes ≡ s.address = ground arith in
      subst
        (λ o.
          touches o.address o.bytes a
          ≡ (touches b.address b.bytes a || touches s.address s.bytes a))
        same (touches-append b.address b.bytes s.bytes a ∙ rw next refl)
  | inr h ↦ elim (Bool-cases (b.address == end_address s)) [
    | inl k ↦
        let same : record { address = s.address; bytes = s.bytes ++ b.bytes } ≡ out =
          ok-injective _ out (rw (h, k) at e) in
        let next : s.address + length s.bytes ≡ b.address = ground arith in
        subst
          (λ o.
            touches o.address o.bytes a
            ≡ (touches b.address b.bytes a || touches s.address s.bytes a))
          same (touches-append s.address s.bytes b.bytes a ∙ rw next (ground arith))
    | inr k ↦ absurd (throws-ne-ok _ out (rw (h, k) at e))
  ]
]

join_first-touched :
    (ss : List Section) (b : MemoryBlock) (out : List Section) (a : ℕ)
    → All IsProper ss
    → IsProper (of_block b)
    → join_first ss b ≡ ok out
    → touched out a ≡ (touches b.address b.bytes a || touched ss a)
unfolding join_first touched
join_first-touched [] b out a p q e =
    subst (λ o. touched o a ≡ (touches b.address b.bytes a || false)) (ok-injective _ out e)
      (unfold of_block in refl)
join_first-touched (s ∷ ss) b out a p q e = elim (Bool-cases (joinable s b)) [
  | inl j ↦
      let joined = >>=-ok_inv (add s b) _ out (rw j at e) in
      subst
        (λ o.
          touched o a
          ≡ (touches b.address b.bytes a || (touches s.address s.bytes a || touched ss a)))
        (ok-injective _ out joined.2)
        (rw (add-touches s b joined.0 a p.0 q joined.1) (ground arith))
  | inr j ↦
      let rest = >>=-ok_inv (join_first ss b) _ out (rw j at e) in
      subst
        (λ o.
          touched o a
          ≡ (touches b.address b.bytes a || (touches s.address s.bytes a || touched ss a)))
        (ok-injective _ out rest.2)
        (rw (join_first-touched ss b rest.0 a p.1 q rest.1) (ground arith))
]

pub process-touched :
    (ss : List Section) (address : ℕ) (bytes : List ℕ) (out : List Section) (a : ℕ)
    → All IsProper ss
    → IsProper (record { address = address; bytes = bytes })
    → process ss address bytes ≡ ok out
    → touched out a ≡ (touches address bytes a || touched ss a)
unfolding process of_block
process-touched ss address [] out a p q e = absurd (omega arith)
process-touched ss address (x ∷ xs) out a p q e =
    join_first-touched ss (record { address = address; bytes = x ∷ xs }) out a p q e
