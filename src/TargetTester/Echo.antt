-- ===== src/TargetTester/Echo.antt =====
-- What `prepare_payload` makes: bytes to send, and the answer to them of a device that adds up the
-- bytes by exclusive or.
use programmer.Prelude.{
  ℕ, zero, suc, ◌+◌, ◌/◌, ◌%◌, ◌≤◌, ◌<◌, ◌≡◌, refl, ap, ap₂, sym, ◌∙◌, List, [], ◌∷◌, ◌++◌, length,
  length-append, All, IsByte, bit_xor, leb, ◌==◌, arith, Bool-cases, inl, inr, true,
}
use programmer.Exceptions.{Result, ok}
use programmer.TargetTester.Payload.{fill_word, fill_words, prepare_payload}

-- The sums so far of the bytes, from a first mask on.
abbrev pub answer : ℕ → List ℕ → List ℕ
answer mask [] = []
answer mask (b ∷ bs) = bit_xor mask b ∷ answer (bit_xor mask b) bs

abbrev mask_after : ℕ → List ℕ → ℕ
mask_after mask [] = mask
mask_after mask (b ∷ bs) = mask_after (bit_xor mask b) bs

answer-append :
    (mask : ℕ) (xs ys : List ℕ)
    → answer mask (xs ++ ys) ≡ answer mask xs ++ answer (mask_after mask xs) ys
answer-append mask [] ys = refl
answer-append mask (x ∷ xs) ys = ap (◌∷◌ (bit_xor mask x)) (answer-append (bit_xor mask x) xs ys)

All-append : (xs ys : List ℕ) → All IsByte xs → All IsByte ys → All IsByte (xs ++ ys)
All-append [] ys p q = q
All-append (x ∷ xs) ys p q = (p.0, All-append xs ys p.1 q)

record FillsWord (i size mask : ℕ) (tx check : List ℕ) (mask' left : ℕ) : Type 0 where
  answers : check ≡ answer mask tx
  mask_left : mask' ≡ mask_after mask tx
  count : length tx + left ≡ size
  bytes : All IsByte tx
  moves : 0 < i → 0 < size → left < size

fill_word_lem :
    (i size rand mask : ℕ)
    → let w = fill_word i size rand mask in FillsWord i size mask w.tx w.check w.mask w.size
unfolding fill_word
fill_word_lem zero size rand mask = record {
  answers = refl;
  mask_left = refl;
  count = omega arith;
  bytes = tt;
  moves = λ h k. omega arith;
}
fill_word_lem (suc i) zero rand mask = record {
  answers = refl;
  mask_left = refl;
  count = refl;
  bytes = tt;
  moves = λ h k. omega arith;
}
fill_word_lem (suc i) (suc size) rand mask =
    let rest = fill_word_lem i size (rand / 256) (bit_xor mask (rand % 256)) in
    record {
      answers = ap (◌∷◌ (bit_xor mask (rand % 256))) rest.answers;
      mask_left = rest.mask_left;
      count = omega (arith, rest.count);
      bytes = (omega arith, rest.bytes);
      moves = λ h k. omega (arith, rest.count);
    }

-- The payload of a size: the bytes, what should come back, and the numbers drawn.
pub record Prepares (size mask : ℕ) (r : Result (List ℕ × List ℕ × ℕ)) : Type 0 where
  pub tx : List ℕ
  pub drawn : ℕ
  pub returns : r ≡ ok (tx, answer mask tx, drawn)
  pub count : length tx ≡ size
  pub bytes : All IsByte tx

fill_words-Prepares :
    (fuel : ℕ) (draws : ℕ → ℕ) (drawn size mask : ℕ)
    → size < fuel
    → Prepares size mask (fill_words fuel draws drawn size mask)
unfolding fill_words
fill_words-Prepares zero draws drawn size mask h = absurd (omega arith)
fill_words-Prepares (suc fuel) draws drawn size mask h = elim (Bool-cases (size == 0)) [
  | inl e ↦
      rw e (record { tx = []; drawn = drawn; returns = refl; count = ground arith; bytes = tt })
  | inr e ↦
      let word = fill_word 4 size (draws drawn) mask in
      let w = fill_word_lem 4 size (draws drawn) mask in
      let smaller : word.size < size = w.moves (omega arith) (ground arith) in
      let rest =
        fill_words-Prepares fuel draws (suc drawn) word.size word.mask (omega (arith, smaller)) in
      rw (e, rest.returns)
        (record {
          tx = word.tx ++ rest.tx;
          drawn = rest.drawn;
          returns =
              ap (λ check. ok (word.tx ++ rest.tx, check, rest.drawn))
                (ap₂ (λ xs m. xs ++ answer m rest.tx) w.answers w.mask_left
                  ∙ sym (answer-append mask word.tx rest.tx));
          count = omega (arith, length-append word.tx rest.tx, rest.count, w.count);
          bytes = All-append word.tx rest.tx w.bytes rest.bytes;
        })
]

-- The payload of at most 512 bytes is made without a fault: it has the size asked for, its elements
-- are bytes, and what is kept to check the response is the sums of the bytes by exclusive or, the
-- first with 0x5A.
pub prepare_payload-Prepares :
    (draws : ℕ → ℕ) (drawn size : ℕ)
    → size ≤ 512
    → Prepares size 0x5A (prepare_payload draws drawn size)
unfolding prepare_payload
prepare_payload-Prepares draws drawn size h =
    let fits : leb size 512 ≡ true = ground arith in
    rw fits (fill_words-Prepares (suc size) draws drawn size 0x5A (omega arith))
