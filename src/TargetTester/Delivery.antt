-- ===== src/TargetTester/Delivery.antt =====
-- What `received` makes of a response: the request that it answers, the frames that were lost, and
-- the statistics.
use programmer.Prelude.{
  ℕ, ◌+◌, ◌^◌, ◌<◌, ◌≡◌, ◌≢◌, refl, ap₂, ◌∙◌, ◌⊎◌, inl, inr, true, false, List, [], ◌∷◌, ◌++◌,
  length, All, u32, ◌==◌, arith, Bool-cases,
}
use programmer.Exceptions.{Result, ok, fault, Fault}
use programmer.TargetTester.Wire.{Response}
use programmer.TargetTester.{Frame, Stats, count_lost, drop_until, same_bytes}

-- The frames of the queue before the one that a number belongs to.
abbrev pub Others : ℕ → List Frame → Type 0
Others seq fs = All (λ f. seq ≢ f.seq) fs

-- The frames lost, whichever way.
abbrev pub lost : Stats → ℕ
lost s = s.lost_tx + s.lost_rx

-- What the count of lost frames leaves as it is.
pub record Loses (n : ℕ) (s s' : Stats) : Type 0 where
  pub total : lost s' ≡ lost s + n
  pub rx : s'.rx ≡ s.rx
  pub tx : s'.tx ≡ s.tx
  pub seq_mismatch : s'.seq_mismatch ≡ s.seq_mismatch
  pub payload_size : s'.payload_size ≡ s.payload_size
  pub payload_invalid : s'.payload_invalid ≡ s.payload_invalid

count_lost-Loses : (r : Response) (s : Stats) → lost s + 1 < 2 ^ 32 → Loses 1 s (count_lost r s)
unfolding count_lost
count_lost-Loses r s h = elim (Bool-cases (u32 (r.last_seq + 1) == r.cur_seq)) [
  | inl e ↦ rw e (record {
    total = omega arith;
    rx = refl;
    tx = refl;
    seq_mismatch = refl;
    payload_size = refl;
    payload_invalid = refl;
  })
  | inr e ↦ rw e (record {
    total = omega arith;
    rx = refl;
    tx = refl;
    seq_mismatch = refl;
    payload_size = refl;
    payload_invalid = refl;
  })
]

-- The loop ends at the request.
pub record Finds (n : ℕ) (s : Stats) (rest : List Frame) (r : Result (List Frame × Stats))
    : Type 0 where
  pub stats : Stats
  pub returns : r ≡ ok (rest, stats)
  pub loses : Loses n s stats

pub drop_until-Finds :
    (r : Response) (before : List Frame) (f : Frame) (after : List Frame) (s : Stats)
    → Others r.cur_seq before
    → r.cur_seq ≡ f.seq
    → lost s + length before < 2 ^ 32
    → Finds (length before) s (f ∷ after) (drop_until r (before ++ f ∷ after) s)
unfolding drop_until
drop_until-Finds r [] f after s o e h =
    let same : (r.cur_seq == f.seq) ≡ true = ground arith in
    rw same (record {
      stats = s;
      returns = refl;
      loses = record {
        total = omega arith;
        rx = refl;
        tx = refl;
        seq_mismatch = refl;
        payload_size = refl;
        payload_invalid = refl;
      };
    })
drop_until-Finds r (g ∷ before) f after s o e h =
    let other : (r.cur_seq == g.seq) ≡ false = ground (arith, o.0) in
    let one = count_lost-Loses r s (omega (arith, h)) in
    let rest =
      drop_until-Finds r before f after (count_lost r s) o.1 e (omega (arith, one.total, h)) in
    rw other (record {
      stats = rest.stats;
      returns = rest.returns;
      loses = record {
        total = omega (arith, rest.loses.total, one.total);
        rx = rest.loses.rx ∙ one.rx;
        tx = rest.loses.tx ∙ one.tx;
        seq_mismatch = rest.loses.seq_mismatch ∙ one.seq_mismatch;
        payload_size = rest.loses.payload_size ∙ one.payload_size;
        payload_invalid = rest.loses.payload_invalid ∙ one.payload_invalid;
      };
    })

pub drop_until-fault :
    (r : Response) (fs : List Frame) (s : Stats)
    → Others r.cur_seq fs
    → drop_until r fs s ≡ fault Fault.out_of_bounds
unfolding drop_until
drop_until-fault r [] s o = refl
drop_until-fault r (f ∷ fs) s o =
    let other : (r.cur_seq == f.seq) ≡ false = ground (arith, o.0) in
    rw other (drop_until-fault r fs (count_lost r s) o.1)

pub same_bytes_lem :
    (xs ys : List ℕ)
    → length xs ≡ length ys
    → ((same_bytes xs ys ≡ true) × (xs ≡ ys)) ⊎ ((same_bytes xs ys ≡ false) × (xs ≢ ys))
unfolding same_bytes
same_bytes_lem [] [] h = inl (refl, refl)
same_bytes_lem [] (y ∷ ys) h = absurd (omega (arith, h))
same_bytes_lem (x ∷ xs) [] h = absurd (omega (arith, h))
same_bytes_lem (x ∷ xs) (y ∷ ys) h = elim (same_bytes_lem xs ys (omega (arith, h))) [
  | inl (a, b) ↦ elim (Bool-cases (x == y)) [
    | inl e ↦ inl (rw (e, a), ap₂ ◌∷◌ (ground arith) b)
    | inr e ↦ inr (rw e, λ (p : x ∷ xs ≡ y ∷ ys). ground arith)
  ]
  | inr (a, b) ↦ inr (ground arith, λ (p : x ∷ xs ≡ y ∷ ys). b (cc))
]
