-- ===== src/NetworkProgrammer/Verdict.antt =====
-- What `process` decides of a frame, and what ETarget says.
use Prim.Native.String.{String}
use programmer.Prelude.{
  ℕ, ◌≡◌, refl, ap, not, List, [], ◌∷◌, ◌==◌, arith, Bool-cases, ◌⊎◌, inl, inr,
}
use programmer.Exceptions.{Result, ok, throws, Thrown, target_error, text}
use programmer.Protocol.Header
use programmer.Protocol.Status
use programmer.NetworkProgrammer.Process.{
  Reaction, ignore, extend_time, done, classify, react, takes_time, e_target, switch, fall_through,
  messages,
}

-- A reply to the request in the transmit buffer that says it is carried out.
pub record IsAnswer (tx rx : List ℕ) : Type 0 where
  pub version : Header.version rx ≡ 1
  pub seq : Header.seq rx ≡ Header.seq tx
  pub operation : Header.operation rx ≡ Header.operation tx
  pub status : Header.status rx ≡ Status.done

abbrev pub Verdict : List ℕ → List ℕ → Result Reaction → Type 0
Verdict tx rx r =
    ((r ≡ ok done) × IsAnswer tx rx)
    ⊎ ((r ≡ ok ignore) ⊎ ((r ≡ ok extend_time) ⊎ ((e : Thrown) × (r ≡ throws e))))

pub classify-Verdict : (tx rx : List ℕ) → Verdict tx rx (classify tx rx)
unfolding classify react
classify-Verdict tx rx = elim (Bool-cases (not (Header.version rx == 1))) [
  | inl a ↦ rw a (inr (inr (inr (_, refl))))
  | inr a ↦ elim (Bool-cases (not (Header.seq rx == Header.seq tx))) [
    | inl b ↦ inr (inl (rw (a, b) refl))
    | inr b ↦ elim (Bool-cases (not (Header.operation rx == Header.operation tx))) [
      | inl c ↦ rw (a, b, c) (inr (inr (inr (_, refl))))
      | inr c ↦ elim (Bool-cases (Header.status rx == Status.done)) [
        | inl d ↦ inl (
          rw (a, b, c, d) refl,
          record {
            version = ground arith;
            seq = ground arith;
            operation = ground arith;
            status = ground arith;
          },
        )
        | inr d ↦ elim (Bool-cases (Header.status rx == Status.in_progress)) [
          | inl e ↦ elim (Bool-cases (not (takes_time (Header.operation rx)))) [
            | inl f ↦ rw (a, b, c, d, e, f) (inr (inr (inr (_, refl))))
            | inr f ↦ inr (inr (inl (rw (a, b, c, d, e, f) refl)))
          ]
          | inr e ↦ rw (a, b, c, d, e) (inr (inr (inr (_, refl))))
        ]
      ]
    ]
  ]
]

abbrev last_message : String
last_message = "Target reported an invalid status."

fall_through_lem :
    (ms : List (ℕ × String)) (message : String) → fall_through ms message ≡ last_message
unfolding fall_through
fall_through_lem [] message = refl
fall_through_lem (m ∷ ms) message = fall_through_lem ms m.1

switch_lem : (ms : List (ℕ × String)) (status : ℕ) → switch ms status ≡ last_message
unfolding switch
switch_lem [] status = refl
switch_lem (m ∷ ms) status = elim (Bool-cases (status == m.0)) [
  | inl e ↦ rw e (fall_through_lem ms m.1)
  | inr e ↦ rw e (switch_lem ms status)
]

-- Whatever status the device reports, ETarget says that it reported an invalid status: control
-- falls through every case of the switch to the last assignment.
pub e_target_lem :
    (status : ℕ)
    → e_target status ≡ target_error status (text "Target reported an invalid status." ∷ [])
unfolding e_target
e_target_lem status = ap (λ m. target_error status (text m ∷ [])) (switch_lem messages status)
