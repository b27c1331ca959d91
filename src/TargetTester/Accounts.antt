-- ===== src/TargetTester/Accounts.antt =====
-- The accounts of `received`: what a response does to the queue and to the statistics.
use programmer.Prelude.{
  ℕ, ◌+◌, ◌^◌, ◌≤◌, ◌<◌, ◌≡◌, ◌≢◌, refl, ap, ◌∙◌, ◌⊎◌, inl, inr, Bool, true, false, List, [], ◌∷◌,
  ◌++◌, length, drop, min, u32, ltb, ◌==◌, arith, Bool-cases,
}
use programmer.Exceptions.{Result, ok, fault, Fault}
use programmer.TargetTester.Wire.{Response, response_of}
use programmer.TargetTester.{
  Frame, Stats, Tester, count_rx, find_request, same_bytes, check_payload, accept, received,
}
use programmer.TargetTester.Delivery.{
  Others, lost, drop_until-Finds, drop_until-fault, same_bytes_lem,
}

-- No counter is about to wrap.
pub record IsSmall (s : Stats) (count : ℕ) : Type 0 where
  pub rx : s.rx + 1 < 2 ^ 32
  pub losses : lost s + count < 2 ^ 32
  pub seq_mismatch : s.seq_mismatch + 1 < 2 ^ 32
  pub payload_size : s.payload_size + 1 < 2 ^ 32
  pub payload_invalid : s.payload_invalid + 1 < 2 ^ 32

-- The bytes behind the response's registers are those that the request wants, or one is counted.
abbrev pub Checked : Frame → List ℕ → Stats → Stats → Type 0
Checked f payload s s' =
    ((payload ≡ f.payload)
      × (s'.payload_size ≡ s.payload_size)
      × (s'.payload_invalid ≡ s.payload_invalid))
    ⊎ ((payload ≢ f.payload)
        × (s'.payload_size + s'.payload_invalid ≡ s.payload_size + s.payload_invalid + 1))

check_payload-Checked :
    (f : Frame) (payload : List ℕ) (s : Stats)
    → f.payload_size ≡ length f.payload
    → s.payload_size + 1 < 2 ^ 32
    → s.payload_invalid + 1 < 2 ^ 32
    → Checked f payload s (check_payload f payload s)
unfolding check_payload
check_payload-Checked f payload s e h k = elim (Bool-cases (length payload == f.payload_size)) [
  | inl a ↦ elim (same_bytes_lem payload f.payload (ground (arith, e))) [
    | inl (b, c) ↦ rw (a, b) (inl (c, refl, refl))
    | inr (b, c) ↦ rw (a, b) (inr (c, omega arith))
  ]
  | inr a ↦ rw a (
      inr (
        λ (p : payload ≡ f.payload).
            (let q : length payload ≡ length f.payload = ap length p in ground (arith, e, q)),
        omega arith,
      ))
]

-- Only two counters of the statistics before the check matter.
Checked-same :
    (f : Frame) (payload : List ℕ) (s u s' : Stats)
    → s.payload_size ≡ u.payload_size
    → s.payload_invalid ≡ u.payload_invalid
    → Checked f payload s s'
    → Checked f payload u s'
Checked-same f payload s u s' e k (inl c) = inl (c.0, c.1 ∙ e, c.2 ∙ k)
Checked-same f payload s u s' e k (inr c) = inr (c.0, omega (arith, c.1))

check_payload_others :
    (f : Frame) (payload : List ℕ) (s : Stats)
    → (lost (check_payload f payload s) ≡ lost s)
      × ((check_payload f payload s).rx ≡ s.rx)
      × ((check_payload f payload s).seq_mismatch ≡ s.seq_mismatch)
unfolding check_payload
check_payload_others f payload s = elim (Bool-cases (length payload == f.payload_size)) [
  | inl a ↦ elim (Bool-cases (same_bytes payload f.payload)) [
    | inl b ↦ rw (a, b) (refl, refl, refl)
    | inr b ↦ rw (a, b) (refl, refl, refl)
  ]
  | inr a ↦ rw a (refl, refl, refl)
]

-- What `find_request` does: the mismatch is counted once, and the loop runs.
record Requests (before : List Frame) (s : Stats) (rest : List Frame)
    (r : Result (List Frame × Stats)) : Type 0 where
  stats : Stats
  returns : r ≡ ok (rest, stats)
  losses : lost stats ≡ lost s + length before
  rx : stats.rx ≡ s.rx
  seq_mismatch : stats.seq_mismatch ≡ s.seq_mismatch + min 1 (length before)
  payload_size : stats.payload_size ≡ s.payload_size
  payload_invalid : stats.payload_invalid ≡ s.payload_invalid

find_request-Requests :
    (r : Response) (before : List Frame) (f : Frame) (after : List Frame) (s : Stats)
    → Others r.cur_seq before
    → r.cur_seq ≡ f.seq
    → lost s + length before < 2 ^ 32
    → s.seq_mismatch + 1 < 2 ^ 32
    → Requests before s (f ∷ after) (find_request r (before ++ f ∷ after) s)
unfolding find_request
find_request-Requests r [] f after s o e h k =
    let same : (r.cur_seq == f.seq) ≡ true = ground arith in
    rw same (record {
      stats = s;
      returns = refl;
      losses = omega arith;
      rx = refl;
      seq_mismatch = omega arith;
      payload_size = refl;
      payload_invalid = refl;
    })
find_request-Requests r (g ∷ before) f after s o e h k =
    let other : (r.cur_seq == g.seq) ≡ false = ground (arith, o.0) in
    let counted = record s { seq_mismatch = u32 (s.seq_mismatch + 1) } in
    let found = drop_until-Finds r (g ∷ before) f after counted o e h in
    rw other (record {
      stats = found.stats;
      returns = found.returns;
      losses = found.loses.total;
      rx = found.loses.rx;
      seq_mismatch = omega (arith, found.loses.seq_mismatch);
      payload_size = found.loses.payload_size;
      payload_invalid = found.loses.payload_invalid;
    })

-- What a response to a frame of the queue comes to.
pub record Delivers (t : Tester) (bytes : List ℕ) (before : List Frame) (f : Frame)
    (after : List Frame) (r : Result (Tester × Bool)) : Type 0 where
  pub next : Tester
  pub returns : r ≡ ok (next, true)
  pub queue : next.queue ≡ after
  pub losses : lost next.stats ≡ lost t.stats + length before
  pub rx : next.stats.rx ≡ t.stats.rx + 1
  pub seq_mismatch : next.stats.seq_mismatch ≡ t.stats.seq_mismatch + min 1 (length before)
  pub checked : Checked f (drop 28 bytes) t.stats next.stats

-- A response of at least 28 bytes whose number is that of a frame of the queue takes this frame and
-- those before it off the queue. Each frame before it counts as lost, in one of two counters, and
-- one mismatch is counted if there is any; the payload is that of the frame, or counts as wrong
-- once. The frame's payload has the size that the frame says, and no counter wraps.
pub received-Delivers :
    (t : Tester) (bytes : List ℕ) (before : List Frame) (f : Frame) (after : List Frame)
    → t.queue ≡ before ++ f ∷ after
    → 28 ≤ length bytes
    → Others (response_of bytes).cur_seq before
    → (response_of bytes).cur_seq ≡ f.seq
    → f.payload_size ≡ length f.payload
    → IsSmall t.stats (length before)
    → Delivers t bytes before f after (received bytes t)
unfolding received accept count_rx
received-Delivers t bytes before f after q l o e p small =
    let long : ltb (length bytes) 28 ≡ false = ground arith in
    let s = count_rx t.stats (length bytes) in
    let s_rx : s.rx ≡ t.stats.rx + 1 = omega (arith, small.rx) in
    let found =
      find_request-Requests (response_of bytes) before f after s o e (small.losses)
        (small.seq_mismatch) in
    let stays = check_payload_others f (drop 28 bytes) found.stats in
    rw (long, q, found.returns)
      (record {
        next = _;
        returns = refl;
        queue = refl;
        losses = stays.0 ∙ found.losses;
        rx = stays.1 ∙ found.rx ∙ s_rx;
        seq_mismatch = stays.2 ∙ found.seq_mismatch;
        checked =
            Checked-same f (drop 28 bytes) found.stats s
              (check_payload f (drop 28 bytes) found.stats) found.payload_size found.payload_invalid
              (check_payload-Checked f (drop 28 bytes) found.stats p
                (omega (arith, found.payload_size, small.payload_size))
                (omega (arith, found.payload_invalid, small.payload_invalid)));
      })

missing :
    (r : Response) (fs : List Frame) (s : Stats)
    → Others r.cur_seq fs
    → find_request r fs s ≡ fault Fault.out_of_bounds
unfolding find_request
missing r [] s o = refl
missing r (f ∷ fs) s o =
    let other : (r.cur_seq == f.seq) ≡ false = ground (arith, o.0) in
    rw other (drop_until-fault r (f ∷ fs) _ o)

-- A response whose number is that of no frame of the queue empties the queue and reads its front.
pub received-fault :
    (t : Tester) (bytes : List ℕ)
    → 28 ≤ length bytes
    → Others (response_of bytes).cur_seq t.queue
    → received bytes t ≡ fault Fault.out_of_bounds
unfolding received
received-fault t bytes l o =
    let long : ltb (length bytes) 28 ≡ false = ground arith in
    rw (long, missing (response_of bytes) t.queue (count_rx t.stats (length bytes)) o)
