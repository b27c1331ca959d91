-- ===== src/TargetTester/Turns.antt =====
-- The loops of `test` over what arrives: the queue keeps its level.
use programmer.Prelude.{
  ℕ, ◌+◌, ◌≤◌, ◌<◌, ◌≡◌, refl, ap, sym, subst, ◌∙◌, true, false, List, [], ◌∷◌, ◌++◌, length,
  length-append, All, u32, ltb, ◌==◌, arith,
}
use programmer.Exceptions.{Result, ok, ◌>>=◌}
use programmer.TargetTester.Wire.{Response, response_of}
use programmer.TargetTester.{
  Frame, Stats, Tester, count_rx, count_lost, drop_until, find_request, accept, received, timeout,
  send,
}
use programmer.TargetTester.Loops.{Event, packet, deadline, refill, turn, turns, fill}
use programmer.TargetTester.Delivery.{Others}
use programmer.TargetTester.Sends.{IsFrame, IsFilled, send-Adds, Fills, fill-Fills, All-snoc}

-- The part of a queue behind a frame.
All-behind :
    (before : List Frame) (f : Frame) (after : List Frame)
    → All IsFrame (before ++ f ∷ after)
    → All IsFrame after
All-behind [] f after a = a.1
All-behind (g ∷ before) f after a = All-behind before f after a.1

-- The front of the queue when the loop ends.
drop_until_found :
    (r : Response) (before : List Frame) (f : Frame) (after : List Frame) (s : Stats)
    → Others r.cur_seq before
    → r.cur_seq ≡ f.seq
    → (s' : Stats) × (drop_until r (before ++ f ∷ after) s ≡ ok (f ∷ after, s'))
unfolding drop_until
drop_until_found r [] f after s o e =
    let same : (r.cur_seq == f.seq) ≡ true = ground arith in (s, rw same)
drop_until_found r (g ∷ before) f after s o e =
    let other : (r.cur_seq == g.seq) ≡ false = ground (arith, o.0) in
    let rest = drop_until_found r before f after (count_lost r s) o.1 e in (rest.0, rw other rest.1)

find_request_found :
    (r : Response) (before : List Frame) (f : Frame) (after : List Frame) (s : Stats)
    → Others r.cur_seq before
    → r.cur_seq ≡ f.seq
    → (s' : Stats) × (find_request r (before ++ f ∷ after) s ≡ ok (f ∷ after, s'))
unfolding find_request
find_request_found r [] f after s o e =
    let same : (r.cur_seq == f.seq) ≡ true = ground arith in (s, rw same)
find_request_found r (g ∷ before) f after s o e =
    let other : (r.cur_seq == g.seq) ≡ false = ground (arith, o.0) in
    let rest =
      drop_until_found r (g ∷ before) f after (record s { seq_mismatch = u32 (s.seq_mismatch + 1) })
        o e in
    (rest.0, rw other rest.1)

received_queue :
    (t : Tester) (bytes : List ℕ) (before : List Frame) (f : Frame) (after : List Frame)
    → t.queue ≡ before ++ f ∷ after
    → 28 ≤ length bytes
    → Others (response_of bytes).cur_seq before
    → (response_of bytes).cur_seq ≡ f.seq
    → (t' : Tester) × (received bytes t ≡ ok (t', true)) × (t'.queue ≡ after)
unfolding received accept
received_queue t bytes before f after q l o e =
    let long : ltb (length bytes) 28 ≡ false = ground arith in
    let found =
      find_request_found (response_of bytes) before f after (count_rx t.stats (length bytes)) o e in
    rw (long, q, found.1) (_, refl, refl)

-- What can arrive: a response to a frame of the queue, or a datagram too short to be a response, in
-- at most 512 bytes; or nothing in time.
pub data CanHappen (t : Tester) : Event → Type 0 where
  answered :
      (bytes : List ℕ) (before : List Frame) (f : Frame) (after : List Frame)
      → t.queue ≡ before ++ f ∷ after
      → 28 ≤ length bytes
      → length bytes ≤ 512
      → Others (response_of bytes).cur_seq before
      → (response_of bytes).cur_seq ≡ f.seq
      → CanHappen t (packet bytes)
  short : (bytes : List ℕ) → length bytes < 28 → CanHappen t (packet bytes)
  late : CanHappen t deadline

-- A turn that ends with a filled queue, one frame longer at most, and that only at a deadline.
abbrev late_frames : Event → ℕ
late_frames (packet bytes) = 0
late_frames deadline = 1

pub record Turns (t : Tester) (longer : ℕ) (r : Result Tester) : Type 0 where
  pub next : Tester
  pub returns : r ≡ ok next
  pub filled : IsFilled next
  pub bound : length next.queue ≤ length t.queue + longer

Fills-Turns :
    (t u : Tester) (longer : ℕ) (r : Result Tester)
    → 5 ≤ length t.queue + longer
    → length u.queue ≤ length t.queue + longer
    → Fills u r
    → Turns t longer r
Fills-Turns t u longer r h k f = record {
  next = f.next;
  returns = f.returns;
  filled = f.filled;
  bound = ground (arith, f.bound);
}

pub turn-Turns :
    (t : Tester) {e : Event} → IsFilled t → CanHappen t e → Turns t (late_frames e) (turn e t)
unfolding turn refill received timeout
turn-Turns t h (answered bytes before f after q l m o e) =
    let fits : ltb 512 (length bytes) ≡ false = ground arith in
    let got = received_queue t bytes before f after q l o e in
    let shorter : length got.0.queue ≤ length t.queue =
      omega (arith, ap length got.2, ap length q, length-append before (f ∷ after)) in
    let frames : All IsFrame got.0.queue =
      rw got.2 (All-behind before f after (subst (All IsFrame) q h.frames)) in
    let level = h.level in
    rw (fits, got.1)
      (Fills-Turns t got.0 0 (fill 5 got.0) (omega arith) (omega (arith, shorter))
        (fill-Fills 5 got.0 (omega arith) frames))
turn-Turns t h (short bytes l) =
    let fits : ltb 512 (length bytes) ≡ false = ground arith in
    let few : ltb (length bytes) 28 ≡ true = ground arith in
    rw (fits, few)
      (record {
        next = record t { stats = count_rx t.stats (length bytes) };
        returns = refl;
        filled = record { level = h.level; frames = h.frames };
        bound = omega arith;
      })
turn-Turns t h late =
    let t' = record t {
      timed_out = true;
      stats = record t.stats { timeout = u32 (t.stats.timeout + 1) };
    } in
    let level = h.level in
    let some_left : (length t.queue == 0) ≡ false = ground arith in
    let sent = send-Adds false t' in
    let longer : length sent.next.queue ≡ length t.queue + 1 =
      omega (arith, ap length sent.queue, length-append t.queue (sent.frame ∷ [])) in
    let frames : All IsFrame sent.next.queue =
      rw sent.queue (All-snoc t.queue sent.frame h.frames sent.whole) in
    rw (some_left, sent.returns)
      (Fills-Turns t sent.next 1 (fill 5 sent.next) (omega arith) (omega (arith, longer))
        (fill-Fills 5 sent.next (omega arith) frames))

-- Events that can happen one after the other: each of them where the turn before has ended, if it has.
abbrev pub CanRun : Tester → List Event → Type 0
CanRun t [] = Unit {0}
CanRun t (e ∷ es) = CanHappen t e × ((u : Tester) → turn e t ≡ ok u → CanRun u es)

abbrev pub late_count : List Event → ℕ
late_count [] = 0
late_count (e ∷ es) = late_frames e + late_count es

-- Whatever of this happens, the loops of `test` go on without a fault and without an exception: at
-- the end the queue has five frames at least, and at most one more than at the start for each
-- deadline that has passed; each frame fits the buffers. The queue is filled at the start, and each
-- datagram that arrives is too short for a response or, in at most 512 bytes, the response to a frame
-- that is then in the queue. That a turn returns is not assumed.
pub turns-Turns :
    (t : Tester) (es : List Event) → IsFilled t → CanRun t es → Turns t (late_count es) (turns es t)
unfolding turns
turns-Turns t [] h run = record { next = t; returns = refl; filled = h; bound = omega arith }
turns-Turns t (e ∷ es) h run =
    let step = turn-Turns t h run.0 in
    let rest = turns-Turns step.next es step.filled (run.1 step.next step.returns) in
    rw step.returns (record {
      next = rest.next;
      returns = rest.returns;
      filled = rest.filled;
      bound = omega (arith, rest.bound, step.bound);
    })

-- `test` starts with five frames in the queue, the first of which clears the device's counters.
pub test-Turns :
    (t : Tester)
    → t.queue ≡ []
    → (u : Tester) × ((send true t >>= fill 5) ≡ ok u) × IsFilled u × (length u.queue ≤ 5)
test-Turns t q =
    let sent = send-Adds true t in
    let only : sent.next.queue ≡ sent.frame ∷ [] =
      sent.queue ∙ ap (λ fs. fs ++ sent.frame ∷ []) q in
    let frames : All IsFrame sent.next.queue = subst (All IsFrame) (sym only) (sent.whole, tt) in
    let one : length sent.next.queue ≡ 1 = ap length only in
    let full = fill-Fills 5 sent.next (omega arith) frames in
    rw sent.returns (full.next, full.returns, full.filled, ground (arith, full.bound, one))
