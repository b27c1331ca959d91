-- ===== src/TargetTester/Sends.antt =====
-- `send` and the loop that fills the queue: what a frame of the queue is.
use programmer.Prelude.{
  ℕ, zero, suc, ◌+◌, ◌^◌, ◌≤◌, ◌<◌, ◌≡◌, refl, ap, sym, ◌∙◌, ◌⊎◌, inl, inr, Bool, true, false, List,
  [], ◌∷◌, ◌++◌, length, length-append, All, bit_xor, ltb, arith, Bool-cases,
}
use programmer.Exceptions.{Result, ok}
use programmer.Protocol.{host32}
use programmer.TargetTester.Echo.{answer, prepare_payload-Prepares}
use programmer.TargetTester.{Frame, Tester, send, payload_length, next_seq}
use programmer.TargetTester.Loops.{fill}

-- The payload of a frame has the size that the frame says, less than the 435 bytes of the buffers,
-- and its number fits 32 bits.
pub record IsFrame (f : Frame) : Type 0 where
  pub size : f.payload_size ≡ length f.payload
  pub room : f.payload_size < 435
  pub seq : f.seq < 2 ^ 32

-- A frame at the end of the queue, and the datagram that it describes.
pub record Adds (clear : Bool) (t : Tester) (r : Result Tester) : Type 0 where
  pub next : Tester
  pub frame : Frame
  pub tx : List ℕ
  pub returns : r ≡ ok next
  pub queue : next.queue ≡ t.queue ++ frame ∷ []
  pub sent : next.sent ≡ t.sent ++ (host32 frame.seq ++ tx, t.tx_address) ∷ []
  pub tx_address : next.tx_address ≡ t.tx_address
  pub whole : IsFrame frame
  pub answers : frame.payload ≡ answer 0x5A tx
  pub count : length tx ≡ frame.payload_size
  pub seq : frame.seq ≡ next_seq t.seq clear
  pub next_seq : next.seq ≡ frame.seq
  pub clears : frame.clears ≡ clear

length-answer : (mask : ℕ) (bs : List ℕ) → length (answer mask bs) ≡ length bs
length-answer mask [] = refl
length-answer mask (b ∷ bs) = ap suc (length-answer (bit_xor mask b) bs)

payload_length_bound : (rand : ℕ) → payload_length rand < 435
unfolding payload_length
payload_length_bound rand = omega arith

next_seq_bound : (seq : ℕ) (clear : Bool) → next_seq seq clear < 2 ^ 32
unfolding next_seq
next_seq_bound seq true = omega arith
next_seq_bound seq false = omega arith

-- `send` puts one frame at the end of the queue and sends its number and bytes, to the address of
-- the device: fewer than 435 bytes, and the frame keeps what the device should answer to them.
-- There is no fault.
pub send-Adds : (clear : Bool) (t : Tester) → Adds clear t (send clear t)
unfolding send
send-Adds clear t =
    let len = payload_length (t.draws t.drawn) in
    let bound = payload_length_bound (t.draws t.drawn) in
    let filled = prepare_payload-Prepares t.draws (suc t.drawn) len (omega (arith, bound)) in
    let size : length (answer 0x5A filled.tx) ≡ len = length-answer 0x5A filled.tx ∙ filled.count in
    rw filled.returns (record {
      next = _;
      frame = record {
        seq = next_seq t.seq clear;
        payload_size = len;
        clears = clear;
        payload = answer 0x5A filled.tx;
      };
      tx = filled.tx;
      returns = refl;
      queue = refl;
      sent = refl;
      tx_address = refl;
      whole = record { size = sym size; room = bound; seq = next_seq_bound t.seq clear };
      answers = refl;
      count = filled.count;
      seq = refl;
      next_seq = refl;
      clears = refl;
    })

pub All-snoc :
    (fs : List Frame) (f : Frame) → All IsFrame fs → IsFrame f → All IsFrame (fs ++ f ∷ [])
All-snoc [] f p q = (q, tt)
All-snoc (g ∷ fs) f p q = (p.0, All-snoc fs f p.1 q)

-- The queue at the head of the loops of `test`.
pub record IsFilled (t : Tester) : Type 0 where
  pub level : 5 ≤ length t.queue
  pub frames : All IsFrame t.queue

pub record Fills (t : Tester) (r : Result Tester) : Type 0 where
  pub next : Tester
  pub returns : r ≡ ok next
  pub filled : IsFilled next
  pub bound : (length next.queue ≤ 5) ⊎ (length next.queue ≤ length t.queue)

-- Enough rounds fill the queue to five frames, and leave a longer one as it is.
pub fill-Fills :
    (n : ℕ) (t : Tester) → 5 ≤ length t.queue + n → All IsFrame t.queue → Fills t (fill n t)
unfolding fill
fill-Fills zero t h a =
    let full : ltb (length t.queue) 5 ≡ false = ground arith in
    rw full (record {
      next = t;
      returns = refl;
      filled = record { level = omega arith; frames = a };
      bound = inr (omega arith);
    })
fill-Fills (suc n) t h a = elim (Bool-cases (ltb (length t.queue) 5)) [
  | inl e ↦
      let sent = send-Adds false t in
      let longer : length sent.next.queue ≡ length t.queue + 1 =
        omega (arith, ap length sent.queue, length-append t.queue (sent.frame ∷ [])) in
      let rest =
        fill-Fills n sent.next (omega (arith, longer))
          (rw sent.queue (All-snoc t.queue sent.frame a sent.whole)) in
      rw (e, sent.returns)
        (record {
          next = rest.next;
          returns = rest.returns;
          filled = rest.filled;
          bound = inl (ground (arith, rest.bound, longer));
        })
  | inr e ↦ rw e (record {
    next = t;
    returns = refl;
    filled = record { level = ground arith; frames = a };
    bound = inr (omega arith);
  })
]
