-- ===== src/NetworkProgrammer/Answered.antt =====
-- `communicate` when the first frame that arrives is the answer, or says that it will come.
use programmer.Prelude.{
  ℕ, ◌≤◌, ◌≡◌, refl, ap, ◌∙◌, List, [], ◌∷◌, ◌++◌, length, take, overwrite, length-overwrite, true,
  false, ltb, ◌==◌, arith,
}
use programmer.Exceptions.{ok}
use programmer.Network.{Address}
use programmer.Protocol.Header
use programmer.Protocol.Status
use programmer.Protocol.Fields.{get_or-overwrite_start}
use programmer.NetworkProgrammer.{
  NetworkProgrammer, Event, frame, transmit, accept_frame, process, after_frame, listen, attempts,
  communicate,
}
use programmer.NetworkProgrammer.Process.{done, extend_time, classify, react, takes_time}
use programmer.NetworkProgrammer.Verdict.{IsAnswer}
use programmer.NetworkProgrammer.Communicate.{bump}

classify-IsAnswer : (tx rx : List ℕ) → IsAnswer tx rx → classify tx rx ≡ ok done
unfolding classify react
classify-IsAnswer tx rx a =
    let v : (Header.version rx == 1) ≡ true = ground (arith, a.version) in
    let s : (Header.seq rx == Header.seq tx) ≡ true = ground (arith, a.seq) in
    let o : (Header.operation rx == Header.operation tx) ≡ true = ground (arith, a.operation) in
    let d : (Header.status rx == Status.done) ≡ true = ground (arith, a.status) in rw (v, s, o, d)

-- An answer is one in the buffer that it was received into.
pub overwrite-IsAnswer :
    (tx buf bytes : List ℕ)
    → length bytes ≤ length buf
    → 4 ≤ length bytes
    → IsAnswer tx bytes
    → IsAnswer tx (overwrite buf 0 bytes)
unfolding Header.version Header.seq Header.operation Header.status
overwrite-IsAnswer tx buf bytes h l a = record {
  version = get_or-overwrite_start buf bytes 0 h (omega arith) ∙ a.version;
  seq = get_or-overwrite_start buf bytes 1 h (omega arith) ∙ a.seq;
  operation = get_or-overwrite_start buf bytes 2 h (omega arith) ∙ a.operation;
  status = get_or-overwrite_start buf bytes 3 h (omega arith) ∙ a.status;
}

-- When the first frame that arrives answers the request, the call returns after one transmission:
-- the receive buffer holds the frame and its size, and the later events are left. The frame has
-- the size of a reply header at least, and fits the buffer of 1500 bytes.
pub communicate_answered :
    (p : NetworkProgrammer) (bytes : List ℕ) (from : Address) (es : List Event)
    → length p.rx ≡ 1500
    → 4 ≤ length bytes
    → length bytes ≤ 1500
    → IsAnswer (bump p.tx) bytes
    → communicate (record p { events = frame bytes from ∷ es }) ≡ (
      record p {
        tx = bump p.tx;
        rx = overwrite p.rx 0 bytes;
        rx_size = length bytes;
        rx_address = from;
        events = es;
        sent = p.sent ++ (take p.tx_size (bump p.tx), p.tx_address) ∷ [];
      },
      ok tt,
    )
unfolding communicate attempts transmit listen process accept_frame after_frame
communicate_answered p bytes from es size l h a =
    let fits : ltb 1500 (length bytes) ≡ false = ground arith in
    let long : ltb (length bytes) 4 ≡ false = ground arith in
    rw (
      fits,
      long,
      classify-IsAnswer (bump p.tx) (overwrite p.rx 0 bytes)
          (overwrite-IsAnswer (bump p.tx) p.rx bytes (omega (arith, size)) l a),
    )

-- A reply to the request in the transmit buffer that says it is being carried out.
pub record IsProgress (tx rx : List ℕ) : Type 0 where
  pub version : Header.version rx ≡ 1
  pub seq : Header.seq rx ≡ Header.seq tx
  pub operation : Header.operation rx ≡ Header.operation tx
  pub status : Header.status rx ≡ Status.in_progress
  pub slow : takes_time (Header.operation tx) ≡ true

classify-IsProgress : (tx rx : List ℕ) → IsProgress tx rx → classify tx rx ≡ ok extend_time
unfolding classify react
classify-IsProgress tx rx a =
    let v : (Header.version rx == 1) ≡ true = ground (arith, a.version) in
    let s : (Header.seq rx == Header.seq tx) ≡ true = ground (arith, a.seq) in
    let o : (Header.operation rx == Header.operation tx) ≡ true = ground (arith, a.operation) in
    let d : (Header.status rx == Status.done) ≡ false = ground (arith, a.status) in
    let w : (Header.status rx == Status.in_progress) ≡ true = ground (arith, a.status) in
    let t : takes_time (Header.operation rx) ≡ true = ap takes_time a.operation ∙ a.slow in
    rw (v, s, o, d, w, t) refl

overwrite-IsProgress :
    (tx buf bytes : List ℕ)
    → length bytes ≤ length buf
    → 4 ≤ length bytes
    → IsProgress tx bytes
    → IsProgress tx (overwrite buf 0 bytes)
unfolding Header.version Header.seq Header.operation Header.status
overwrite-IsProgress tx buf bytes h l a = record {
  version = get_or-overwrite_start buf bytes 0 h (omega arith) ∙ a.version;
  seq = get_or-overwrite_start buf bytes 1 h (omega arith) ∙ a.seq;
  operation = get_or-overwrite_start buf bytes 2 h (omega arith) ∙ a.operation;
  status = get_or-overwrite_start buf bytes 3 h (omega arith) ∙ a.status;
  slow = a.slow;
}

-- When the first frame says that the request is being carried out and the second answers it, the
-- call returns after one transmission, with the second frame over the first in the receive buffer.
pub communicate_carried :
    (p : NetworkProgrammer) (progress bytes : List ℕ) (from : Address) (es : List Event)
    → length p.rx ≡ 1500
    → length progress ≡ 4
    → 4 ≤ length bytes
    → length bytes ≤ 1500
    → IsProgress (bump p.tx) progress
    → IsAnswer (bump p.tx) bytes
    → communicate (record p { events = frame progress from ∷ frame bytes from ∷ es }) ≡ (
      record p {
        tx = bump p.tx;
        rx = overwrite (overwrite p.rx 0 progress) 0 bytes;
        rx_size = length bytes;
        rx_address = from;
        events = es;
        sent = p.sent ++ (take p.tx_size (bump p.tx), p.tx_address) ∷ [];
      },
      ok tt,
    )
unfolding communicate attempts transmit listen process accept_frame after_frame
communicate_carried p progress bytes from es size four l h a b =
    let rx = overwrite p.rx 0 progress in
    let room : length rx ≡ 1500 = length-overwrite p.rx 0 progress ∙ size in
    let fits' : ltb 1500 (length progress) ≡ false = ground arith in
    let long' : ltb (length progress) 4 ≡ false = ground arith in
    let fits : ltb 1500 (length bytes) ≡ false = ground arith in
    let long : ltb (length bytes) 4 ≡ false = ground arith in
    rw (
      fits',
      long',
      fits,
      long,
      classify-IsProgress (bump p.tx) rx
          (overwrite-IsProgress (bump p.tx) p.rx progress (omega (arith, size)) (omega arith) a),
      classify-IsAnswer (bump p.tx) (overwrite rx 0 bytes)
          (overwrite-IsAnswer (bump p.tx) rx bytes (omega (arith, room)) l b),
    )
