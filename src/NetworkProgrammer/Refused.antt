-- ===== src/NetworkProgrammer/Refused.antt =====
-- `communicate` when the first frame that arrives refuses the request.
use programmer.Prelude.{
  ℕ, ◌≤◌, ◌≡◌, ◌≢◌, refl, ◌∙◌, List, [], ◌∷◌, ◌++◌, length, take, overwrite, true, false, ltb, ◌==◌,
  arith,
}
use programmer.Exceptions.{throws}
use programmer.Network.{Address}
use programmer.Protocol.Header
use programmer.Protocol.Status
use programmer.Protocol.Fields.{get_or-overwrite_start}
use programmer.NetworkProgrammer.{
  NetworkProgrammer, Event, frame, transmit, accept_frame, process, after_frame, listen, attempts,
  communicate,
}
use programmer.NetworkProgrammer.Process.{classify, react, e_target}
use programmer.NetworkProgrammer.Communicate.{bump}

-- A reply to the request in the transmit buffer, with a status that is an error.
pub record IsRefusal (tx rx : List ℕ) (st : ℕ) : Type 0 where
  pub version : Header.version rx ≡ 1
  pub seq : Header.seq rx ≡ Header.seq tx
  pub operation : Header.operation rx ≡ Header.operation tx
  pub status : Header.status rx ≡ st
  pub failed : st ≢ Status.done
  pub final : st ≢ Status.in_progress

classify-IsRefusal :
    (tx rx : List ℕ) (st : ℕ) → IsRefusal tx rx st → classify tx rx ≡ throws (e_target st)
unfolding classify react
classify-IsRefusal tx rx st a =
    let v : (Header.version rx == 1) ≡ true = ground (arith, a.version) in
    let s : (Header.seq rx == Header.seq tx) ≡ true = ground (arith, a.seq) in
    let o : (Header.operation rx == Header.operation tx) ≡ true = ground (arith, a.operation) in
    let d : (Header.status rx == Status.done) ≡ false = ground (arith, a.status, a.failed) in
    let w : (Header.status rx == Status.in_progress) ≡ false = ground (arith, a.status, a.final) in
    rw (v, s, o, d, w, a.status) refl

overwrite-IsRefusal :
    (tx buf bytes : List ℕ) (st : ℕ)
    → length bytes ≤ length buf
    → 4 ≤ length bytes
    → IsRefusal tx bytes st
    → IsRefusal tx (overwrite buf 0 bytes) st
unfolding Header.version Header.seq Header.operation Header.status
overwrite-IsRefusal tx buf bytes st h l a = record {
  version = get_or-overwrite_start buf bytes 0 h (omega arith) ∙ a.version;
  seq = get_or-overwrite_start buf bytes 1 h (omega arith) ∙ a.seq;
  operation = get_or-overwrite_start buf bytes 2 h (omega arith) ∙ a.operation;
  status = get_or-overwrite_start buf bytes 3 h (omega arith) ∙ a.status;
  failed = a.failed;
  final = a.final;
}

-- When the first frame that arrives refuses the request, the call throws ETarget with its status
-- after one transmission: the receive buffer holds the frame and its size, and the later events are
-- left. The frame has the size of a reply header at least, and fits the buffer of 1500 bytes.
pub communicate_refused :
    (p : NetworkProgrammer) (bytes : List ℕ) (from : Address) (es : List Event) (st : ℕ)
    → length p.rx ≡ 1500
    → 4 ≤ length bytes
    → length bytes ≤ 1500
    → IsRefusal (bump p.tx) bytes st
    → communicate (record p { events = frame bytes from ∷ es }) ≡ (
      record p {
        tx = bump p.tx;
        rx = overwrite p.rx 0 bytes;
        rx_size = length bytes;
        rx_address = from;
        events = es;
        sent = p.sent ++ (take p.tx_size (bump p.tx), p.tx_address) ∷ [];
      },
      throws (e_target st),
    )
unfolding communicate attempts transmit listen process accept_frame after_frame
communicate_refused p bytes from es st size l h a =
    let fits : ltb 1500 (length bytes) ≡ false = ground arith in
    let long : ltb (length bytes) 4 ≡ false = ground arith in
    rw (
      fits,
      long,
      classify-IsRefusal (bump p.tx) (overwrite p.rx 0 bytes) st
          (overwrite-IsRefusal (bump p.tx) p.rx bytes st (omega (arith, size)) l a),
    )
