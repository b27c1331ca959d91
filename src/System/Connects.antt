-- ===== src/System/Connects.antt =====
-- `connect_device` to a device that answers: it makes the two ready for requests.
use programmer.Prelude.{
  ℕ, ◌+◌, ◌^◌, ◌<◌, ◌≡◌, refl, sym, ◌∙◌, true, false, ltb, ◌==◌, List, [], ◌∷◌, ◌++◌, length, take,
  overwrite, length-overwrite, length-take, u8, arith, some,
}
use programmer.Exceptions.{ok}
use programmer.Network.{Address}
use programmer.DeviceDescriptor.{DeviceDescriptor, find}
use programmer.Protocol.Header
use programmer.Protocol.Op
use programmer.Protocol.Status
use programmer.NetworkProgrammer.{
  NetworkProgrammer, is_connected, frame, select_operation, process_discover, end_broadcast,
  set_address, connect_device, get_struct,
}
use programmer.Target.{
  Target, Reply, step, accept, handle, handle_discover, is_discovery, same_address, set_status,
  send,
}
use programmer.Target.Safety.{IsSound}
use programmer.NetworkProgrammer.Verdict.{IsAnswer}
use programmer.NetworkProgrammer.Answered.{overwrite-IsAnswer, communicate_answered}
use programmer.NetworkProgrammer.Frames.{IsRequest}
use programmer.System.{arriving}
use programmer.System.Asks.{Asks, asked, asked-IsRequest, asked-Asks, take-Asks, overwrite-Asks}
use programmer.System.Replies.{IsReply, request-IsReply, take-IsReply}
use programmer.System.Serves.{received}
use programmer.System.Discovered.{
  discovered, discovered-IsReply, length-discovered, read_info-discovered,
}
use programmer.System.Linked.{IsLinked}

same_address_self : (a : Address) → same_address a a ≡ true
unfolding same_address
same_address_self a =
    let f : (a.family == a.family) ≡ true = ground arith in
    let i : (a.ip == a.ip) ≡ true = ground arith in
    let p : (a.port == a.port) ≡ true = ground arith in rw (f, i, p) refl

-- A discovery is handled, whoever sends it and whatever its number is.
step_discovered :
    (t : Target) (datagram : List ℕ) (me : Address) (s a n : ℕ)
    → IsSound t
    → length datagram ≡ 10
    → Asks datagram s Op.discover a n
    → step t datagram me ≡ handle_discover (received t datagram s) me
unfolding step accept handle is_discovery
step_discovered t datagram me s a n h l k =
    let asks = overwrite-Asks t.buf datagram (omega (arith, l)) (omega (arith, l, h.buffer)) k in
    let buf = overwrite t.buf 0 datagram in
    let fits : ltb 1500 (length datagram) ≡ false = ground arith in
    let long : ltb (length datagram) 10 ≡ false = ground arith in
    let v : (Header.version buf == 1) ≡ true = ground (arith, asks.version) in
    let r : (Header.status buf == 0) ≡ true = ground (arith, asks.status) in
    rw (fits, long, v, r, asks.seq, asks.operation) refl

-- What a connection comes to.
pub record Connects (me there : Address) (ip port : ℕ) (d : DeviceDescriptor)
    (p : NetworkProgrammer) (t : Target) : Type 0 where
  pub after : NetworkProgrammer
  pub next : Target
  pub datagram : List ℕ
  pub replies : List Reply
  pub round : step t datagram me ≡ ok (next, replies)
  pub returns :
      connect_device ip port (record p { events = arriving there replies }) ≡ (after, ok tt)
  pub sends : after.sent ≡ p.sent ++ (datagram, (set_address ip port p).tx_address) ∷ []
  pub address : after.tx_address ≡ there
  pub info :
      after.bootloader ≡ record { device_id = t.dev_id; version = 0x0100; address = 0xDEADBEEF }
  pub dev_desc : after.dev_desc ≡ some d
  pub flash : next.flash ≡ t.flash
  pub linked : IsLinked me after next

-- The programmer after the reply.
module _ (me there : Address) (ip port : ℕ) (d : DeviceDescriptor) (p : NetworkProgrammer)
    (t : Target) (h : IsRequest p.tx) (room : length p.rx ≡ 1500) (sound : IsSound t)
    (known : find t.dev_id ≡ ok d) (small : length t.flash < 2 ^ 32) (id : t.dev_id < 2 ^ 16) where
  abbrev s : ℕ
  s = u8 (Header.seq p.tx + 1)

  abbrev tx' : List ℕ
  tx' = asked p Op.discover 0 0 h

  abbrev frame' : List ℕ
  frame' = take 10 tx'

  abbrev buf : List ℕ
  buf = overwrite t.buf 0 frame'

  asks : Asks tx' s Op.discover 0 0
  asks = asked-Asks p Op.discover 0 0 h (omega arith) (omega arith)

  length-frame : length frame' ≡ 10
  length-frame = omega (arith, length-take 10 tx', (asked-IsRequest p Op.discover 0 0 h).size)

  length-buf : length buf ≡ 1500
  length-buf = length-overwrite t.buf 0 frame' ∙ sound.buffer

  buf-Asks : Asks buf s Op.discover 0 0
  buf-Asks =
      overwrite-Asks t.buf frame' (omega (arith, length-frame))
        (omega (arith, length-frame, sound.buffer)) (take-Asks 10 tx' (omega arith) asks)

  abbrev answer : List ℕ
  answer = take 12 (discovered buf t.dev_id)

  answer-IsReply : IsReply answer s Op.discover Status.done
  answer-IsReply =
      take-IsReply 12 (discovered buf t.dev_id) (omega arith)
        (discovered-IsReply buf t.dev_id length-buf (request-IsReply buf buf-Asks))

  answer-IsAnswer : IsAnswer tx' answer
  answer-IsAnswer = record {
    version = answer-IsReply.version;
    seq = answer-IsReply.seq ∙ sym asks.seq;
    operation = answer-IsReply.operation ∙ sym asks.operation;
    status = answer-IsReply.status;
  }

  abbrev next : Target
  next = record t { programmer_addr = me; last_seq = s; buf = discovered buf t.dev_id }

  round : step t frame' me ≡ ok (next, record { bytes = answer; receiver = me } ∷ [])
  unfolding handle_discover send set_status
  round = step_discovered t frame' me s 0 0 sound length-frame (take-Asks 10 tx' (omega arith) asks)

  abbrev after : NetworkProgrammer
  after = record p {
    tx = tx';
    tx_size = 10;
    rx = overwrite p.rx 0 answer;
    rx_size = length answer;
    tx_address = there;
    rx_address = there;
    bootloader = record { device_id = t.dev_id; version = 0x0100; address = 0xDEADBEEF };
    dev_desc = some d;
    broadcast = false;
    events = [];
    sent = p.sent ++ (frame', (set_address ip port p).tx_address) ∷ [];
  }

  returns : connect_device ip port (record p { events = frame answer there ∷ [] }) ≡ (after, ok tt)
  unfolding connect_device process_discover set_address select_operation end_broadcast get_struct
  returns =
      let size : length answer ≡ 12 = omega (
        arith,
        length-take 12 (discovered buf t.dev_id),
        length-discovered buf t.dev_id length-buf,
      ) in
      let q = select_operation Op.discover 0 0 (set_address ip port p) in
      let answered =
        communicate_answered q answer there [] room (omega (arith, size)) (omega (arith, size))
          answer-IsAnswer in
      let enough : ltb (length answer) 12 ≡ false = ground arith in
      let code : (Header.operation (overwrite p.rx 0 answer) == Op.discover) ≡ true = ground (
        arith,
        (overwrite-IsAnswer tx' p.rx answer (omega (arith, size, room)) (omega (arith, size))
            answer-IsAnswer).operation,
        asks.operation,
      ) in
      let info = read_info-discovered p.rx buf t.dev_id room length-buf id in
      rw (answered, enough, code, info, known) refl

  after-IsLinked : IsLinked me after next
  unfolding is_connected
  after-IsLinked = record {
    request = asked-IsRequest p Op.discover 0 0 h;
    connected = refl;
    room = length-overwrite p.rx 0 answer ∙ room;
    byte = omega (arith, asks.seq);
    sound = record { buffer = length-discovered buf t.dev_id length-buf; pages = sound.pages };
    small = small;
    known = same_address_self me;
    seq = sym asks.seq;
  }

-- A connection to a device that answers: `connect_device` sends one datagram, the device answers
-- it in one round without a change of its flash, and the call returns with the device's id, its
-- version and its address read and the device found in the table. The device's replies then come
-- from the address that the programmer writes to, and the two are ready for requests. The transmit buffer holds a
-- request and the receive buffer has its 1500 bytes; the device's state is sound, its flash has less
-- than 4 GB, and its id is a 16-bit number that the table has; every datagram is delivered.
pub connect_device-Connects :
    (me there : Address) (ip port : ℕ) (d : DeviceDescriptor) (p : NetworkProgrammer) (t : Target)
    → IsRequest p.tx
    → length p.rx ≡ 1500
    → IsSound t
    → find t.dev_id ≡ ok d
    → length t.flash < 2 ^ 32
    → t.dev_id < 2 ^ 16
    → Connects me there ip port d p t
connect_device-Connects me there ip port d p t h room sound known small id = record {
  after = after me there ip port d p t h room sound known small id;
  next = next me there ip port d p t h room sound known small id;
  datagram = _;
  replies = _;
  round = round me there ip port d p t h room sound known small id;
  returns = returns me there ip port d p t h room sound known small id;
  sends = refl;
  address = refl;
  info = refl;
  dev_desc = refl;
  flash = refl;
  linked = after-IsLinked me there ip port d p t h room sound known small id;
}
