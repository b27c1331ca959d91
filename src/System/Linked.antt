-- ===== src/System/Linked.antt =====
-- A programmer and its device that are ready for the next request, and what one exchange does.
use programmer.NetworkProgrammer.Communicate.{bump}
use programmer.Prelude.{
  ◌≢◌, ℕ, ◌+◌, ◌^◌, ◌≤◌, ◌<◌, ◌≡◌, sym, ap, ◌∙◌, true, false, List, [], ◌∷◌, ◌++◌, length, take,
  overwrite, length-take, length-overwrite, u8, arith,
}
use programmer.Exceptions.{Result, ok}
use programmer.Network.{Address}
use programmer.Protocol.Header
use programmer.NetworkProgrammer.{
  NetworkProgrammer, Action, frame, select_operation, communicate, is_connected,
}
use programmer.NetworkProgrammer.Process.{takes_time}
use programmer.NetworkProgrammer.Frames.{IsRequest}
use programmer.NetworkProgrammer.Answered.{communicate_carried}
use programmer.Target.{Target, step, handle, is_discovery, same_address}
use programmer.Target.Safety.{IsSound}
use programmer.System.{Calls}
use programmer.System.Asks.{Asks, asked-IsRequest, asked-Asks, take-Asks, overwrite-Asks}
use programmer.System.Serves.{Serves, received, step_accepted}

pub record IsLinked (me : Address) (p : NetworkProgrammer) (t : Target) : Type 0 where
  pub request : IsRequest p.tx
  pub connected : is_connected p.dev_desc ≡ true
  pub room : length p.rx ≡ 1500
  pub byte : Header.seq p.tx < 256
  pub sound : IsSound t
  pub small : length t.flash < 2 ^ 32
  pub known : same_address me t.programmer_addr ≡ true
  pub seq : t.last_seq ≡ Header.seq p.tx

-- What a call comes to, with the address that it leaves in the header and the memory and the result that
-- are expected: the device's flash is the memory, and the two are ready again.
pub record Performs (me there : Address) (method : Action (List ℕ)) (address : ℕ)
    (p : NetworkProgrammer) (t : Target) (expected : List ℕ × Result (List ℕ)) : Type 0 where
  pub after : NetworkProgrammer
  pub next : Target
  pub calls : Calls me there method p t expected.1 after next
  pub place : Header.address after.tx ≡ address
  pub flash : next.flash ≡ expected.0
  pub size : length next.flash ≡ length t.flash
  pub linked : IsLinked me after next

-- A request in the transmit buffer of such a programmer, with the device's bytes in `asks`: the
-- frame that `communicate` sends first.
pub record IsPrepared (me : Address) (q : NetworkProgrammer) (t : Target) (s op a n : ℕ)
    : Type 0 where
  pub request : IsRequest (bump q.tx)
  pub asks : Asks (bump q.tx) s op a n
  pub least : 10 ≤ q.tx_size
  pub most : q.tx_size ≤ 128
  pub connected : is_connected q.dev_desc ≡ true
  pub room : length q.rx ≡ 1500
  pub byte : s < 256
  pub sound : IsSound t
  pub small : length t.flash < 2 ^ 32
  pub known : same_address me t.programmer_addr ≡ true
  pub new : s ≢ t.last_seq

-- `select_operation` prepares a request.
pub select_operation-IsPrepared :
    {me : Address} {t : Target} (p : NetworkProgrammer) (op a n : ℕ)
    → IsLinked me p t
    → a < 2 ^ 32
    → n < 2 ^ 16
    → IsPrepared me (select_operation op a n p) t (u8 (Header.seq p.tx + 1)) op a n
select_operation-IsPrepared p op a n h l m = record {
  request = asked-IsRequest p op a n h.request;
  asks = asked-Asks p op a n h.request l m;
  least = unfold select_operation in omega arith;
  most = unfold select_operation in omega arith;
  connected = unfold select_operation in h.connected;
  room = unfold select_operation in h.room;
  byte = omega arith;
  sound = h.sound;
  small = h.small;
  known = h.known;
  new = λ e. absurd (omega (arith, e, h.seq, h.byte));
}

module _ (me there : Address) (q : NetworkProgrammer) (t : Target) (s op a n : ℕ)
    (h : IsPrepared me q t s op a n) where
  abbrev pub datagram : List ℕ
  datagram = take q.tx_size (bump q.tx)

  pub length-datagram : length datagram ≡ q.tx_size
  length-datagram = omega (arith, length-take q.tx_size (bump q.tx), h.request.size, h.most)

  datagram-Asks : Asks datagram s op a n
  datagram-Asks = take-Asks q.tx_size (bump q.tx) h.least h.asks

  -- The device takes the request for a new one of its programmer.
  pub accepted : is_discovery op ≡ false → step t datagram me ≡ handle (received t datagram s) me op
  accepted d =
      step_accepted t datagram me s op a n h.sound (omega (arith, length-datagram, h.least))
        (omega (arith, length-datagram, h.most)) datagram-Asks d h.known h.new

  -- The programmer after the two replies.
  abbrev pub answered : List ℕ → List ℕ → NetworkProgrammer
  answered progress answer = record q {
    tx = bump q.tx;
    rx = overwrite (overwrite q.rx 0 progress) 0 answer;
    rx_size = length answer;
    rx_address = there;
    events = [];
    sent = q.sent ++ (datagram, q.tx_address) ∷ [];
  }

  -- The device with the request in its buffer.
  abbrev pub arrived : Target
  arrived = received t datagram s

  pub arrived-IsSound : IsSound arrived
  arrived-IsSound = record {
    buffer = length-overwrite t.buf 0 datagram ∙ h.sound.buffer;
    pages = h.sound.pages;
  }

  pub arrived-Asks : Asks arrived.buf s op a n
  arrived-Asks =
      overwrite-Asks t.buf datagram (omega (arith, length-datagram, h.least))
        (omega (arith, length-datagram, h.most, h.sound.buffer)) datagram-Asks

  module _ {memory payload : List ℕ}
      (r : Serves arrived me s op memory payload (handle arrived me op)) where
    -- The programmer takes the replies of the device for those to its request.
    pub exchange :
        length payload ≤ 1496
        → takes_time op ≡ true
        → communicate (record q { events = frame r.progress there ∷ frame r.answer there ∷ [] })
          ≡ (answered r.progress r.answer, ok tt)
    exchange l slow =
        communicate_carried q r.progress r.answer there [] h.room r.four (omega (arith, r.size))
          (omega (arith, r.size))
          (record {
            version = r.started.version;
            seq = r.started.seq ∙ sym h.asks.seq;
            operation = r.started.operation ∙ sym h.asks.operation;
            status = r.started.status;
            slow = ap takes_time h.asks.operation ∙ slow;
          })
          (record {
            version = r.answered.version;
            seq = r.answered.seq ∙ sym h.asks.seq;
            operation = r.answered.operation ∙ sym h.asks.operation;
            status = r.answered.status;
          })

    -- They are ready again.
    pub answered-IsLinked :
        length memory ≡ length t.flash → IsLinked me (answered r.progress r.answer) r.next
    answered-IsLinked f =
        let size : length r.next.flash ≡ length t.flash = ap length r.flash ∙ f in
        record {
          request = h.request;
          connected = h.connected;
          room =
              length-overwrite (overwrite q.rx 0 r.progress) 0 r.answer
              ∙ length-overwrite q.rx 0 r.progress
              ∙ h.room;
          byte = omega (arith, h.asks.seq, h.byte);
          sound = r.sound;
          small = omega (arith, size, h.small);
          known = ap (same_address me) r.programmer_addr ∙ h.known;
          seq = r.last_seq ∙ sym h.asks.seq;
        }
