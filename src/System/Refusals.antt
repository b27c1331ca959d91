-- ===== src/System/Refusals.antt =====
-- A call that the device refuses: the programmer throws what ETarget says of the status.
use programmer.Prelude.{
  ℕ, ◌+◌, ◌%◌, ◌^◌, ◌<◌, ◌≡◌, ◌≢◌, refl, sym, ap, ◌∙◌, false, ◌&&◌, ltb, leb, ◌==◌, List, [], ◌∷◌,
  ◌++◌, length, overwrite, length-overwrite, u8, u16, arith,
}
use programmer.Exceptions.{throws}
use programmer.Network.{Address}
use programmer.Protocol.Header
use programmer.Protocol.Op
use programmer.Protocol.Status
use programmer.NetworkProgrammer
use programmer.NetworkProgrammer.{
  NetworkProgrammer, Action, Event, frame, select_operation, communicate, check_connection,
}
use programmer.NetworkProgrammer.Process.{e_target}
use programmer.NetworkProgrammer.Communicate.{bump}
use programmer.NetworkProgrammer.Refused.{communicate_refused}
use programmer.Target.{Target, handle, is_discovery, same_address}
use programmer.System.{erase, read, reset, checksum, call}
use programmer.Target.Safety.{IsSound}
use programmer.System.Asks.{Asks}
use programmer.System.Declines.{
  Declines, erase-Declines, read-Declines, reset-Declines, checksum-Declines,
}
use programmer.System.Linked.{
  IsLinked, IsPrepared, Performs, select_operation-IsPrepared, datagram, arrived, arrived-IsSound,
  arrived-Asks, accepted,
}

module _ (me there : Address) (q : NetworkProgrammer) (t : Target) (s op a n st : ℕ)
    (h : IsPrepared me q t s op a n)
    (r : Declines
      (arrived me there q t s op a n h)
      me
      s
      op
      st
      (handle (arrived me there q t s op a n h) me op)) where
  -- The programmer after the reply.
  abbrev refused : NetworkProgrammer
  refused = record q {
    tx = bump q.tx;
    rx = overwrite q.rx 0 r.answer;
    rx_size = length r.answer;
    rx_address = there;
    events = [];
    sent = q.sent ++ (datagram me there q t s op a n h, q.tx_address) ∷ [];
  }

  exchange_refused :
      st ≢ Status.done
      → st ≢ Status.in_progress
      → communicate (record q { events = frame r.answer there ∷ [] })
        ≡ (refused, throws (e_target st))
  exchange_refused failed final =
      communicate_refused q r.answer there [] st h.room (omega (arith, r.four))
        (omega (arith, r.four))
        (record {
          version = r.answered.version;
          seq = r.answered.seq ∙ sym h.asks.seq;
          operation = r.answered.operation ∙ sym h.asks.operation;
          status = r.answered.status;
          failed = failed;
          final = final;
        })

  refused-IsLinked : IsLinked me refused r.next
  refused-IsLinked =
      let size : length r.next.flash ≡ length t.flash = ap length r.flash in
      record {
        request = h.request;
        connected = h.connected;
        room = length-overwrite q.rx 0 r.answer ∙ h.room;
        byte = omega (arith, h.asks.seq, h.byte);
        sound = r.sound;
        small = omega (arith, size, h.small);
        known = ap (same_address me) r.programmer_addr ∙ h.known;
        seq = r.last_seq ∙ sym h.asks.seq;
      }

module _ (me there : Address) (p : NetworkProgrammer) (t : Target) (h : IsLinked me p t) where
  abbrev s : ℕ
  s = u8 (Header.seq p.tx + 1)

  -- A call whose request the device refuses, and which throws what `communicate` throws.
  pub refused-Performs :
      (method : Action (List ℕ)) (q : NetworkProgrammer) (op a n st : ℕ)
      → (prepared : IsPrepared me q t s op a n) → q.sent ≡ p.sent
      → q.tx_address ≡ p.tx_address
      → is_discovery op ≡ false
      → st ≢ Status.done
      → st ≢ Status.in_progress
      → ((t1 : Target)
          → IsSound t1
          → Asks t1.buf s op a n
          → t1.last_seq ≡ s
          → length t1.flash ≡ length t.flash
          → Declines t1 me s op st (handle t1 me op))
      → ((es : List Event) (after : NetworkProgrammer)
          → communicate (record q { events = es }) ≡ (after, throws (e_target st))
          → method (record p { events = es }) ≡ (after, throws (e_target st)))
      → Performs me there method a p t (t.flash, throws (e_target st))
  refused-Performs method q op a n st prepared sent to other failed final declines step =
      let t1 = arrived me there q t s op a n prepared in
      let r =
        declines t1 (arrived-IsSound me there q t s op a n prepared)
          (arrived-Asks me there q t s op a n prepared) refl refl in
      let answered = exchange_refused me there q t s op a n st prepared r failed final in
      let after = refused me there q t s op a n st prepared r in
      record {
        after = after;
        next = r.next;
        calls = record {
          datagram = datagram me there q t s op a n prepared;
          replies = _;
          sends = λ i. sent i ++ (datagram me there q t s op a n prepared, to i) ∷ [];
          round = accepted me there q t s op a n prepared other ∙ r.returns;
          returns = step (frame r.answer there ∷ []) after answered;
        };
        place = prepared.asks.address;
        flash = r.flash;
        size = ap length r.flash;
        linked = refused-IsLinked me there q t s op a n st prepared r;
      }

  pub erase-refused :
      (a : ℕ)
      → a < 2 ^ 32
      → ((a % 1024 == 0) && ltb a (length t.flash)) ≡ false
      → Performs me there (call (erase a)) a p t (t.flash, throws (e_target Status.inv_param))
  unfolding call NetworkProgrammer.erase check_connection is_discovery handle select_operation
  erase-refused a small e =
      refused-Performs (call (erase a)) (select_operation Op.erase a 0 p) Op.erase a 0
        Status.inv_param (select_operation-IsPrepared p Op.erase a 0 h small (omega arith)) refl
        refl refl (λ x. absurd (omega (arith, x))) (λ x. absurd (omega (arith, x)))
        (λ t1 b k q m. erase-Declines t1 me s Op.erase a 0 b k q (rw m e))
        (λ es after x. rw (h.connected, x) refl)

  pub read-refused :
      (a n : ℕ)
      → n < 2 ^ 16
      → a + n < 2 ^ 32
      → (leb (a + n) (length t.flash) && leb n 1496) ≡ false
      → Performs me there (call (read a n)) a p t (t.flash, throws (e_target Status.inv_param))
  unfolding call NetworkProgrammer.read check_connection is_discovery handle select_operation
  read-refused a n short small e =
      let whole : u16 n ≡ n = omega arith in
      refused-Performs (call (read a n)) (select_operation Op.read a n p) Op.read a n
        Status.inv_param (select_operation-IsPrepared p Op.read a n h (omega arith) short) refl refl
        refl (λ x. absurd (omega (arith, x))) (λ x. absurd (omega (arith, x)))
        (λ t1 b k q m. read-Declines t1 me s Op.read a n b k q small (rw m e))
        (λ es after x. rw (h.connected, whole, x) refl)

  pub reset-refused :
      Performs me there (call reset) 0 p t (t.flash, throws (e_target Status.inv_op))
  unfolding call NetworkProgrammer.reset check_connection is_discovery select_operation
  reset-refused =
      refused-Performs (call reset) (select_operation Op.reset 0 0 p) Op.reset 0 0 Status.inv_op
        (select_operation-IsPrepared p Op.reset 0 0 h (omega arith) (omega arith)) refl refl refl
        (λ x. absurd (omega (arith, x))) (λ x. absurd (omega (arith, x)))
        (λ t1 b k q m. reset-Declines t1 me s 0 0 b q k) (λ es after x. rw (h.connected, x) refl)

  pub checksum-refused :
      (a n : ℕ)
      → a < 2 ^ 32
      → n < 2 ^ 16
      → Performs me there (call (checksum a n)) a p t (t.flash, throws (e_target Status.inv_op))
  unfolding call NetworkProgrammer.checksum is_discovery select_operation
  checksum-refused a n small short =
      let whole : u16 n ≡ n = omega arith in
      refused-Performs (call (checksum a n)) (select_operation Op.checksum a n p) Op.checksum a n
        Status.inv_op (select_operation-IsPrepared p Op.checksum a n h small short) refl refl refl
        (λ x. absurd (omega (arith, x))) (λ x. absurd (omega (arith, x)))
        (λ t1 b k q m. checksum-Declines t1 me s a n b q k) (λ es after x. rw (whole, x) refl)
