-- ===== src/System/Exchanges.antt =====
-- One call: the programmer's method returns what the command does to the device's memory.
use programmer.Prelude.{
  u8, u16, drop-take, ℕ, ◌+◌, ◌-◌, ◌^◌, ◌≤◌, ◌<◌, ◌≡◌, refl, sym, ap, ◌∙◌, true, ltb, leb, ◌==◌,
  ◌&&◌, if◌then◌else◌, Bool-cases, inl, inr, ◌%◌, [], List, length, take, drop, overwrite,
  length-overwrite, length-take, length-drop, take-drop-overwrite, u16, arith,
}
use programmer.Exceptions.{Result, ok, throw}
use programmer.Network.{Address}
use programmer.Protocol.Header
use programmer.Protocol.Op
use programmer.Protocol.Fields.{get_or-overwrite_start}
use programmer.NetworkProgrammer
use programmer.NetworkProgrammer.{
  NetworkProgrammer, select_operation, check_connection, get_payload,
}
use programmer.NetworkProgrammer.Process.{takes_time}
use programmer.Target.{Target, blank_page, is_discovery}
use programmer.System.{Command, erase, read, reset, checksum, perform, IsValid, named, call}
use programmer.System.Refusals.{erase-refused, read-refused, reset-refused, checksum-refused}
use programmer.System.Serves.{erase-Serves, read-Serves}
use programmer.System.Linked.{
  IsLinked, IsPrepared, Performs, select_operation-IsPrepared, datagram, arrived, arrived-IsSound,
  arrived-Asks, accepted, answered, exchange, answered-IsLinked,
}

-- What a read of the memory returns: without a byte there is no payload.
abbrev read_result : ℕ → ℕ → List ℕ → Result (List ℕ)
read_result a n memory =
    if n == 0 then throw "No payload available." else ok (take n (drop a memory))

-- `get_payload` of an answer: the bytes behind its header, when there are any.
payload :
    (op : ℕ) (q : NetworkProgrammer) (buf answer bytes : List ℕ)
    → length buf ≡ 1500
    → length answer ≡ 4 + length bytes
    → length bytes ≤ 1496
    → Header.operation answer ≡ op
    → drop 4 answer ≡ bytes
    → (n : ℕ) → length bytes ≡ n
    → get_payload op (record q { rx = overwrite buf 0 answer; rx_size = length answer }) ≡ (
      record q { rx = overwrite buf 0 answer; rx_size = length answer },
      if n == 0 then throw "No payload available." else ok bytes,
    )
unfolding get_payload Header.operation
payload op q buf answer bytes room size most same carries n size' =
    let cell = get_or-overwrite_start buf answer 2 (omega (arith, room)) (omega arith) in
    let code : (Header.operation answer == op) ≡ true = ground (arith, same) in
    let count : length answer - 4 + 4 ≡ length answer = omega arith in
    let back : take (length answer - 4) (drop 4 (overwrite buf 0 answer)) ≡ bytes =
      sym (drop-take (length answer - 4) 4 (overwrite buf 0 answer))
      ∙ rw count (ap (drop 4) (take-drop-overwrite buf 0 answer (omega (arith, room))) ∙ carries) in
    let none' : leb (length answer) 4 ≡ (n == 0) = ground arith in
    elim (Bool-cases (n == 0)) [
      | inl e ↦ rw (none', e) refl
      | inr e ↦ rw (none', e, cell, code, back) refl
    ]

erase-carried :
    (me there : Address) (p : NetworkProgrammer) (t : Target) (a : ℕ)
    → IsLinked me p t
    → (a % 1024 ≡ 0) × (a < length t.flash)
    → Performs me there (call (erase a)) a p t (overwrite t.flash a blank_page, ok [])
unfolding call NetworkProgrammer.erase check_connection is_discovery takes_time blank_page
    select_operation
erase-carried me there p t a h v =
    let small : a < 2 ^ 32 = omega (arith, h.small, v.1) in
    let s = u8 (Header.seq p.tx + 1) in
    let q = select_operation Op.erase a 0 p in
    let prepared : IsPrepared me q t s Op.erase a 0 =
      select_operation-IsPrepared p Op.erase a 0 h small (omega arith) in
    let r =
      erase-Serves (arrived me there q t s Op.erase a 0 prepared) me s a 0
        (arrived-IsSound me there q t s Op.erase a 0 prepared)
        (arrived-Asks me there q t s Op.erase a 0 prepared) refl v.0 v.1 in
    let kept = length-overwrite t.flash a blank_page in
    record {
      after = answered me there q t s Op.erase a 0 prepared r.progress r.answer;
      next = r.next;
      calls = record {
        datagram = datagram me there q t s Op.erase a 0 prepared;
        replies = _;
        sends = refl;
        round = accepted me there q t s Op.erase a 0 prepared refl ∙ r.returns;
        returns =
            rw (h.connected, exchange me there q t s Op.erase a 0 prepared r (omega arith) refl)
              refl;
      };
      place = prepared.asks.address;
      flash = r.flash;
      size = ap length r.flash ∙ kept;
      linked = answered-IsLinked me there q t s Op.erase a 0 prepared r kept;
    }

read-carried :
    (me there : Address) (p : NetworkProgrammer) (t : Target) (a n : ℕ)
    → IsLinked me p t
    → (a + n ≤ length t.flash) × (n ≤ 1496)
    → Performs me there (call (read a n)) a p t (t.flash, read_result a n t.flash)
unfolding call NetworkProgrammer.read check_connection is_discovery takes_time select_operation
read-carried me there p t a n h v =
    let small : a < 2 ^ 32 = omega (arith, h.small, v.0) in
    let s = u8 (Header.seq p.tx + 1) in
    let q = select_operation Op.read a n p in
    let prepared : IsPrepared me q t s Op.read a n =
      select_operation-IsPrepared p Op.read a n h small (omega (arith, v.1)) in
    let whole : u16 n ≡ n = omega arith in
    let bytes = take n (drop a t.flash) in
    let count : length bytes ≡ n =
      omega (arith, length-take n (drop a t.flash), length-drop a t.flash, v.0) in
    let r =
      read-Serves (arrived me there q t s Op.read a n prepared) me s a n
        (arrived-IsSound me there q t s Op.read a n prepared)
        (arrived-Asks me there q t s Op.read a n prepared) refl h.small v.0 v.1 in
    let after = answered me there q t s Op.read a n prepared r.progress r.answer in
    let got =
      payload Op.read after (overwrite p.rx 0 r.progress) r.answer bytes
        (length-overwrite p.rx 0 r.progress ∙ h.room) r.size (omega (arith, count, v.1))
        r.answered.operation r.carries n count in
    record {
      after = after;
      next = r.next;
      calls = record {
        datagram = datagram me there q t s Op.read a n prepared;
        replies = _;
        sends = refl;
        round = accepted me there q t s Op.read a n prepared refl ∙ r.returns;
        returns =
            rw
              (
                h.connected,
                whole,
                exchange me there q t s Op.read a n prepared r (omega (arith, count, v.1)) refl,
              )
              got;
      };
      place = prepared.asks.address;
      flash = r.flash;
      size = ap length r.flash;
      linked = answered-IsLinked me there q t s Op.read a n prepared r refl;
    }

pub call-Performs :
    (me there : Address) (p : NetworkProgrammer) (t : Target) (c : Command)
    → IsLinked me p t
    → IsValid c
    → Performs me there (call c) (named c) p t (perform c t.flash)
unfolding perform blank_page
call-Performs me there p t (erase a) h v =
    elim (Bool-cases ((a % 1024 == 0) && ltb a (length t.flash))) [
      | inl e ↦ rw e (erase-carried me there p t a h (ground arith, ground arith))
      | inr e ↦ rw e (erase-refused me there p t h a v e)
    ]
call-Performs me there p t (read a n) h v =
    elim (Bool-cases (leb (a + n) (length t.flash) && leb n 1496)) [
      | inl e ↦ rw e (read-carried me there p t a n h (ground arith, ground arith))
      | inr e ↦ rw e (read-refused me there p t h a n v.0 v.1 e)
    ]
call-Performs me there p t reset h v = reset-refused me there p t h
call-Performs me there p t (checksum a n) h v = checksum-refused me there p t h a n v.0 v.1
