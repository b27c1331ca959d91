-- ===== src/System/Writes.antt =====
-- A write of the programmer to the device: where its bytes end up.
use programmer.Prelude.{
  ℕ, ◌+◌, ◌%◌, ◌≤◌, ◌<◌, ◌≡◌, refl, ap, ◌∙◌, ◌⊎◌, inl, inr, false, ltb, List, [], ◌∷◌, ◌++◌, length,
  take, drop, get_or, overwrite, get_or-take, get_or-drop, length-take, length-drop,
  length-overwrite, u8, arith,
}
use programmer.Exceptions.{ok}
use programmer.Network.{Address}
use programmer.Protocol.Header
use programmer.Protocol.Op
use programmer.Protocol.Fields.{get_or-overwrite, get_or-overwrite_ne, get_or-overwrite_start}
use programmer.NetworkProgrammer
use programmer.NetworkProgrammer.{NetworkProgrammer, prepare_payload, fill_write, check_connection}
use programmer.NetworkProgrammer.Process.{takes_time}
use programmer.NetworkProgrammer.Communicate.{bump}
use programmer.Target.{Target, Reply, step, is_discovery}
use programmer.System.{arriving}
use programmer.System.Serves.{write-Serves}
use programmer.System.Linked.{
  IsLinked, IsPrepared, datagram, length-datagram, arrived, arrived-IsSound, arrived-Asks, accepted,
  answered, exchange, answered-IsLinked,
}
use programmer.System.Filled.{filled, filled-IsRequest, filled-Asks, payload_cell}

pub enough : (n : ℕ) → 64 ≤ n → ltb n 64 ≡ false
enough n h = ground arith

-- The cells that the device stores of a datagram, in its buffer.
stored : List ℕ → List ℕ → List ℕ
stored buf sent = take 64 (drop 16 (overwrite buf 0 sent))

length-stored : (buf sent : List ℕ) → length buf ≡ 1500 → length (stored buf sent) ≡ 64
unfolding stored
length-stored buf sent h = omega (
  arith,
  length-take 64 (drop 16 (overwrite buf 0 sent)),
  length-drop 16 (overwrite buf 0 sent),
  length-overwrite buf 0 sent,
)

stored_cell :
    (flash buf sent : List ℕ) (place i : ℕ)
    → length buf ≡ 1500
    → length sent ≡ 78
    → place + 64 ≤ length flash
    → i < 62
    → get_or (overwrite flash place (stored buf sent)) (place + i) 0 ≡ get_or sent (16 + i) 0
stored_cell flash buf sent place i h k l m =
    let size = length-stored buf sent h in
    get_or-overwrite flash place (stored buf sent) i (place + i) (omega (arith, size))
      (omega (arith, size)) refl
    ∙ unfold stored in
      (get_or-take 64 (drop 16 (overwrite buf 0 sent)) i 0 (omega arith)
        ∙ get_or-drop 16 (overwrite buf 0 sent) i 0
        ∙ get_or-overwrite_start buf sent (16 + i) (omega (arith, h, k)) (omega (arith, k)))

other_cell :
    (flash buf sent : List ℕ) (place i : ℕ)
    → length buf ≡ 1500
    → (i < place) ⊎ (place + 64 ≤ i)
    → get_or (overwrite flash place (stored buf sent)) i 0 ≡ get_or flash i 0
other_cell flash buf sent place i h o = get_or-overwrite_ne flash place (stored buf sent) i (
    let size = length-stored buf sent h in
    elim o [ inl a ↦ inl a | inr a ↦ inr (omega (arith, size)) ])

-- What a write comes to, with the address `place` that the header is left with.
pub record Misplaces (me there : Address) (address : ℕ) (buffer : List ℕ) (place : ℕ)
    (p : NetworkProgrammer) (t : Target) : Type 0 where
  pub after : NetworkProgrammer
  pub next : Target
  pub datagram : List ℕ
  pub replies : List Reply
  pub sends : after.sent ≡ p.sent ++ (datagram, p.tx_address) ∷ []
  pub round : step t datagram me ≡ ok (next, replies)
  pub returns :
      NetworkProgrammer.write address buffer (record p { events = arriving there replies })
      ≡ (after, ok tt)
  pub shifted : (i : ℕ) → i < 62 → get_or next.flash (place + i) 0 ≡ get_or buffer (2 + i) 0
  pub others : (i : ℕ) → (i < place) ⊎ (place + 64 ≤ i) → get_or next.flash i 0 ≡ get_or t.flash i 0
  pub place_kept : Header.address after.tx ≡ place
  pub size : length next.flash ≡ length t.flash
  pub linked : IsLinked me after next

-- The programmer before the request is sent.
abbrev pub prepared : ℕ → List ℕ → NetworkProgrammer → NetworkProgrammer
prepared address buffer p = record p { tx = filled address buffer p.tx; tx_size = 78 }

pub prepared-IsPrepared :
    {me : Address} {t : Target} (p : NetworkProgrammer) (address : ℕ) (buffer : List ℕ)
    → IsLinked me p t
    → IsPrepared me
        (prepared address buffer p)
        t
        (u8 (Header.seq p.tx + 1))
        Op.write
        (Header.address p.tx)
        (Header.length p.tx)
prepared-IsPrepared p address buffer h = record {
  request = filled-IsRequest address buffer p.tx h.request;
  asks = filled-Asks address buffer p.tx h.request;
  least = omega arith;
  most = omega arith;
  connected = h.connected;
  room = h.room;
  byte = omega arith;
  sound = h.sound;
  small = h.small;
  known = h.known;
  new = λ e. absurd (omega (arith, e, h.seq, h.byte));
}

-- A write to a device that answers returns, and stores its bytes in the wrong place: whatever
-- address it is called with, the device writes at the address that the request before had in its
-- header, and stores the buffer from the third byte on; the rest of the flash is as before, and so
-- is that address. That address is that of a sector and inside the flash, and the buffer has 64
-- bytes at least; the programmer is connected, its transmit buffer holds a request and its receive
-- buffer has its 1500 bytes, the device's state is sound and its flash has less than 4 GB, the
-- device knows the programmer and its last sequence number is that of the transmit buffer, which
-- is a byte, and every datagram is delivered.
pub write-Misplaces :
    (me there : Address) (address : ℕ) (buffer : List ℕ) (p : NetworkProgrammer) (t : Target)
    → IsLinked me p t
    → 64 ≤ length buffer
    → Header.address p.tx % 64 ≡ 0
    → Header.address p.tx < length t.flash
    → Misplaces me there address buffer (Header.address p.tx) p t
unfolding NetworkProgrammer.write check_connection prepare_payload fill_write is_discovery
    takes_time stored
write-Misplaces me there address buffer p t h l k m =
    let q = prepared address buffer p in
    let s = u8 (Header.seq p.tx + 1) in
    let place = Header.address p.tx in
    let n = Header.length p.tx in
    let ready : IsPrepared me q t s Op.write place n = prepared-IsPrepared p address buffer h in
    let sent = datagram me there q t s Op.write place n ready in
    let size : length sent ≡ 78 = length-datagram me there q t s Op.write place n ready in
    let t1 = arrived me there q t s Op.write place n ready in
    let r =
      write-Serves t1 me s place n (arrived-IsSound me there q t s Op.write place n ready)
        (arrived-Asks me there q t s Op.write place n ready) refl k m in
    let inside : place + 64 ≤ length t.flash = omega (arith, k, m, h.sound.pages) in
    let fits : ltb (length buffer) 64 ≡ false = enough (length buffer) l in
    record {
      after = answered me there q t s Op.write place n ready r.progress r.answer;
      next = r.next;
      datagram = sent;
      replies = _;
      sends = refl;
      round = accepted me there q t s Op.write place n ready refl ∙ r.returns;
      returns =
          rw
            (h.connected, fits, exchange me there q t s Op.write place n ready r (omega arith) refl)
            refl;
      shifted = λ i j.
          ap (λ f. get_or f (place + i) 0) r.flash
          ∙ stored_cell t.flash t.buf sent place i h.sound.buffer size inside j
          ∙ get_or-take 78 (bump q.tx) (16 + i) 0 (omega arith)
          ∙ payload_cell address buffer p.tx h.request i l j;
      others = λ i o.
          ap (λ f. get_or f i 0) r.flash ∙ other_cell t.flash t.buf sent place i h.sound.buffer o;
      place_kept = ready.asks.address;
      size = ap length r.flash ∙ length-overwrite t.flash place _;
      linked =
          answered-IsLinked me there q t s Op.write place n ready r
            (length-overwrite t.flash place _);
    }
