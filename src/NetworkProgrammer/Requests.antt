-- ===== src/NetworkProgrammer/Requests.antt =====
-- The requests of `write` and `erase`: the address in their header, and the bytes of a write.
use programmer.Prelude.{
  sym, ◌++◌, drop, get_or-take, get_or-set, get_or-set_other, drop-set, drop-take,
  take-drop-overwrite, length-overwrite, ℕ, zero, suc, ◌+◌, ◌%◌, ◌^◌, ◌≤◌, ◌<◌, ◌≡◌, refl, ap, ◌∙◌,
  List, [], length, take, get_or, set, overwrite, get_or-set_ne, u8, ltb, true, false, arith,
  Bool-cases, inl, inr, All, length-set, length-take, ◌==◌,
}
use programmer.Exceptions.{Result, fault, Fault}
use programmer.Programmer
use programmer.Protocol.{be32_at, host32_at, set_be32, set_be16}
use programmer.Protocol.Header
use programmer.Protocol.Op
use programmer.Protocol.Fields.{get_or-overwrite_ne, be32_at-set_be32}
use programmer.NetworkProgrammer.{
  NetworkProgrammer, communicate, write, erase, fill_write, prepare_payload, select_operation,
  check_connection, is_connected, strategy, prog_desc,
}
use programmer.NetworkProgrammer.Communicate.{
  frames, to, arrives, bump, bumps, communicate-Communicates,
}

-- The address of a header depends on its four bytes.
pub address_same :
    (a b : List ℕ)
    → ((i : ℕ) → 4 ≤ i → i < 8 → get_or a i 0 ≡ get_or b i 0)
    → Header.address a ≡ Header.address b
unfolding Header.address be32_at host32_at
address_same a b h = rw (
  h 4 (omega arith) (omega arith),
  h 5 (omega arith) (omega arith),
  h 6 (omega arith) (omega arith),
  h 7 (omega arith) (omega arith),
)

pub address-set : (tx : List ℕ) (j v : ℕ) → j < 4 → Header.address (set tx j v) ≡ Header.address tx
address-set tx j v h =
    address_same (set tx j v) tx (λ i l k. get_or-set_ne tx j i v 0 (omega arith))

pub address-overwrite :
    (tx : List ℕ) (j : ℕ) (bs : List ℕ)
    → 8 ≤ j
    → Header.address (overwrite tx j bs) ≡ Header.address tx
address-overwrite tx j bs h =
    address_same (overwrite tx j bs) tx (λ i l k. get_or-overwrite_ne tx j bs i (inl (omega arith)))

address-bumps : (n : ℕ) (tx : List ℕ) → Header.address (bumps n tx) ≡ Header.address tx
unfolding Header.set_seq
address-bumps zero tx = refl
address-bumps (suc n) tx =
    address-bumps n (bump tx) ∙ address-set tx 1 (u8 (Header.seq tx + 1)) (omega arith)

address-communicate :
    (p : NetworkProgrammer)
    → All (λ e. arrives e ≡ true) p.events
    → Header.address (communicate p).0.tx ≡ Header.address p.tx
address-communicate p h =
    let c = communicate-Communicates p h in ap Header.address c.tx ∙ address-bumps c.count p.tx

-- `write` leaves the address in the header of its request as the last request had it, whatever
-- address it is called with and however the call ends, when no recvfrom would block.
pub address-write :
    (address : ℕ) (buffer : List ℕ) (p : NetworkProgrammer)
    → All (λ e. arrives e ≡ true) p.events
    → Header.address (write address buffer p).0.tx ≡ Header.address p.tx
unfolding write check_connection prepare_payload fill_write Header.set_operation set_be32
address-write address buffer p h = elim (Bool-cases (is_connected p.dev_desc)) [
  | inl c ↦ elim (Bool-cases (ltb (length buffer) 64)) [
    | inl s ↦ rw (c, s) (address-set p.tx 2 Op.write (omega arith))
    | inr s ↦
        rw (c, s)
          (address-communicate _ h
            ∙ address-overwrite _ 14 (take 64 buffer) (omega arith)
            ∙ address-overwrite _ 10 _ (omega arith)
            ∙ address-set p.tx 2 Op.write (omega arith))
  ]
  | inr c ↦ rw c refl
]

-- `erase` of a connected programmer puts its address into the header of its request, however the
-- call ends, when no recvfrom would block. The transmit buffer has its 128 bytes, and the address
-- is a 32-bit number.
pub address-erase :
    (address : ℕ) (p : NetworkProgrammer)
    → All (λ e. arrives e ≡ true) p.events
    → is_connected p.dev_desc ≡ true
    → length p.tx ≡ 128
    → address < 2 ^ 32
    → Header.address (erase address p).0.tx ≡ address
unfolding erase check_connection select_operation Header.set_operation Header.set_address
    Header.set_length set_be16
address-erase address p h c size l = rw c (
    address-communicate _ h
    ∙ address-overwrite _ 8 _ (omega arith)
    ∙ unfold Header.address in
      (be32_at-set_be32 (set p.tx 2 Op.erase) 4 address
        (omega (arith, length-set p.tx 2 Op.erase, size)) l).0)

-- A transmit buffer with a write of 64 bytes, and a datagram with it.
record Carries (bytes tx : List ℕ) : Type 0 where
  size : length tx ≡ 128
  payload : take 64 (drop 14 tx) ≡ bytes
  operation : Header.operation tx ≡ Op.write

pub record IsWrite (bytes datagram : List ℕ) : Type 0 where
  pub size : length datagram ≡ 78
  pub payload : drop 14 datagram ≡ bytes
  pub operation : Header.operation datagram ≡ Op.write

Carries-IsWrite : (bytes tx : List ℕ) → Carries bytes tx → IsWrite bytes (take 78 tx)
unfolding Header.operation
Carries-IsWrite bytes tx c = record {
  size = omega (arith, length-take 78 tx, c.size);
  payload = drop-take 64 14 tx ∙ c.payload;
  operation = get_or-take 78 tx 2 0 (omega arith) ∙ c.operation;
}

Carries-bump : (bytes tx : List ℕ) → Carries bytes tx → Carries bytes (bump tx)
unfolding Header.set_seq Header.operation
Carries-bump bytes tx c = record {
  size = length-set tx 1 _ ∙ c.size;
  payload = ap (take 64) (drop-set 14 tx 1 _ (omega arith)) ∙ c.payload;
  operation = get_or-set_other tx 1 2 _ 0 (omega arith) ∙ c.operation;
}

frames-IsWrite :
    (n : ℕ) (bytes tx : List ℕ) → Carries bytes tx → All (IsWrite bytes) (frames n 78 tx)
frames-IsWrite zero bytes tx c = tt
frames-IsWrite (suc n) bytes tx c =
    let next = Carries-bump bytes tx c in
    (Carries-IsWrite bytes (bump tx) next, frames-IsWrite n bytes (bump tx) next)

length-frames : (n size : ℕ) (tx : List ℕ) → length (frames n size tx) ≡ n
length-frames zero size tx = refl
length-frames (suc n) size tx = ap suc (length-frames n size (bump tx))

-- What a call of Programmer's `write` sends.
pub record Truncates (buffer : List ℕ) (p : NetworkProgrammer)
    (r : NetworkProgrammer × Result (Unit {0})) : Type 0 where
  pub datagrams : List (List ℕ)
  pub sent : r.0.sent ≡ p.sent ++ to p.tx_address datagrams
  pub least : 1 ≤ length datagrams
  pub few : length datagrams ≤ 3
  pub writes : All (IsWrite (take 64 buffer)) datagrams

-- Programmer's `write` hands on a buffer of up to 1496 bytes, and the network programmer sends the first 64
-- of them: each of the one to three datagrams of the call is an OP_WRITE of 78 bytes, of which the
-- last 64 are those; nothing else is sent. The address is that of a sector, the size a multiple of
-- 64 and not 0, the programmer is connected, its transmit buffer has its 128 bytes, and no recvfrom would
-- block.
pub write-Truncates :
    (address : ℕ) (buffer : List ℕ) (p : NetworkProgrammer)
    → address % 64 ≡ 0
    → length buffer % 64 ≡ 0
    → 64 ≤ length buffer
    → length buffer ≤ 1496
    → is_connected p.dev_desc ≡ true
    → length p.tx ≡ 128
    → All (λ e. arrives e ≡ true) p.events
    → Truncates buffer p (Programmer.write strategy address buffer p)
unfolding Programmer.write strategy write fill_write check_connection prog_desc prepare_payload
    Header.set_operation set_be32 Header.operation
write-Truncates address buffer p a b l k c size h =
    let whole : (address % 64 == 0) ≡ true = ground arith in
    let even : (length buffer % 64 == 0) ≡ true = ground arith in
    let fits : ltb 1496 (length buffer) ≡ false = ground arith in
    let enough : ltb (length buffer) 64 ≡ false = ground arith in
    let sector = set_be32 (set p.tx 2 Op.write) 10 address in
    let room : length sector ≡ 128 =
      length-overwrite (set p.tx 2 Op.write) 10 _ ∙ length-set p.tx 2 Op.write ∙ size in
    let tx = overwrite sector 14 (take 64 buffer) in
    let cut : length (take 64 buffer) ≡ 64 = omega (arith, length-take 64 buffer) in
    let carries : Carries (take 64 buffer) tx = record {
      size = length-overwrite sector 14 (take 64 buffer) ∙ room;
      payload =
          (λ i. take (sym cut i) (drop 14 tx))
          ∙ take-drop-overwrite sector 14 (take 64 buffer) (omega (arith, room, cut));
      operation =
          get_or-overwrite_ne sector 14 (take 64 buffer) 2 (inl (omega arith))
          ∙ get_or-overwrite_ne (set p.tx 2 Op.write) 10 _ 2 (inl (omega arith))
          ∙ get_or-set p.tx 2 2 Op.write 0 (omega (arith, size)) refl;
    } in
    let called = communicate-Communicates (record p { tx = tx; tx_size = 78 }) h in
    rw (whole, even, fits, c, enough)
      (record {
        datagrams = frames called.count 78 tx;
        sent = called.sent;
        least = omega (arith, called.least, length-frames called.count 78 tx);
        few = omega (arith, called.few, length-frames called.count 78 tx);
        writes = frames-IsWrite called.count (take 64 buffer) tx carries;
      })

-- A write of no bytes at an aligned address passes the tests of Programmer and makes a connected
-- network programmer copy 64 bytes from a buffer that has none.
pub write_nothing :
    (address : ℕ) (p : NetworkProgrammer)
    → address % 64 ≡ 0
    → is_connected p.dev_desc ≡ true
    → (Programmer.write strategy address [] p).1 ≡ fault Fault.out_of_bounds
unfolding Programmer.write strategy write fill_write check_connection prog_desc
write_nothing address p h c =
    let aligned : (address % 64 == 0) ≡ true = ground arith in rw (aligned, c) refl
