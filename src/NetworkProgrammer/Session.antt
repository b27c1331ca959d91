-- ===== src/NetworkProgrammer/Session.antt =====
-- The state of class NetworkProgrammer, and how it sends a request and waits for the answer:
-- TransmitBuffer, `process` and `communicate` of src/Programmer.cpp.
--
-- The last two fields of the state are the network: what will arrive, and what has been sent with
-- its receiver. Time is an event, the end of the time that `communicate` waits after a frame is
-- sent. Sends succeed.
use programmer.Prelude.{
  ℕ, zero, suc, ◌+◌, ◌-◌, ◌^◌, Bool, true, false, List, [], ◌∷◌, ◌++◌, length, take, overwrite, u8,
  ltb, if◌then◌else◌, Option,
}
use programmer.Exceptions.{Result, ok, throws, fault, Fault, throw, Thrown}
use programmer.Network.{Address}
use programmer.DeviceDescriptor.{DeviceDescriptor}
use programmer.Protocol.{request_size, reply_size}
use programmer.Protocol.Header
use programmer.NetworkProgrammer.Buffer.{rx_buffer_size}
use programmer.NetworkProgrammer.Process.{Reaction, ignore, extend_time, done, classify}

-- A datagram and its sender, a `recvfrom` that would block, the end of the time to wait.
pub data Event : Type 0 where
  frame : List ℕ → Address → Event
  would_block deadline : Event

pub record BootloaderInfo : Type 0 where
  pub device_id : ℕ
  pub version : ℕ
  pub address : ℕ

pub record NetworkProgrammer : Type 0 where
  pub tx : List ℕ
  pub tx_size : ℕ
  pub rx : List ℕ
  pub rx_size : ℕ
  pub tx_address : Address
  pub rx_address : Address
  pub bootloader : BootloaderInfo
  pub dev_desc : Option DeviceDescriptor
  pub broadcast : Bool
  pub events : List Event
  pub sent : List (List ℕ × Address)

-- A method: the state after it, and what it returns or throws.
abbrev pub Action {ℓ} : Type ℓ → Type ℓ
Action A = NetworkProgrammer → NetworkProgrammer × Result A

abbrev pub resume {ℓ κ} :
    {A : Type ℓ} {B : Type κ}
    → NetworkProgrammer
    → Result A
    → (A → Action B)
    → NetworkProgrammer × Result B
resume p (ok a) next = next a p
resume p (throws e) next = (p, throws e)
resume p (fault f) next = (p, fault f)

infixl 5 ◌>>◌ ◌>>=◌
abbrev pub ◌>>=◌ {ℓ κ} : {A : Type ℓ} {B : Type κ} → Action A → (A → Action B) → Action B
(first >>= next) p = resume (first p).0 (first p).1 next

abbrev pub ◌>>◌ {ℓ} : {B : Type ℓ} → Action (Unit {0}) → Action B → Action B
(first >> next) p = resume (first p).0 (first p).1 (λ done. next)

abbrev pub give {ℓ} : {A : Type ℓ} → Result A → Action A
give r p = (p, r)

abbrev pub modify : (NetworkProgrammer → NetworkProgrammer) → Action (Unit {0})
modify f p = (f p, ok tt)

-- `TransmitBuffer::select_operation`.
unfoldable pub select_operation : ℕ → ℕ → ℕ → NetworkProgrammer → NetworkProgrammer
select_operation op address length p = record p {
  tx = Header.set_length (Header.set_address (Header.set_operation p.tx op) address) length;
  tx_size = request_size;
}

-- `TransmitBuffer::prepare_payload` for a struct of the size.
unfoldable pub prepare_payload : ℕ → ℕ → NetworkProgrammer → NetworkProgrammer
prepare_payload op size p = record p {
  tx = Header.set_operation p.tx op;
  tx_size = request_size + size;
}

-- `sendto` of `TransmitBuffer::data`, which counts the sequence number.
unfoldable pub transmit : NetworkProgrammer → NetworkProgrammer
transmit p =
    let tx' = Header.set_seq p.tx (u8 (Header.seq p.tx + 1)) in
    record p { tx = tx'; sent = p.sent ++ (take p.tx_size tx', p.tx_address) ∷ [] }

-- From the test of the size on; `set_content_length` asserts that the size fits the buffer.
unfoldable pub accept_frame : NetworkProgrammer → ℕ → NetworkProgrammer × Result Reaction
accept_frame p size =
    if ltb size reply_size
    then (p, throw "A truncated frame was received.")
    else if ltb rx_buffer_size size
    then (p, fault Fault.assertion)
    else (record p { rx_size = size }, classify p.tx p.rx)

-- `process`, for a datagram: one that is longer than the buffer makes recvfrom fail.
unfoldable pub process : List ℕ → Address → Action Reaction
process bytes from p =
    let p' = record p { rx = overwrite p.rx 0 bytes; rx_address = from } in
    if ltb rx_buffer_size (length bytes)
    then (p', throws Thrown.socket_exception)
    else accept_frame p' (length bytes)

-- `process`, where recvfrom returns -1: in the test and as the argument it is a size_t.
unfoldable pub process_nothing : Action Reaction
process_nothing p = accept_frame p (2 ^ 64 - 1)

-- What the loop does with a frame: the rest of the loop, or an end of it with the events left.
unfoldable pub after_frame :
    List Event
    → NetworkProgrammer × Result Reaction
    → NetworkProgrammer × Result Bool
    → NetworkProgrammer × Result Bool
after_frame es (p, ok ignore) rest = rest
after_frame es (p, ok extend_time) rest = rest
after_frame es (p, ok done) rest = (record p { events = es }, ok true)
after_frame es (p, throws e) rest = (record p { events = es }, throws e)
after_frame es (p, fault f) rest = (record p { events = es }, fault f)

-- The inner loop of `communicate`: whether the reply came before the deadline. When nothing more
-- arrives, the deadline passes.
unfoldable pub listen : List Event → Action Bool
listen [] p = (record p { events = [] }, ok false)
listen (deadline ∷ es) p = (record p { events = es }, ok false)
listen (would_block ∷ es) p = let r = process_nothing p in after_frame es r (listen es r.0)
listen (frame bytes from ∷ es) p = let r = process bytes from p in after_frame es r (listen es r.0)

unfoldable pub attempts : ℕ → Action (Unit {0})
attempts zero p = (p, throw "The target did not respond within the specified time.")
attempts (suc n) p =
    let p' = transmit p in
    let again : NetworkProgrammer → NetworkProgrammer × Result (Unit {0}) = attempts n in
    resume (listen p'.events p').0 (listen p'.events p').1
      (λ received q. if received then (q, ok tt) else again q)

unfoldable pub communicate : Action (Unit {0})
communicate p = attempts 3 p
