-- ===== src/Target.antt =====
-- src/Target.cpp and include/Programmer/Target.hpp: the simulated device.
--
-- A step handles one datagram: one round of the `while` loop of `start`. The state holds the
-- members and the variables that live across the rounds, the receive buffer among them: the bytes
-- behind a short datagram are those of earlier ones. What `_socket.sendto` is given is the list of
-- replies. The sends succeed, and output to stdout is left out.
pub mod Names
pub mod Safety
pub mod Reads
pub mod Total
pub mod Access
pub mod Memory
pub mod Runs
use programmer.Prelude.{
  ℕ, ◌+◌, ◌-◌, ◌*◌, ◌%◌, Bool, not, ◌&&◌, ◌||◌, List, [], ◌∷◌, ◌++◌, length, take, drop, replicate,
  overwrite, u32, ltb, leb, ◌==◌, if◌then◌else◌,
}
use programmer.Exceptions.{Result, ok, throws, fault, Fault, socket_exception, ◌>>=◌}
use programmer.Network.{Address}
use programmer.Protocol.{
  version, request_size, reply_size, discover_reply_size, set_be16, set_be32, host16,
}
use programmer.Protocol.Op
use programmer.Protocol.Status
use programmer.Protocol.Header

abbrev pub erase_size : ℕ
erase_size = 1024

abbrev pub write_size : ℕ
write_size = 64

abbrev pub buffer_size : ℕ
buffer_size = 1500

-- Where `buf.request.write` stands: struct Write is not packed, so the compiler aligns it to the
-- four bytes of its first member.
abbrev pub write_offset : ℕ
write_offset = 12

unfoldable pub same_address : Address → Address → Bool
same_address a b = (a.family == b.family) && (a.ip == b.ip) && (a.port == b.port)

pub record Target : Type 0 where
  pub dev_id : ℕ
  pub flash : List ℕ
  pub programmer_addr : Address
  pub last_seq : ℕ
  pub buf : List ℕ

pub record Reply : Type 0 where
  pub bytes : List ℕ
  pub receiver : Address

-- The constructor, and `start` up to the loop. `programmer_addr` and the buffer start out with
-- whatever the stack holds; the flash is in units of 1024 bytes.
unfoldable pub start : ℕ → ℕ → Address → List ℕ → Target
start dev_id flash_size garbage_addr garbage = record {
  dev_id = dev_id;
  flash = replicate (flash_size * 1024) 0;
  programmer_addr = garbage_addr;
  last_seq = 0;
  buf = garbage;
}

-- The datagram for a payload of `size` bytes: the reply header stands in front of it.
unfoldable pub send : Target → ℕ → Address → Reply
send t size addr = record { bytes = take (size + reply_size) t.buf; receiver = addr }

unfoldable pub set_status : Target → ℕ → Target
set_status t status = record t { buf = Header.set_status t.buf status }

-- `header.status = status; send(&buf, 0, &rx_addr);`
unfoldable pub refuse : Target → ℕ → Address → Result (Target × List Reply)
refuse t status from = let t' = set_status t status in ok (t', send t' 0 from ∷ [])

unfoldable pub handle_discover : Target → Address → Result (Target × List Reply)
handle_discover t from =
    let t1 = set_status (record t { programmer_addr = from }) Status.done in
    let t2 = record t1 {
      buf =
          overwrite (set_be16 (set_be32 t1.buf (reply_size + 2) 0xDEADBEEF) reply_size 0x0100)
            (reply_size + 6) (host16 t1.dev_id);
    } in
    ok (t2, send t2 discover_reply_size from ∷ [])

-- memset and memcpy into the flash.
unfoldable pub store : Target → ℕ → List ℕ → Result Target
store t address bytes =
    if leb (address + length bytes) (length t.flash)
    then ok (record t { flash = overwrite t.flash address bytes })
    else fault Fault.out_of_bounds

-- What memset leaves in a page.
unfoldable pub blank_page : List ℕ
blank_page = replicate erase_size 0xff

unfoldable pub handle_erase : Target → Address → Result (Target × List Reply)
handle_erase t from =
    if not (Header.address t.buf % erase_size == 0) || leb (length t.flash) (Header.address t.buf)
    then refuse t Status.inv_param from
    else do
      let t1 = set_status t Status.in_progress
      t2 ← store t1 (Header.address t1.buf) blank_page
      let t3 = set_status t2 Status.done
      ok (t3, send t1 0 from ∷ send t3 0 from ∷ [])

unfoldable pub handle_write : Target → Address → Result (Target × List Reply)
handle_write t from =
    if not (Header.address t.buf % write_size == 0) || leb (length t.flash) (Header.address t.buf)
    then refuse t Status.inv_param from
    else do
      let t1 = set_status t Status.in_progress
      t2 ← store t1 (Header.address t1.buf) (take write_size (drop (write_offset + 4) t1.buf))
      let t3 = set_status t2 Status.done
      ok (t3, send t1 0 from ∷ send t3 0 from ∷ [])

-- memcpy out of the flash.
unfoldable pub load : Target → ℕ → ℕ → Result (List ℕ)
load t address count =
    if leb (address + count) (length t.flash)
    then ok (take count (drop address t.flash))
    else fault Fault.out_of_bounds

-- The sum of the test wraps in uint32_t.
unfoldable pub handle_read : Target → Address → Result (Target × List Reply)
handle_read t from =
    let addr = Header.address t.buf in
    let count = Header.length t.buf in
    if ltb (length t.flash) (u32 (addr + count)) || ltb (buffer_size - reply_size) count
    then refuse t Status.inv_param from
    else do
      let t1 = set_status t Status.in_progress
      bytes ← load t1 addr count
      let t2 = record t1 { buf = overwrite t1.buf reply_size bytes }
      let t3 = set_status t2 Status.done
      ok (t3, send t1 0 from ∷ send t3 count from ∷ [])

-- The switch over the operation.
unfoldable pub handle : Target → Address → ℕ → Result (Target × List Reply)
handle t from op =
    if (op == Op.discover) || (op == Op.net_config)
    then handle_discover t from
    else if op == Op.erase
    then handle_erase t from
    else if op == Op.write
    then handle_write t from
    else if op == Op.read
    then handle_read t from
    else refuse t Status.inv_op from

unfoldable pub is_discovery : ℕ → Bool
is_discovery op = (op == Op.discover) || (op == Op.net_config)

-- From the test of the sequence number on.
unfoldable pub accept : Target → Address → Result (Target × List Reply)
accept t from =
    let t' = record t { last_seq = Header.seq t.buf } in
    let op = Header.operation t.buf in
    if not (is_discovery op) && (Header.seq t.buf == t.last_seq)
    then ok (t, [])
    else if not (is_discovery op) && not (same_address from t.programmer_addr)
    then refuse t Status.inv_src from
    else handle t' from op

-- A datagram that is longer than the buffer makes recvfrom fail.
unfoldable pub step : Target → List ℕ → Address → Result (Target × List Reply)
step t datagram from =
    let t' = record t { buf = overwrite t.buf 0 datagram } in
    if ltb buffer_size (length datagram)
    then throws socket_exception
    else if ltb (length datagram) request_size
    then ok (t', [])
    else if not (Header.version t'.buf == version)
    then ok (t', [])
    else if not (Header.status t'.buf == Status.request)
    then ok (t', [])
    else accept t' from

-- The loop of `start`, on the datagrams that arrive and their senders.
unfoldable pub run : Target → List (List ℕ × Address) → Result (Target × List Reply)
run t [] = ok (t, [])
run t (d ∷ ds) = do first ← step t d.0 d.1; rest ← run first.0 ds; ok (rest.0, first.1 ++ rest.1)
