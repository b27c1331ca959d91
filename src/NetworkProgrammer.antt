-- ===== src/NetworkProgrammer.antt =====
-- class NetworkProgrammer of src/Programmer.cpp and include/Programmer/Programmer.hpp.
--
-- The methods, over the state and the exchange of frames in Session. Socket options succeed; output
-- to stdout is left out.
pub mod Buffer
pub mod Session
pub mod Process
pub mod Verdict
pub mod Communicate
pub mod Answered
pub mod Refused
pub mod Keeps
pub mod EveryMethod
pub mod Requests
pub mod Frames
pub mod Methods
pub mod Wire
pub mod Broadcast
unfoldable pub use programmer.NetworkProgrammer.Session.*
use Prim.Native.String.{String}
use programmer.Prelude.{
  ℕ, ◌+◌, ◌-◌, Bool, true, false, not, ◌||◌, List, [], ◌∷◌, length, take, drop, overwrite, u16, ltb,
  leb, ◌==◌, if◌then◌else◌, Option, none, some,
}
use programmer.Exceptions.{Result, ok, throws, fault, Fault, throw, rethrow, text}
use programmer.DeviceDescriptor.{DeviceDescriptor, find}
use programmer.Programmer.{ProgrammerStrategy, ProgrammerDescriptor, not_supported}
use programmer.Protocol.{
  byteswap16, request_size, reply_size, discover_reply_size, network_config_size, write_struct_size,
  checksum_reply_size, set_be32, be16_at, be32_at, host16_at, host32,
}
use programmer.Protocol.Header
use programmer.Protocol.Op
use programmer.NetworkProgrammer.Buffer.{rx_buffer_size, fresh_tx}

unfoldable pub is_connected : Option DeviceDescriptor → Bool
is_connected none = false
is_connected (some d) = true

unfoldable pub check_connection : Action (Unit {0})
check_connection p =
    (p, if is_connected p.dev_desc then ok tt else throw "Not connected to a target.")

-- `ReceiveBuffer::get_payload`: the bytes behind the header.
unfoldable pub get_payload : ℕ → Action (List ℕ)
get_payload op p = (
  p,
  if leb p.rx_size reply_size
      then throw "No payload available."
      else if not (Header.operation p.rx == op)
      then throw "The buffer contains another data type."
      else ok (take (p.rx_size - reply_size) (drop reply_size p.rx)),
)

-- The same, for a struct of the size: the payload from its start on.
unfoldable pub get_struct : ℕ → ℕ → Action (List ℕ)
get_struct size op p = (
  p,
  if ltb p.rx_size (reply_size + size)
      then throw "Not enough data in the buffer."
      else if not (Header.operation p.rx == op)
      then throw "The buffer contains another data type."
      else ok (drop reply_size p.rx),
)

unfoldable pub set_address : ℕ → ℕ → NetworkProgrammer → NetworkProgrammer
set_address address port p = record p {
  tx_address = record p.tx_address { ip = address; port = byteswap16 port };
  broadcast = (address == 0xFFFFFFFF) || p.broadcast;
}

-- `catch (...) { _socket.set_broadcast(false); throw; }`, and the same after a reply.
unfoldable pub end_broadcast :
    NetworkProgrammer × Result (Unit {0}) → NetworkProgrammer × Result (Unit {0})
end_broadcast (p, ok unit) = (record p { tx_address = p.rx_address; broadcast = false }, ok tt)
end_broadcast (p, throws e) = (record p { broadcast = false }, throws e)
end_broadcast (p, fault f) = (p, fault f)

unfoldable pub read_info : List ℕ → BootloaderInfo
read_info info = record {
  device_id = host16_at info 6;
  version = be16_at info 0;
  address = be32_at info 2;
}

unfoldable pub process_discover : ℕ → Action (Unit {0})
process_discover op = do
  λ p. end_broadcast (communicate p)
  info ← get_struct discover_reply_size op
  modify (λ p. record p { bootloader = read_info info })
  d ← give (find (read_info info).device_id)
  modify (λ p. record p { dev_desc = some d })

unfoldable pub discover_device : ℕ → Action (Unit {0})
discover_device port = do
  modify (set_address 0xFFFFFFFF port)
  modify (select_operation Op.discover 0 0)
  process_discover Op.discover

-- `catch (Exception& err) { err.prepend(message); throw; }`
abbrev pub explain {ℓ} : {A : Type ℓ} → String → Action A → Action A
explain message run p = let r = run p in (r.0, rethrow (text message) r.1)

abbrev pub mac : List ℕ
mac = 0xCF ∷ 0x8B ∷ 0xC1 ∷ 0xB5 ∷ 0xB8 ∷ 0x0D ∷ []

-- What `configure_device` puts in the payload: the MAC address, then the IP address as it is.
unfoldable pub fill_config : ℕ → NetworkProgrammer → NetworkProgrammer
fill_config ip_address p = record p {
  tx = overwrite (overwrite p.tx (request_size + 6) (host32 ip_address)) request_size mac;
}

unfoldable pub configure_device : ℕ → ℕ → Action (Unit {0})
configure_device ip_address port = do
  modify (set_address 0xFFFFFFFF port)
  modify (prepare_payload Op.net_config network_config_size)
  modify (fill_config ip_address)
  explain "Unable to configure network connection." (process_discover Op.net_config)

unfoldable pub connect_device : ℕ → ℕ → Action (Unit {0})
connect_device ip_address port = do
  modify (set_address ip_address port)
  modify (select_operation Op.discover 0 0)
  explain "Unable to connect to a target." (process_discover Op.discover)

unfoldable pub read : ℕ → ℕ → Action (List ℕ)
read address size = do
  check_connection
  modify (select_operation Op.read address (u16 size))
  communicate
  get_payload Op.read

-- The memcpy of `write`, of all 64 bytes of the struct.
unfoldable pub fill_write : ℕ → List ℕ → Action (Unit {0})
fill_write address buffer p = if ltb (length buffer) 64 then (p, fault Fault.out_of_bounds) else (
  record p {
    tx = overwrite (set_be32 p.tx request_size address) (request_size + 4) (take 64 buffer);
  },
  ok tt,
)

unfoldable pub write : ℕ → List ℕ → Action (Unit {0})
write address buffer = do
  check_connection
  modify (prepare_payload Op.write write_struct_size)
  fill_write address buffer
  communicate

unfoldable pub erase : ℕ → Action (Unit {0})
erase address = do check_connection; modify (select_operation Op.erase address 0); communicate

unfoldable pub reset : Action (Unit {0})
reset = do check_connection; modify (select_operation Op.reset 0 0); communicate

unfoldable pub checksum : ℕ → ℕ → Action ℕ
checksum address size = do
  modify (select_operation Op.checksum address (u16 size))
  communicate
  result ← get_struct checksum_reply_size Op.checksum
  give (ok (be32_at result 0))

-- The constructor, over what the memory holds. AF_INET is 2, the port 666 in network order.
unfoldable pub create : NetworkProgrammer → NetworkProgrammer
create garbage = record garbage {
  tx = fresh_tx garbage.tx;
  tx_size = 0;
  tx_address = record { family = 2; ip = 0; port = byteswap16 666 };
  dev_desc = none;
  broadcast = false;
  sent = [];
}

-- `_prog_desc`: ReceiveBuffer::MAX_PAYLOAD for both.
unfoldable pub prog_desc : ProgrammerDescriptor
prog_desc = record {
  max_write = rx_buffer_size - reply_size;
  max_read = rx_buffer_size - reply_size;
}

-- The virtual methods; the last two are those of IProgrammerStrategy.
unfoldable pub strategy : ProgrammerStrategy NetworkProgrammer
strategy = record {
  read = read;
  write = write;
  erase = erase;
  reset = reset;
  checksum = checksum;
  chip_erase = not_supported;
  erase_write = λ address buffer. not_supported;
  descriptor = prog_desc;
}
