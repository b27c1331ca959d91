-- ===== src/Tests/Systems.antt =====
-- The composed system at concrete inputs, and the theorems at those inputs.
use programmer.Prelude.{◌≡◌, refl, false, List, [], ◌∷◌, replicate, arith, some, none, All}
use programmer.Exceptions.{ok}
use programmer.Network.{Address}
use programmer.DeviceDescriptor.{
  DeviceDescriptor, find, get_id, from_option, find_device, supported_devices, kb,
}
use programmer.Protocol.Header
use programmer.NetworkProgrammer.{NetworkProgrammer, is_connected}
use programmer.NetworkProgrammer.Frames.{IsRequest}
use programmer.Target.{Target, same_address}
use programmer.Target.Safety.{IsSound}
use programmer.System.{Command, erase, read, reset, checksum, IsValid}
use programmer.System.Linked.{IsLinked}
use programmer.System.Opened.{Opens, connect_device-Opens}
use programmer.System.Refines.{Refines, session-Refines}
use programmer.Protocol.{be32_at, host32_at, byteswap32}
use programmer.System.Writes.{Misplaces, write-Misplaces}
use programmer.System.Requests.{Request, command, write, IsServed, Follows}
use programmer.System.Followed.{requests-Follows}
use programmer.Protocol.Status
use programmer.ProtoTester.Judged.{Judges, run_test-Judges}

abbrev client : Address
client = record { family = 2; ip = 16777343; port = 39426 }

abbrev device_address : Address
device_address = record { family = 2; ip = 50464522; port = 39426 }

abbrev pic : DeviceDescriptor
pic = record { dev_id = 192; name = "PIC18F66J60"; flash_size = 65536; config_address = 65528 }

-- A connected programmer that has sent its seventh request, and a device of 1024 bytes.
abbrev host : NetworkProgrammer
host = record {
  tx = 1 ∷ 7 ∷ 2 ∷ 0 ∷ replicate 124 0;
  tx_size = 10;
  rx = replicate 1500 0;
  rx_size = 0;
  tx_address = device_address;
  rx_address = device_address;
  bootloader = record { device_id = 0x1800; version = 256; address = 0x1F000 };
  dev_desc = some pic;
  broadcast = false;
  events = [];
  sent = [];
}

abbrev device : Target
device = record {
  dev_id = 0x1800;
  flash = replicate 1024 0;
  programmer_addr = client;
  last_seq = 7;
  buf = replicate 1500 0;
}

host-IsRequest : IsRequest host.tx
unfolding Header.version Header.status
host-IsRequest = record { size = refl; version = refl; status = refl }

device-IsSound : IsSound device
device-IsSound = record { buffer = refl; pages = refl }

host-IsLinked : IsLinked client host device
unfolding Header.seq is_connected same_address
host-IsLinked = record {
  request = host-IsRequest;
  connected = refl;
  room = refl;
  byte = omega arith;
  sound = device-IsSound;
  small = omega arith;
  known = refl;
  seq = refl;
}

-- The third is no page, the fourth leaves the flash, the fifth has no payload.
abbrev commands : List Command
commands = erase 0 ∷ read 16 64 ∷ erase 7 ∷ read 1000 25 ∷ read 0 0 ∷ reset ∷ checksum 0 1024 ∷ []

commands-IsValid : All IsValid commands
commands-IsValid = omega arith

session-Refines_example : Refines client device_address host device commands
session-Refines_example =
    session-Refines client device_address host device commands host-IsLinked commands-IsValid

device-found : find device.dev_id ≡ ok pic
unfolding find get_id from_option find_device supported_devices kb
device-found = refl

-- The programmer before it is connected.
abbrev fresh : NetworkProgrammer
fresh = record host { dev_desc = none }

connect_device-Opens_example : Opens client device_address 50464522 666 pic fresh device commands
connect_device-Opens_example =
    connect_device-Opens client device_address 50464522 666 pic fresh device commands host-IsRequest
      refl device-IsSound device-found (omega arith) (omega arith) commands-IsValid

-- The request before has the address 0.
write-Misplaces_example :
    Misplaces client device_address 0x2000 (replicate 64 5) (Header.address host.tx) host device
unfolding Header.address be32_at host32_at byteswap32
write-Misplaces_example =
    write-Misplaces client device_address 0x2000 (replicate 64 5) host device host-IsLinked
      (omega arith) refl (omega arith)

-- The first write follows an erase of a page, the second a read at no sector.
abbrev requests : List Request
requests =
    command (erase 0)
    ∷ write 0x2000 (replicate 64 5)
    ∷ command (read 7 16)
    ∷ write 0 (replicate 70 6)
    ∷ command (checksum 0 1024)
    ∷ []

requests-IsServed : All IsServed requests
requests-IsServed = omega arith

requests-Follows_example : Follows client device_address host device requests
requests-Follows_example =
    requests-Follows client device_address host device requests host-IsLinked requests-IsServed

-- The erase of the first test of erases, at an address that starts no page.
run_test-Judges_example : Judges client device_address Status.inv_addr (erase 1) host device
run_test-Judges_example =
    run_test-Judges client device_address Status.inv_addr (erase 1) host device host-IsLinked
      (omega arith) (λ e. e)
