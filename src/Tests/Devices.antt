-- ===== src/Tests/Devices.antt =====
-- Runs of the simulated device and of the table of devices, and the theorems at those inputs.
use programmer.Prelude.{
  ◌≢◌, ◌/◌, All, ℕ, ◌+◌, ◌*◌, ◌≡◌, ◌^◌, ◌⊎◌, refl, inl, List, [], ◌∷◌, length, take, drop,
  replicate, overwrite, arith,
}
use programmer.Exceptions.{ok, fault, Fault, throw}
use programmer.Network.{Address}
use programmer.Protocol.{be16_at, be32_at, host16_at, host32_at, byteswap16, byteswap32}
use programmer.Protocol.Header
use programmer.Target.{Target, handle_write, handle_read, step, run, is_discovery, same_address}
use programmer.Target.Safety.{IsSound}
use programmer.Target.Reads.{handle_read_wraps}
use programmer.Target.Access.{Ignores, step-Ignores}
use programmer.Target.Memory.{Stores, handle_write-Stores}
use programmer.Target.Runs.{Runs, run-Runs}
use programmer.DeviceDescriptor.{DeviceDescriptor, find, get_revision, supported_devices}
use mathlib.Core.List.{Mem}
use programmer.DeviceDescriptor.Table.{IsLaidOut, find_lem}

abbrev client : Address
client = record { family = 2; ip = 16777343; port = 39426 }

abbrev stranger : Address
stranger = record { family = 2; ip = 33554559; port = 39426 }

-- A device of 1024 bytes of flash that has received a datagram.
abbrev device : List ℕ → Target
device datagram = record {
  dev_id = 0x1800;
  flash = replicate 1024 0;
  programmer_addr = client;
  last_seq = 0;
  buf = overwrite (replicate 1500 0) 0 datagram;
}

device-IsSound :
    (datagram : List ℕ) → length (device datagram).buf ≡ 1500 → IsSound (device datagram)
device-IsSound datagram h = record { buffer = h; pages = refl }

-- Requests: to discover, to erase page 0, to write at 64, and to read across the end of 32 bits.
abbrev discover_request : List ℕ
discover_request = 1 ∷ 1 ∷ 0 ∷ 0 ∷ 0 ∷ 0 ∷ 0 ∷ 0 ∷ 0 ∷ 0 ∷ []

abbrev erase_request : List ℕ
erase_request = 1 ∷ 2 ∷ 4 ∷ 0 ∷ 0 ∷ 0 ∷ 0 ∷ 0 ∷ 0 ∷ 0 ∷ []

abbrev write_request : List ℕ
write_request = 1 ∷ 3 ∷ 3 ∷ 0 ∷ 0 ∷ 0 ∷ 0 ∷ 64 ∷ 0 ∷ 0 ∷ 0 ∷ 0 ∷ 0 ∷ 0 ∷ 0 ∷ 0 ∷ 7 ∷ 9 ∷ []

abbrev wrap_request : List ℕ
wrap_request = 1 ∷ 4 ∷ 2 ∷ 0 ∷ 255 ∷ 255 ∷ 255 ∷ 255 ∷ 0 ∷ 2 ∷ []

run-Runs_example :
    Runs (device []) 2 (run (device []) ((discover_request, client) ∷ (erase_request, client) ∷ []))
unfolding Header.address Header.length be32_at be16_at host32_at host16_at byteswap32 byteswap16
run-Runs_example =
    run-Runs (device []) ((discover_request, client) ∷ (erase_request, client) ∷ [])
      (device-IsSound [] refl) (omega arith)
      ((omega arith, omega arith), ((omega arith, omega arith), tt))

step-Ignores_example : Ignores (device []) (step (device []) erase_request stranger)
unfolding is_discovery Header.operation same_address
step-Ignores_example = step-Ignores (device []) erase_request stranger (omega arith) refl (inl refl)

handle_write-Stores_example :
    (length (take 64 (drop 16 (device write_request).buf)) ≡ 64)
    × Stores
        (device write_request)
        client
        (Header.address (device write_request).buf)
        (take 64 (drop 16 (device write_request).buf))
        (handle_write (device write_request) client)
unfolding Header.address be32_at host32_at byteswap32
handle_write-Stores_example =
    handle_write-Stores (device write_request) client (device-IsSound write_request refl)
      (omega arith) refl (omega arith)

handle_read_wraps_example : handle_read (device wrap_request) client ≡ fault Fault.out_of_bounds
unfolding Header.address Header.length be32_at be16_at host32_at host16_at byteswap32 byteswap16
handle_read_wraps_example =
    handle_read_wraps (device wrap_request) client (omega arith) (omega arith) (omega arith)
      (omega arith)

find_lem_example :
    ((d : DeviceDescriptor) × (find 0x1F23 ≡ ok d)
      × Mem d supported_devices
      × IsLaidOut d
      × (d.dev_id * 2 ^ 5 + get_revision 0x1F23 ≡ 0x1F23))
    ⊎ ((find 0x1F23 ≡ throw "Unknown device id.")
        × All (λ d. d.dev_id ≢ 0x1F23 / 2 ^ 5) supported_devices)
find_lem_example = find_lem 0x1F23
