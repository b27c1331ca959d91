-- ===== src/DeviceDescriptor.antt =====
-- src/DeviceDescriptor.cpp and include/Programmer/DeviceDescriptor.hpp: the devices by their id.
pub mod Ids
pub mod Table
use Prim.Native.String.{String}
use programmer.DeviceDescriptor.Ids.{
  pic18f66j60, pic18f86j60, pic18f96j60, pic18f66j65, pic18f86j65, pic18f96j65, pic18f67j60,
  pic18f87j60, pic18f97j60,
}
use programmer.Prelude.{
  ℕ, ◌*◌, ◌/◌, ◌%◌, ◌^◌, List, [], ◌∷◌, ◌==◌, if◌then◌else◌, Option, none, some,
}
use programmer.Exceptions.{Result, ok, throw}

pub record DeviceDescriptor : Type 0 where
  pub dev_id : ℕ
  pub name : String
  pub flash_size : ℕ
  pub config_address : ℕ

unfoldable pub kb : ℕ → ℕ
kb x = x * 1024

abbrev pub erase_size : ℕ
erase_size = 1024

abbrev pub write_size : ℕ
write_size = 64

abbrev device : ℕ → String → ℕ → ℕ → DeviceDescriptor
device dev_id name flash_size config_address = record {
  dev_id = dev_id;
  name = name;
  flash_size = flash_size;
  config_address = config_address;
}

unfoldable pub supported_devices : List DeviceDescriptor
supported_devices =
    device pic18f66j60 "PIC18F66J60" (kb 64) 0xFFF8
    ∷ device pic18f86j60 "PIC18F86J60" (kb 64) 0xFFF8
    ∷ device pic18f96j60 "PIC18F96J60" (kb 64) 0xFFF8
    ∷ device pic18f66j65 "PIC18F66J65" (kb 96) 0x17FF8
    ∷ device pic18f86j65 "PIC18F86J65" (kb 96) 0x17FF8
    ∷ device pic18f96j65 "PIC18F96J65" (kb 96) 0x17FF8
    ∷ device pic18f67j60 "PIC18F67J60" (kb 128) 0x1FFF8
    ∷ device pic18f87j60 "PIC18F87J60" (kb 128) 0x1FFF8
    ∷ device pic18f97j60 "PIC18F97J60" (kb 128) 0x1FFF8
    ∷ []

-- The low five bits of a device's word are its revision, the others its id.
unfoldable pub get_revision : ℕ → ℕ
get_revision dev_id = dev_id % 2 ^ 5

unfoldable pub get_id : ℕ → ℕ
get_id dev_id = dev_id / 2 ^ 5

-- std::find with `operator ==`.
unfoldable pub find_device : List DeviceDescriptor → ℕ → Option DeviceDescriptor
find_device [] id = none
find_device (d ∷ ds) id = let rest = find_device ds id in if d.dev_id == id then some d else rest

unfoldable pub from_option : Option DeviceDescriptor → Result DeviceDescriptor
from_option none = throw "Unknown device id."
from_option (some d) = ok d

unfoldable pub find : ℕ → Result DeviceDescriptor
find dev_id = from_option (find_device supported_devices (get_id dev_id))
