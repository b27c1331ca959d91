-- ===== src/DeviceDescriptor/Ids.antt =====
-- The ids of the devices, of the enumeration in include/Programmer/DeviceDescriptor.hpp.
use programmer.Prelude.{ℕ}

abbrev pub pic18f66j60 : ℕ
pic18f66j60 = 0b00011000000

abbrev pub pic18f86j60 : ℕ
pic18f86j60 = 0b00011000001

abbrev pub pic18f96j60 : ℕ
pic18f96j60 = 0b00011000010

abbrev pub pic18f66j65 : ℕ
pic18f66j65 = 0b00011111000

abbrev pub pic18f86j65 : ℕ
pic18f86j65 = 0b00011111010

abbrev pub pic18f96j65 : ℕ
pic18f96j65 = 0b00011111100

abbrev pub pic18f67j60 : ℕ
pic18f67j60 = 0b00011111001

abbrev pub pic18f87j60 : ℕ
pic18f87j60 = 0b00011111011

abbrev pub pic18f97j60 : ℕ
pic18f97j60 = 0b00011111101
