-- ===== src/Protocol/Op.antt =====
-- enum Operation of include/Programmer/protocol.hpp.
use programmer.Prelude.{ℕ}

abbrev pub discover : ℕ
discover = 0

abbrev pub net_config : ℕ
net_config = 1

abbrev pub read : ℕ
read = 2

abbrev pub write : ℕ
write = 3

abbrev pub erase : ℕ
erase = 4

abbrev pub reset : ℕ
reset = 5

abbrev pub erase_write : ℕ
erase_write = 6

abbrev pub chip_erase : ℕ
chip_erase = 7

abbrev pub checksum : ℕ
checksum = 8
