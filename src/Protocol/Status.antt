-- ===== src/Protocol/Status.antt =====
-- enum Status of include/Programmer/protocol.hpp.
use programmer.Prelude.{ℕ}

abbrev pub request : ℕ
request = 0

abbrev pub done : ℕ
done = 1

abbrev pub in_progress : ℕ
in_progress = 2

abbrev pub inv_src : ℕ
inv_src = 3

abbrev pub inv_op : ℕ
inv_op = 4

abbrev pub inv_param : ℕ
inv_param = 5

abbrev pub inv_length : ℕ
inv_length = 6

abbrev pub inv_addr : ℕ
inv_addr = 7

abbrev pub protected_addr : ℕ
protected_addr = 8

abbrev pub pkt_size : ℕ
pkt_size = 9
