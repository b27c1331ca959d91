-- ===== src/Hex/Record.antt =====
-- The two enumerations of src/Hex.cpp: the types of records, and the positions in a record.
use programmer.Prelude.{ℕ}

abbrev pub rt_data : ℕ
rt_data = 0

abbrev pub rt_eof : ℕ
rt_eof = 1

abbrev pub rt_ext_seg_addr : ℕ
rt_ext_seg_addr = 2

abbrev pub rt_start_seg_addr : ℕ
rt_start_seg_addr = 3

abbrev pub rt_ext_addr : ℕ
rt_ext_addr = 4

abbrev pub rt_start_addr : ℕ
rt_start_addr = 5

abbrev pub pos_byte_cnt : ℕ
pos_byte_cnt = 0

abbrev pub pos_addr_h : ℕ
pos_addr_h = 1

abbrev pub pos_type : ℕ
pos_type = 3

abbrev pub pos_payload : ℕ
pos_payload = 4
