-- ===== src/Target/Names.antt =====
-- `Target::get_operation_name` and `Target::get_status_name` of src/Target.cpp.
use Prim.Native.String.{String}
use programmer.Prelude.{ℕ, ◌==◌, if◌then◌else◌}
use programmer.Protocol.Op
use programmer.Protocol.Status

unfoldable pub get_operation_name : ℕ → String
get_operation_name op =
    if op == Op.checksum
    then "OP_CHECKSUM"
    else if op == Op.discover
    then "OP_DISCOVER"
    else if op == Op.erase
    then "OP_ERASE"
    else if op == Op.net_config
    then "OP_NET_CONFIG"
    else if op == Op.read
    then "OP_READ"
    else if op == Op.reset
    then "OP_RESET"
    else if op == Op.write
    then "OP_WRITE"
    else if op == Op.erase_write
    then "OP_ERASE_WRITE"
    else if op == Op.chip_erase
    then "OP_CHIP_ERASE"
    else "Invalid"

unfoldable pub get_status_name : ℕ → String
get_status_name stat =
    if stat == Status.request
    then "STATUS_REQUEST"
    else if stat == Status.done
    then "STATUS_OK"
    else if stat == Status.in_progress
    then "STATUS_INPROGRESS"
    else if stat == Status.inv_op
    then "STATUS_INV_OP"
    else if stat == Status.inv_param
    then "STATUS_INV_PARAM"
    else if stat == Status.inv_src
    then "STATUS_INV_SRC"
    else if stat == Status.inv_addr
    then "STATUS_INV_ADDR"
    else if stat == Status.pkt_size
    then "STATUS_PKT_SIZE"
    else "Invalid"
