-- ===== src/Protocol/Header.antt =====
-- struct RequestHeader of include/Programmer/protocol.hpp, and ReplyHeader, which is its first
-- four bytes.
use programmer.Prelude.{ℕ, List, get_or, set}
use programmer.Protocol.{be16_at, be32_at, set_be16, set_be32}

unfoldable pub version : List ℕ → ℕ
version buf = get_or buf 0 0

unfoldable pub seq : List ℕ → ℕ
seq buf = get_or buf 1 0

unfoldable pub operation : List ℕ → ℕ
operation buf = get_or buf 2 0

unfoldable pub status : List ℕ → ℕ
status buf = get_or buf 3 0

unfoldable pub address : List ℕ → ℕ
address buf = be32_at buf 4

unfoldable pub length : List ℕ → ℕ
length buf = be16_at buf 8

unfoldable pub set_version : List ℕ → ℕ → List ℕ
set_version buf v = set buf 0 v

unfoldable pub set_seq : List ℕ → ℕ → List ℕ
set_seq buf v = set buf 1 v

unfoldable pub set_operation : List ℕ → ℕ → List ℕ
set_operation buf v = set buf 2 v

unfoldable pub set_status : List ℕ → ℕ → List ℕ
set_status buf v = set buf 3 v

unfoldable pub set_address : List ℕ → ℕ → List ℕ
set_address buf v = set_be32 buf 4 v

unfoldable pub set_length : List ℕ → ℕ → List ℕ
set_length buf v = set_be16 buf 8 v
