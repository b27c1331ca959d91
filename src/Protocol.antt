-- ===== src/Protocol.antt =====
-- include/Programmer/protocol.hpp: the frames of the bootloader protocol, as bytes of a buffer, and
-- the conversions of include/Programmer/Network.hpp.
--
-- The host is little-endian, as the program's Windows builds are. A packed struct is a run of
-- bytes at fixed offsets of its buffer.
pub mod Op
pub mod Status
pub mod Header
pub mod Fields
use programmer.Prelude.{ℕ, ◌+◌, ◌*◌, ◌/◌, ◌%◌, ◌^◌, List, [], ◌∷◌, get_or, overwrite}

-- std::byteswap on uint16_t and uint32_t.
unfoldable pub byteswap16 : ℕ → ℕ
byteswap16 v = v % 256 * 256 + v / 256 % 256

unfoldable pub byteswap32 : ℕ → ℕ
byteswap32 v =
    v % 256 * 2 ^ 24 + v / 2 ^ 8 % 256 * 2 ^ 16 + v / 2 ^ 16 % 256 * 2 ^ 8 + v / 2 ^ 24 % 256

-- The bytes of a number in the memory of the host, and back.
unfoldable pub host16 : ℕ → List ℕ
host16 v = v % 256 ∷ v / 256 % 256 ∷ []

unfoldable pub host32 : ℕ → List ℕ
host32 v = v % 256 ∷ v / 2 ^ 8 % 256 ∷ v / 2 ^ 16 % 256 ∷ v / 2 ^ 24 % 256 ∷ []

unfoldable pub host16_at : List ℕ → ℕ → ℕ
host16_at buf i = get_or buf i 0 + get_or buf (i + 1) 0 * 256

unfoldable pub host32_at : List ℕ → ℕ → ℕ
host32_at buf i =
    get_or buf i 0
    + get_or buf (i + 1) 0 * 2 ^ 8
    + get_or buf (i + 2) 0 * 2 ^ 16
    + get_or buf (i + 3) 0 * 2 ^ 24

-- `bigendian<T>`: `operator =` stores the swapped number, `operator T` swaps it back.
unfoldable pub set_be16 : List ℕ → ℕ → ℕ → List ℕ
set_be16 buf i v = overwrite buf i (host16 (byteswap16 v))

unfoldable pub set_be32 : List ℕ → ℕ → ℕ → List ℕ
set_be32 buf i v = overwrite buf i (host32 (byteswap32 v))

unfoldable pub be16_at : List ℕ → ℕ → ℕ
be16_at buf i = byteswap16 (host16_at buf i)

unfoldable pub be32_at : List ℕ → ℕ → ℕ
be32_at buf i = byteswap32 (host32_at buf i)

abbrev pub version : ℕ
version = 1

abbrev pub request_size : ℕ
request_size = 10

abbrev pub reply_size : ℕ
reply_size = 4

-- sizeof(DiscoverReply), sizeof(NetworkConfig), sizeof(Write), sizeof(ChecksumReply).
abbrev pub discover_reply_size : ℕ
discover_reply_size = 8

abbrev pub network_config_size : ℕ
network_config_size = 10

abbrev pub write_struct_size : ℕ
write_struct_size = 68

abbrev pub checksum_reply_size : ℕ
checksum_reply_size = 4
