-- ===== src/NetworkProgrammer/Buffer.antt =====
-- The buffers of class NetworkProgrammer of include/Programmer/Programmer.hpp.
use programmer.Prelude.{ℕ, List}
use programmer.Protocol
use programmer.Protocol.Header
use programmer.Protocol.Status

abbrev pub tx_buffer_size : ℕ
tx_buffer_size = 128

abbrev pub rx_buffer_size : ℕ
rx_buffer_size = 1500

-- The constructor of TransmitBuffer, over what the memory holds.
unfoldable pub fresh_tx : List ℕ → List ℕ
fresh_tx garbage = Header.set_status (Header.set_version garbage Protocol.version) Status.request
