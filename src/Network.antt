-- ===== src/Network.antt =====
-- include/Programmer/Network.hpp: what the other parts see of the network, and in Socket the rest.
pub mod Socket
use programmer.Prelude.{ℕ}

-- The fields of sockaddr_in, the port in network order.
pub record Address : Type 0 where
  pub family : ℕ
  pub ip : ℕ
  pub port : ℕ
