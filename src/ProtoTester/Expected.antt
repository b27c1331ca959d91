-- ===== src/ProtoTester/Expected.antt =====
-- Whether the tests of `run_tests` all pass.
use programmer.Protocol.Status
use programmer.NetworkProgrammer.{is_connected, NetworkProgrammer, is_connected}
