-- ===== src/TargetTester/Wire.antt =====
-- struct Response of class TargetNetworkTester (include/Programmer/TargetTester.hpp), and what the
-- checks of src/TargetTester.cpp print of its registers.
use Prim.Native.String.{String}
use programmer.Prelude.{ℕ, Bool, not, List, [], ◌++◌, ◌∷◌, get_or, bit_and, ◌==◌, if◌then◌else◌}
use programmer.Protocol.{host16_at, host32_at}

pub record Response : Type 0 where
  pub rcon : ℕ
  pub stkptr : ℕ
  pub estat : ℕ
  pub epktcnt : ℕ
  pub erxrdpt : ℕ
  pub erxwrpt : ℕ
  pub last_seq : ℕ
  pub boot_counter : ℕ
  pub received_udp : ℕ
  pub received_arp : ℕ
  pub cur_seq : ℕ

abbrev pub response_size : ℕ
response_size = 28

unfoldable pub response_of : List ℕ → Response
response_of bytes = record {
  rcon = get_or bytes 0 0;
  stkptr = get_or bytes 1 0;
  estat = get_or bytes 2 0;
  epktcnt = get_or bytes 3 0;
  erxrdpt = host16_at bytes 4;
  erxwrpt = host16_at bytes 6;
  last_seq = host32_at bytes 8;
  boot_counter = host32_at bytes 12;
  received_udp = host32_at bytes 16;
  received_arp = host32_at bytes 20;
  cur_seq = host32_at bytes 24;
}

-- The bits of the registers.
abbrev rcon_nbor_mask : ℕ
rcon_nbor_mask = 0x01

abbrev rcon_npor_mask : ℕ
rcon_npor_mask = 0x02

abbrev rcon_npd_mask : ℕ
rcon_npd_mask = 0x04

abbrev rcon_nto_mask : ℕ
rcon_nto_mask = 0x08

abbrev rcon_nri_mask : ℕ
rcon_nri_mask = 0x10

abbrev rcon_ncm_mask : ℕ
rcon_ncm_mask = 0x20

abbrev stkptr_stkunf_mask : ℕ
stkptr_stkunf_mask = 0x40

abbrev stkptr_stkful_mask : ℕ
stkptr_stkful_mask = 0x80

abbrev estat_phyrdy_mask : ℕ
estat_phyrdy_mask = 0x01

abbrev estat_txabrt_mask : ℕ
estat_txabrt_mask = 0x02

abbrev estat_bufer_mask : ℕ
estat_bufer_mask = 0x40

abbrev estat_reserved_mask : ℕ
estat_reserved_mask = 0xB8

-- A line that is printed when a bit of the mask is set.
unfoldable pub when : Bool → String → List String
when b line = if b then line ∷ [] else []

unfoldable pub has : ℕ → ℕ → Bool
has register mask = not (bit_and register mask == 0)

unfoldable pub check_estat : ℕ → List String
check_estat estat =
    when (has estat estat_txabrt_mask) "ESTAT: Transmit Abort Error"
    ++ (when (has estat estat_bufer_mask) "ESTAT: Ethernet Buffer Error"
        ++ (when (has estat estat_reserved_mask) "ESTAT: Reserved"
            ++ when (not (has estat estat_phyrdy_mask)) "ESTAT: Ethernet PHY Clock NOT Ready"))

unfoldable pub check_rcon : ℕ → List String
check_rcon rcon =
    when (not (has rcon rcon_nbor_mask)) "RCON: Brown-out Reset"
    ++ (when (not (has rcon rcon_npor_mask)) "RCON: Power-on Reset"
        ++ (when (not (has rcon rcon_npd_mask)) "RCON: Power-Down Detection"
            ++ (when (not (has rcon rcon_nto_mask)) "RCON: Watchdog Timer Time-out"
                ++ (when (not (has rcon rcon_nri_mask)) "RCON: RESET Instruction"
                    ++ when (not (has rcon rcon_ncm_mask)) "RCON: Configuration Mismatch"))))

unfoldable pub check_stkptr : ℕ → List String
check_stkptr stkptr =
    when (has stkptr stkptr_stkunf_mask) "STKPTR: Stack Underflow"
    ++ when (has stkptr stkptr_stkful_mask) "STKPTR: Stack Full"
