-- ===== src/TargetTester.antt =====
-- class TargetNetworkTester of src/TargetTester.cpp and include/Programmer/TargetTester.hpp.
--
-- The state holds the members, the random numbers that will be drawn, and the frames that have been
-- sent with their receiver. `request` in `received` refers to the front of the queue; that the
-- reference is used after the front is popped is read as the storage staying in place. Sends
-- succeed; output to stdout is left out, and so are the clock and the timer, which decide what is
-- printed: the check of the timer in `received` is taken to succeed (where it throws, the frame
-- stays in the queue).
pub mod Wire
pub mod Payload
pub mod Loops
pub mod Echo
pub mod Delivery
pub mod Accounts
pub mod Sends
pub mod Turns
pub mod Timer
use programmer.Prelude.{
  ℕ, suc, ◌+◌, ◌-◌, ◌%◌, ◌^◌, Bool, true, false, not, ◌||◌, List, [], ◌∷◌, ◌++◌, length, drop, u32,
  ltb, ◌==◌, if◌then◌else◌, ◌&&◌,
}
use programmer.Exceptions.{Result, ok, fault, Fault, ◌>>=◌}
use programmer.Network.{Address}
use programmer.Protocol.{host32, byteswap16}
use programmer.TargetTester.Wire.{Response, response_size, response_of}
use programmer.TargetTester.Payload.{prepare_payload}

-- The configuration of the tester.
abbrev pub endless_tx : Bool
endless_tx = false

abbrev pub tx_throughput_test : Bool
tx_throughput_test = false

abbrev pub checksum_byte_support : Bool
checksum_byte_support = true

abbrev pub queue_fill_level : ℕ
queue_fill_level = 5

-- TARGET_HEADERS is 14 + 20 + 8 + 7.
abbrev pub max_payload : ℕ
max_payload = 435

-- 7 + 1 + 12 of the first layer, and 14 + 20 + 8 + 4.
abbrev pub net_headers_size : ℕ
net_headers_size = 66

abbrev pub request_size : ℕ
request_size = 4

pub record Frame : Type 0 where
  pub seq : ℕ
  pub payload_size : ℕ
  pub clears : Bool
  pub payload : List ℕ

pub record Stats : Type 0 where
  pub rx : ℕ
  pub tx : ℕ
  pub timeout : ℕ
  pub lost_rx : ℕ
  pub lost_tx : ℕ
  pub payload_size : ℕ
  pub payload_invalid : ℕ
  pub seq_mismatch : ℕ
  pub tx_total_bytes : ℕ
  pub rx_total_bytes : ℕ

pub record Tester : Type 0 where
  pub draws : ℕ → ℕ
  pub drawn : ℕ
  pub tx_address : Address
  pub timed_out : Bool
  pub queue : List Frame
  pub seq : ℕ
  pub last_response : Response
  pub stats : Stats
  pub sent : List (List ℕ × Address)

abbrev no_stats : Stats
no_stats = record {
  rx = 0;
  tx = 0;
  timeout = 0;
  lost_rx = 0;
  lost_tx = 0;
  payload_size = 0;
  payload_invalid = 0;
  seq_mismatch = 0;
  tx_total_bytes = 0;
  rx_total_bytes = 0;
}

-- The constructor; `_last_response` starts out with whatever the memory holds.
unfoldable pub create : ℕ → (ℕ → ℕ) → Response → Tester
create address draws garbage = record {
  draws = draws;
  drawn = 0;
  tx_address = record { family = 2; ip = address; port = byteswap16 666 };
  timed_out = false;
  queue = [];
  seq = 0;
  last_response = garbage;
  stats = no_stats;
  sent = [];
}

-- The payload's length: a random number, and what the configuration makes of it.
unfoldable pub payload_length : ℕ → ℕ
payload_length rand =
    let len = if endless_tx || tx_throughput_test then max_payload else rand % max_payload in
    if not checksum_byte_support then len - len % 2 else len

-- `_seq & 0x7FFFFFFF` after the increment, and the top bit for a frame that clears.
unfoldable pub next_seq : ℕ → Bool → ℕ
next_seq seq clear = let next = u32 (seq + 1) % 2 ^ 31 in if clear then next + 2 ^ 31 else next

unfoldable pub count_tx : Stats → ℕ → Stats
count_tx stats len = record stats {
  tx = u32 (stats.tx + 1);
  tx_total_bytes = (stats.tx_total_bytes + len + request_size + net_headers_size) % 2 ^ 64;
}

unfoldable pub send : Bool → Tester → Result Tester
send clear t =
    let len = payload_length (t.draws t.drawn) in
    let seq = next_seq t.seq clear in
    prepare_payload t.draws (suc t.drawn) len >>= λ filled. ok (record t {
      drawn = filled.2;
      queue =
          t.queue
          ++ record { seq = seq; payload_size = len; clears = clear; payload = filled.1 } ∷ [];
      seq = seq;
      stats = count_tx t.stats len;
      sent = t.sent ++ (host32 seq ++ filled.0, t.tx_address) ∷ [];
    })

unfoldable pub count_rx : Stats → ℕ → Stats
count_rx stats len = record stats {
  rx = u32 (stats.rx + 1);
  rx_total_bytes = (stats.rx_total_bytes + len + net_headers_size) % 2 ^ 64;
}

unfoldable pub count_lost : Response → Stats → Stats
count_lost r stats =
    if u32 (r.last_seq + 1) == r.cur_seq
    then record stats { lost_tx = u32 (stats.lost_tx + 1) }
    else record stats { lost_rx = u32 (stats.lost_rx + 1) }

-- The `while` loop over a queue whose front has another number. The front of an empty queue has no
-- defined meaning.
unfoldable pub drop_until : Response → List Frame → Stats → Result (List Frame × Stats)
drop_until r [] stats = fault Fault.out_of_bounds
drop_until r (f ∷ fs) stats =
    let rest = drop_until r fs (count_lost r stats) in
    if r.cur_seq == f.seq then ok (f ∷ fs, stats) else rest

unfoldable pub find_request : Response → List Frame → Stats → Result (List Frame × Stats)
find_request r [] stats = fault Fault.out_of_bounds
find_request r (f ∷ fs) stats =
    if r.cur_seq == f.seq
    then ok (f ∷ fs, stats)
    else drop_until r (f ∷ fs) (record stats { seq_mismatch = u32 (stats.seq_mismatch + 1) })

-- memcmp.
unfoldable pub same_bytes : List ℕ → List ℕ → Bool
same_bytes [] ys = true
same_bytes (x ∷ xs) [] = false
same_bytes (x ∷ xs) (y ∷ ys) = (x == y) && same_bytes xs ys

unfoldable pub check_payload : Frame → List ℕ → Stats → Stats
check_payload f payload stats =
    if length payload == f.payload_size
    then if same_bytes payload f.payload
      then stats
      else record stats { payload_invalid = u32 (stats.payload_invalid + 1) }
    else record stats { payload_size = u32 (stats.payload_size + 1) }

-- What is kept of the response.
unfoldable pub keep_response : Bool → Response → Response
keep_response clears r =
    if clears then record r { boot_counter = 0; received_arp = 0; received_udp = 0 } else r

-- From the test of the payload on, where the front of the queue is the request.
unfoldable pub accept : Tester → List ℕ → List Frame → Stats → Result (Tester × Bool)
accept t bytes [] stats = fault Fault.out_of_bounds
accept t bytes (f ∷ fs) stats = ok (
  record t {
    queue = if endless_tx then f ∷ fs else fs;
    stats = check_payload f (drop response_size bytes) stats;
    last_response = keep_response f.clears (response_of bytes);
    timed_out = false;
  },
  true,
)

unfoldable pub received : List ℕ → Tester → Result (Tester × Bool)
received bytes t =
    let t' = record t { stats = count_rx t.stats (length bytes) } in
    if ltb (length bytes) response_size
    then ok (t', false)
    else (find_request (response_of bytes) t'.queue t'.stats >>= λ found.
        accept t' bytes found.0 found.1)

-- `front` of an empty queue has no defined meaning.
unfoldable pub timeout : Tester → Result Tester
timeout t =
    let t' = record t {
      timed_out = true;
      stats = record t.stats { timeout = u32 (t.stats.timeout + 1) };
    } in
    if length t.queue == 0 then fault Fault.out_of_bounds else send false t'
