-- ===== src/TargetTester/Loops.antt =====
-- `TargetNetworkTester::test` of src/TargetTester.cpp: its loops, over what arrives.
use programmer.Prelude.{ℕ, zero, suc, Bool, true, false, List, [], ◌∷◌, length, ltb, if◌then◌else◌}
use programmer.Exceptions.{Result, ok, throws, fault, Fault, Thrown, ◌>>=◌}
use programmer.TargetTester.{Tester, queue_fill_level, send, received, timeout}
use programmer.TargetTester.Payload.{buffer_size}

-- `while (_queue.size() < QUEUE_FILL_LEVEL) send(false);` with the rounds that it can take.
unfoldable pub fill : ℕ → Tester → Result Tester
fill zero t = if ltb (length t.queue) queue_fill_level then fault Fault.out_of_fuel else ok t
fill (suc n) t =
    let next = send false t >>= fill n in
    if ltb (length t.queue) queue_fill_level then next else ok t

-- A datagram that arrives, or the deadline.
pub data Event : Type 0 where
  packet : List ℕ → Event
  deadline : Event

unfoldable pub refill : Tester × Bool → Result Tester
refill (t, true) = fill queue_fill_level t
refill (t, false) = ok t

-- One turn of the loops of `test`. A datagram that is longer than the buffer makes recvfrom fail.
unfoldable pub turn : Event → Tester → Result Tester
turn (packet bytes) t =
    if ltb buffer_size (length bytes)
    then throws Thrown.socket_exception
    else (received bytes t >>= refill)
turn deadline t = timeout t >>= fill queue_fill_level

unfoldable pub turns : List Event → Tester → Result Tester
turns [] t = ok t
turns (e ∷ es) t = turn e t >>= turns es

-- `test`, up to the events that have happened.
unfoldable pub test : List Event → Tester → Result Tester
test events t = do t1 ← send true t; t2 ← fill queue_fill_level t1; turns events t2
