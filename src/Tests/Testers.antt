-- ===== src/Tests/Testers.antt =====
-- The testers at concrete inputs, and the theorems at those inputs.
use programmer.Prelude.{
  ℕ, ◌*◌, ◌^◌, ◌<◌, ◌≡◌, none, refl, true, false, List, [], ◌∷◌, ◌++◌, replicate, arith,
}
use programmer.Exceptions.{fault, Fault}
use programmer.Network.{Address}
use programmer.Protocol.{host32_at}
use programmer.NetworkProgrammer.{NetworkProgrammer}
use programmer.TargetTester.{Frame, Tester, received, send, create}
use programmer.TargetTester.Loops.{Event, packet, deadline, turns}
use programmer.TargetTester.Wire.{Response, response_of}
use programmer.TargetTester.Accounts.{Delivers, received-Delivers, received-fault}
use programmer.TargetTester.Sends.{IsFrame, IsFilled, Adds, send-Adds}
use programmer.TargetTester.Turns.{
  CanHappen, answered, late, CanRun, Turns, late_count, turns-Turns,
}

abbrev target : Address
target = record { family = 2; ip = 16777343; port = 39426 }

-- A programmer that is not connected.
abbrev unconnected : NetworkProgrammer
unconnected = record {
  tx = replicate 128 0;
  tx_size = 10;
  rx = replicate 1500 0;
  rx_size = 0;
  tx_address = target;
  rx_address = target;
  bootloader = record { device_id = 0; version = 0; address = 0x1F000 };
  dev_desc = none;
  broadcast = false;
  events = [];
  sent = [];
}

-- Frames with the answer to the bytes 0 and 1.
abbrev frame_of : ℕ → Frame
frame_of seq = record { seq = seq; payload_size = 2; clears = false; payload = 90 ∷ 91 ∷ [] }

abbrev no_response : Response
no_response = response_of []

-- A tester with five frames in its queue.
abbrev tester : Tester
tester = record (create 16777343 (λ n. n * 7) no_response) {
  queue = frame_of 1 ∷ frame_of 2 ∷ frame_of 3 ∷ frame_of 4 ∷ frame_of 5 ∷ [];
}

-- The response to a frame.
abbrev response_to : ℕ → List ℕ
response_to seq = replicate 24 0 ++ seq ∷ 0 ∷ 0 ∷ 0 ∷ 90 ∷ 91 ∷ []

received-Delivers_example :
    Delivers tester
      (response_to 2)
      (frame_of 1 ∷ [])
      (frame_of 2)
      (frame_of 3 ∷ frame_of 4 ∷ frame_of 5 ∷ [])
      (received (response_to 2) tester)
unfolding response_of host32_at create
received-Delivers_example =
    received-Delivers tester (response_to 2) (frame_of 1 ∷ []) (frame_of 2)
      (frame_of 3 ∷ frame_of 4 ∷ frame_of 5 ∷ []) refl (omega arith) ((omega arith), tt) refl refl
      (record {
        rx = omega arith;
        losses = omega arith;
        seq_mismatch = omega arith;
        payload_size = omega arith;
        payload_invalid = omega arith;
      })

received-fault_example : received (response_to 9) tester ≡ fault Fault.out_of_bounds
unfolding response_of host32_at
received-fault_example =
    received-fault tester (response_to 9) (omega arith)
      ((omega arith), ((omega arith), ((omega arith), ((omega arith), ((omega arith), tt)))))

send-Adds_example : Adds true tester (send true tester)
send-Adds_example = send-Adds true tester

frame_of-IsFrame : (seq : ℕ) → seq < 2 ^ 32 → IsFrame (frame_of seq)
frame_of-IsFrame seq h = record { size = refl; room = omega arith; seq = h }

tester-IsFilled : IsFilled tester
tester-IsFilled = record {
  level = omega arith;
  frames = (
    frame_of-IsFrame 1 (omega arith),
    (
      frame_of-IsFrame 2 (omega arith),
      (
        frame_of-IsFrame 3 (omega arith),
        (frame_of-IsFrame 4 (omega arith), (frame_of-IsFrame 5 (omega arith), tt)),
      ),
    ),
  );
}

-- The response to the second frame, and then nothing in time.
abbrev happening : List Event
happening = packet (response_to 2) ∷ deadline ∷ []

second_answered : CanHappen tester (packet (response_to 2))
unfolding response_of host32_at
second_answered =
    answered (response_to 2) (frame_of 1 ∷ []) (frame_of 2)
      (frame_of 3 ∷ frame_of 4 ∷ frame_of 5 ∷ []) refl (omega arith) (omega arith)
      ((omega arith), tt) refl

happening-CanRun : CanRun tester happening
happening-CanRun = (second_answered, λ u e. (late, λ v f. tt))

turns-Turns_example : Turns tester (late_count happening) (turns happening tester)
turns-Turns_example = turns-Turns tester happening tester-IsFilled happening-CanRun
