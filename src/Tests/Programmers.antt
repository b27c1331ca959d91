-- ===== src/Tests/Programmers.antt =====
-- Runs of the programmer's side, and the theorems at those inputs.
use programmer.Prelude.{
  ◌++◌, ℕ, ◌%◌, ◌≡◌, refl, false, List, [], ◌∷◌, ◌++◌, length, take, replicate, overwrite, arith,
  some,
}
use programmer.Exceptions.{ok, fault, Fault, target_error, text}
use programmer.Network.{Address}
use programmer.DeviceDescriptor.{DeviceDescriptor}
use programmer.Protocol.Header
use programmer.Programmer.{ProgrammerStrategy, not_supported, write, erase, erase_write}
use programmer.Programmer.Guards.{IsKept, guarded-IsKept}
use programmer.NetworkProgrammer
use programmer.NetworkProgrammer.{
  NetworkProgrammer, Event, frame, deadline, communicate, is_connected,
}
use programmer.NetworkProgrammer.Process.{e_target}
use programmer.NetworkProgrammer.Verdict.{IsAnswer, e_target_lem}
use programmer.NetworkProgrammer.Communicate.{Communicates, communicate-Communicates, bump}
use programmer.NetworkProgrammer.Answered.{communicate_answered}
use programmer.NetworkProgrammer.Frames.{IsRequest}
use programmer.NetworkProgrammer.Wire.{IsReady, methods-IsReady}
use programmer.NetworkProgrammer.Broadcast.{IsQuiet, discoveries-IsQuiet}
use programmer.NetworkProgrammer.Requests.{Truncates, write-Truncates, write_nothing}

abbrev target : Address
target = record { family = 2; ip = 16777343; port = 39426 }

abbrev pic : DeviceDescriptor
pic = record { dev_id = 192; name = "PIC18F66J60"; flash_size = 65536; config_address = 65528 }

-- A connected programmer that has read at 0x1000 last, and what it will hear.
abbrev connected : List Event → NetworkProgrammer
connected events = record {
  tx = 1 ∷ 7 ∷ 2 ∷ 0 ∷ 0 ∷ 0 ∷ 16 ∷ 0 ∷ 0 ∷ 64 ∷ replicate 118 0;
  tx_size = 10;
  rx = replicate 1500 0;
  rx_size = 0;
  tx_address = target;
  rx_address = target;
  bootloader = record { device_id = 0x1800; version = 256; address = 0x1F000 };
  dev_desc = some pic;
  broadcast = false;
  events = events;
  sent = [];
}

-- The answers to the read, and what comes before it: an older reply and silence.
abbrev reply : List ℕ
reply = 1 ∷ 8 ∷ 2 ∷ 1 ∷ 42 ∷ []

abbrev late_reply : List ℕ
late_reply = 1 ∷ 9 ∷ 2 ∷ 1 ∷ 42 ∷ []

abbrev old_reply : List ℕ
old_reply = 1 ∷ 7 ∷ 2 ∷ 1 ∷ []

abbrev late : List Event
late = frame old_reply target ∷ deadline ∷ frame late_reply target ∷ []

reply-IsAnswer : IsAnswer (bump (connected []).tx) reply
unfolding Header.version Header.seq Header.operation Header.status Header.set_seq
reply-IsAnswer = record { version = refl; seq = refl; operation = refl; status = refl }

communicate-Communicates_example : Communicates (connected late) 3 (communicate (connected late))
communicate-Communicates_example =
    communicate-Communicates (connected late) (refl, (refl, (refl, tt)))

communicate_answered_example :
    communicate (record (connected []) { events = frame reply target ∷ deadline ∷ [] }) ≡ (
      record (connected []) {
        tx = bump (connected []).tx;
        rx = overwrite (connected []).rx 0 reply;
        rx_size = length reply;
        rx_address = target;
        events = deadline ∷ [];
        sent = (connected []).sent ++ (take 10 (bump (connected []).tx), target) ∷ [];
      },
      ok tt,
    )
communicate_answered_example =
    communicate_answered (connected []) reply target (deadline ∷ []) refl (omega arith)
      (omega arith) reply-IsAnswer

e_target_lem_example : e_target 7 ≡ target_error 7 (text "Target reported an invalid status." ∷ [])
e_target_lem_example = e_target_lem 7

-- A strategy that lists the addresses that reach it.
abbrev listing : ProgrammerStrategy (List ℕ)
listing = record {
  read = λ a n s. (s, ok (replicate n 0));
  write = λ a b s. (a ∷ s, ok tt);
  erase = λ a s. (a ∷ s, ok tt);
  reset = λ s. (s, ok tt);
  checksum = λ a n s. not_supported s;
  chip_erase = λ s. not_supported s;
  erase_write = λ a b s. not_supported s;
  descriptor = record { max_write = 1496; max_read = 1496 };
}

abbrev Aligned : List ℕ → Type 0
Aligned [] = Unit
Aligned (a ∷ s) = (a % 64 ≡ 0) × Aligned s

listing-IsKept : IsKept listing Aligned
listing-IsKept = record {
  write = λ a b s h k l p. (h, p);
  erase = λ a s h p. (omega (arith, h), p);
}

guarded-IsKept_example :
    Aligned (write listing 100 (replicate 64 5) (64 ∷ [])).0
    × Aligned (erase listing 100 (64 ∷ [])).0
    × Aligned (erase_write listing 100 (replicate 64 5) (64 ∷ [])).0
guarded-IsKept_example =
    guarded-IsKept listing Aligned listing-IsKept 100 (replicate 64 5) (64 ∷ []) (refl, tt)

-- Two sectors, of which the first is sent.
write-Truncates_example :
    Truncates
      (replicate 64 5 ++ replicate 64 6)
      (connected late)
      (write NetworkProgrammer.strategy 64 (replicate 64 5 ++ replicate 64 6) (connected late))
unfolding is_connected
write-Truncates_example =
    write-Truncates 64 (replicate 64 5 ++ replicate 64 6) (connected late) refl refl (omega arith)
      (omega arith) refl refl (refl, (refl, (refl, tt)))

write_nothing_example :
    (write NetworkProgrammer.strategy 64 [] (connected [])).1 ≡ fault Fault.out_of_bounds
unfolding is_connected
write_nothing_example = write_nothing 64 (connected []) refl refl

connected-IsRequest : IsRequest (connected late).tx
unfolding Header.version Header.status
connected-IsRequest = record { size = refl; version = refl; status = refl }

-- What is sent starts with a read of 64 bytes at 0x1000.
connected-IsReady : IsReady (connected late)
unfolding Header.version Header.status
connected-IsReady = record { request = connected-IsRequest; octets = omega arith; datagrams = tt }

methods-IsReady_example :
    IsReady (NetworkProgrammer.read 64 16 (connected late)).0
    × IsReady (NetworkProgrammer.write 64 (replicate 64 5) (connected late)).0
    × IsReady (NetworkProgrammer.erase 64 (connected late)).0
    × IsReady (NetworkProgrammer.reset (connected late)).0
    × IsReady (NetworkProgrammer.checksum 64 16 (connected late)).0
    × IsReady (NetworkProgrammer.discover_device 666 (connected late)).0
    × IsReady (NetworkProgrammer.connect_device 16777343 666 (connected late)).0
    × IsReady (NetworkProgrammer.configure_device 16777343 666 (connected late)).0
methods-IsReady_example =
    methods-IsReady 64 16 16777343 666 (replicate 64 5) (connected late) (omega arith)
      connected-IsReady

discoveries-IsQuiet_example :
    IsQuiet (NetworkProgrammer.discover_device 666 (connected late))
    × IsQuiet (NetworkProgrammer.connect_device 0xFFFFFFFF 666 (connected late))
    × IsQuiet (NetworkProgrammer.configure_device 0xFFFFFFFF 666 (connected late))
discoveries-IsQuiet_example = discoveries-IsQuiet 0xFFFFFFFF 666 (connected late)
