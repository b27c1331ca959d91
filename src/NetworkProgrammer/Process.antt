-- ===== src/NetworkProgrammer/Process.antt =====
-- `NetworkProgrammer::process` from the test of the version on, and ETarget (src/Programmer.cpp).
use Prim.Native.String.{String}
use programmer.Prelude.{ℕ, Bool, not, ◌||◌, List, [], ◌∷◌, ◌==◌, if◌then◌else◌}
use programmer.Exceptions.{Result, ok, throws, throw, Thrown, target_error, text}
use programmer.Protocol
use programmer.Protocol.Header
use programmer.Protocol.Op
use programmer.Protocol.Status

pub data Reaction : Type 0 where
  ignore extend_time done : Reaction

-- The cases of the switch in ETarget's constructor, in their order. None of them ends with a
-- break, so control goes on through the assignments below it.
unfoldable pub messages : List (ℕ × String)
messages =
    (Status.inv_op, "Operation not supported by the target.")
    ∷ (Status.inv_param, "The target detected an invalid parameter.")
    ∷ (Status.inv_length, "Invalid operation length.")
    ∷ (Status.inv_addr, "Invalid operation address.")
    ∷ (Status.protected_addr, "Forbidden operation address.")
    ∷ (Status.inv_src, "Sender aren't permitted to perform this operation.")
    ∷ (Status.pkt_size, "The target reported invalid packet size.")
    ∷ []

-- The message after the assignments from a case on.
unfoldable pub fall_through : List (ℕ × String) → String → String
fall_through [] message = "Target reported an invalid status."
fall_through (m ∷ ms) message = fall_through ms m.1

-- The jump to the case of the status; STATUS_REQUEST and the others are the last one.
unfoldable pub switch : List (ℕ × String) → ℕ → String
switch [] status = "Target reported an invalid status."
switch (m ∷ ms) status =
    let rest = switch ms status in if status == m.0 then fall_through ms m.1 else rest

unfoldable pub e_target : ℕ → Thrown
e_target status = target_error status (text (switch messages status) ∷ [])

unfoldable pub takes_time : ℕ → Bool
takes_time op =
    (op == Op.read)
    || (op == Op.write)
    || (op == Op.erase)
    || (op == Op.erase_write)
    || (op == Op.chip_erase)
    || (op == Op.checksum)

-- The switch over the status.
unfoldable pub react : ℕ → ℕ → Result Reaction
react operation status =
    if status == Status.done
    then ok done
    else if status == Status.in_progress
    then if not (takes_time operation)
      then throw "Received unexcepted status from target."
      else ok extend_time
    else throws (e_target status)

-- The tests of a frame against the request that was sent.
unfoldable pub classify : List ℕ → List ℕ → Result Reaction
classify tx rx =
    if not (Header.version rx == Protocol.version)
    then throw "Unsupported protocol version."
    else if not (Header.seq rx == Header.seq tx)
    then ok ignore
    else if not (Header.operation rx == Header.operation tx)
    then throw "Invalid operation code in response."
    else react (Header.operation rx) (Header.status rx)
