-- ===== src/System.antt =====
-- The programmer and the device together: NetworkProgrammer of src/Programmer.cpp, and the Target of
-- src/Target.cpp that answers it, over a network that delivers every datagram in order.
--
-- The specification is a memory with commands to erase a page and to read, and to reset and to sum,
-- which the device refuses. A call is an event of the
-- composed system: what the programmer sends is what the device receives, and what the device sends
-- is what arrives while the programmer waits.
pub mod Asks
pub mod Replies
pub mod Serves
pub mod Declines
pub mod Refusals
pub mod Linked
pub mod Exchanges
pub mod Discovered
pub mod Connects
pub mod Refines
pub mod Opened
pub mod Filled
pub mod Writes
pub mod Requests
pub mod Followed
use programmer.Prelude.{
  ℕ, ◌+◌, ◌%◌, ◌^◌, ◌<◌, ◌≡◌, ◌&&◌, ltb, leb, ◌==◌, if◌then◌else◌, List, [], ◌∷◌, ◌++◌, length,
  take, drop, replicate, overwrite,
}
use programmer.Exceptions.{Result, ok, throws, throw}
use programmer.Network.{Address}
use programmer.Protocol.Status
use programmer.NetworkProgrammer
use programmer.NetworkProgrammer.Process.{e_target}
use programmer.NetworkProgrammer.{NetworkProgrammer, Action, Event, frame, ◌>>◌, ◌>>=◌, give}
use programmer.Target.{Target, Reply, step}

pub data Command : Type 0 where
  erase : ℕ → Command
  read : ℕ → ℕ → Command
  reset : Command
  checksum : ℕ → ℕ → Command

-- The memory after a command, and what the command returns or throws: an erase of what is no page of
-- the memory and a read that leaves it or fits no datagram are refused, an empty read has no payload,
-- and the last two commands are not known.
unfoldable pub perform : Command → List ℕ → List ℕ × Result (List ℕ)
perform (erase address) memory =
    if (address % 1024 == 0) && ltb address (length memory)
    then (overwrite memory address (replicate 1024 0xFF), ok [])
    else (memory, throws (e_target Status.inv_param))
perform (read address size) memory =
    if leb (address + size) (length memory) && leb size 1496
    then (
      memory,
      if size == 0 then throw "No payload available." else ok (take size (drop address memory)),
    )
    else (memory, throws (e_target Status.inv_param))
perform reset memory = (memory, throws (e_target Status.inv_op))
perform (checksum address size) memory = (memory, throws (e_target Status.inv_op))

-- Commands in a row: the memory after them, and the list of their results.
unfoldable pub perform_all : List Command → List ℕ → List ℕ × List (Result (List ℕ))
perform_all [] memory = (memory, [])
perform_all (c ∷ cs) memory =
    let first = perform c memory in let rest = perform_all cs first.0 in (rest.0, first.1 ∷ rest.1)

-- Arguments that fit their widths, with a sum that does not wrap.
abbrev pub IsValid : Command → Type 0
IsValid (erase address) = address < 2 ^ 32
IsValid (read address size) = (size < 2 ^ 16) × (address + size < 2 ^ 32)
IsValid reset = Unit {0}
IsValid (checksum address size) = (address < 2 ^ 32) × (size < 2 ^ 16)

-- The address that a command leaves in the header of the transmit buffer.
abbrev pub named : Command → ℕ
named (erase address) = address
named (read address size) = address
named reset = 0
named (checksum address size) = address

-- The method that carries a command out.
unfoldable pub call : Command → Action (List ℕ)
call (erase address) = NetworkProgrammer.erase address >> give (ok [])
call (read address size) = NetworkProgrammer.read address size
call reset = NetworkProgrammer.reset >> give (ok [])
call (checksum address size) =
    NetworkProgrammer.checksum address size >>= λ sum. give (ok (sum ∷ []))

-- The replies as they arrive at the programmer.
abbrev pub arriving : Address → List Reply → List Event
arriving there [] = []
arriving there (r ∷ rs) = frame r.bytes there ∷ arriving there rs

-- A call of a programmer at `me` to a device at `there`: it sends one datagram, the device has a
-- round with that datagram, and the call returns with the replies of the round.
pub record Calls (me there : Address) (method : Action (List ℕ)) (p : NetworkProgrammer)
    (t : Target) (result : Result (List ℕ)) (p' : NetworkProgrammer) (t' : Target) : Type 0 where
  pub datagram : List ℕ
  pub replies : List Reply
  pub sends : p'.sent ≡ p.sent ++ (datagram, p.tx_address) ∷ []
  pub round : step t datagram me ≡ ok (t', replies)
  pub returns : method (record p { events = arriving there replies }) ≡ (p', result)

-- Calls in a row, each the method of one of the given requests, from one state of the programmer and
-- the device to another.
pub data Session {C : Type 0} (act : C → Action (List ℕ)) (me there : Address)
    : NetworkProgrammer
      → Target
      → List C
      → List (Result (List ℕ))
      → NetworkProgrammer
      → Target
      → Type 0 where
  stop : {p : NetworkProgrammer} {t : Target} → Session act me there p t [] [] p t
  then_call :
      {p q p' : NetworkProgrammer} {t u t' : Target} {c : C} {cs : List C}
      {result : Result (List ℕ)} {results : List (Result (List ℕ))}
      → Calls me there (act c) p t result q u
      → Session act me there q u cs results p' t'
      → Session act me there p t (c ∷ cs) (result ∷ results) p' t'
