-- ===== src/Target/Runs.antt =====
-- Runs of the device's loop over many datagrams.
use programmer.Prelude.{
  ℕ, ◌+◌, ◌*◌, ◌^◌, ◌≤◌, ◌<◌, ◌≡◌, refl, ◌∙◌, List, [], ◌∷◌, ◌++◌, length, length-append, All,
  arith,
}
use programmer.Network.{Address}
use programmer.Exceptions.{Result, ok}
use programmer.Protocol.Header
use programmer.Target.{Target, Reply, run}
use programmer.Target.Safety.{IsSound}
use programmer.Target.Total.{step-Handles}

-- A datagram that fits the buffer and whose address and length have a sum below 2 ^ 32.
abbrev pub IsBounded : List ℕ × Address → Type 0
IsBounded d = (length d.0 ≤ 1500) × (Header.address d.0 + Header.length d.0 < 2 ^ 32)

-- A run that ends in a sound state with the flash's size kept, and at most two replies a datagram.
pub record Runs (t : Target) (count : ℕ) (r : Result (Target × List Reply)) : Type 0 where
  pub next : Target
  pub replies : List Reply
  pub returns : r ≡ ok (next, replies)
  pub sound : IsSound next
  pub flash_size : length next.flash ≡ length t.flash
  pub few : length replies ≤ 2 * count

-- The device handles any datagrams, from anyone and in any order, without a fault: it ends in a
-- sound state, with a flash of the same size, and has sent at most two replies for each. Each
-- datagram has at most 1500 bytes, and an address and a length whose sum is below 2 ^ 32; the
-- flash has whole pages and less than 4 GB.
pub run-Runs :
    (t : Target) (ds : List (List ℕ × Address))
    → IsSound t
    → length t.flash < 2 ^ 32
    → All IsBounded ds
    → Runs t (length ds) (run t ds)
unfolding run
run-Runs t [] h k b = record {
  next = t;
  replies = [];
  returns = refl;
  sound = h;
  flash_size = refl;
  few = omega arith;
}
run-Runs t (d ∷ ds) h k b =
    let first = step-Handles t d.0 d.1 h k b.0.0 b.0.1 in
    let rest = run-Runs first.next ds first.sound (omega (arith, first.flash_size)) b.1 in
    record {
      next = rest.next;
      replies = first.replies ++ rest.replies;
      returns = rw (first.returns, rest.returns);
      sound = rest.sound;
      flash_size = rest.flash_size ∙ first.flash_size;
      few = omega (arith, length-append first.replies rest.replies, first.few, rest.few);
    }
