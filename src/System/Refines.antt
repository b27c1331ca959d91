-- ===== src/System/Refines.antt =====
-- The composed system refines the memory.
use programmer.Prelude.{◌≡◌, refl, ap, ◌∙◌, List, [], ◌∷◌, All, subst}
use programmer.Network.{Address}
use programmer.NetworkProgrammer.{NetworkProgrammer}
use programmer.Target.{Target}
use programmer.System.{Command, perform_all, IsValid, call, Session, stop, then_call}
use programmer.System.Linked.{IsLinked}
use programmer.System.Exchanges.{call-Performs}

-- The calls for some commands return what the commands return on the memory, and leave the device
-- with the memory after them and the two ready again.
pub record Refines (me there : Address) (p : NetworkProgrammer) (t : Target) (cs : List Command)
    : Type 0 where
  pub after : NetworkProgrammer
  pub next : Target
  pub session : Session call me there p t cs (perform_all cs t.flash).1 after next
  pub flash : next.flash ≡ (perform_all cs t.flash).0
  pub linked : IsLinked me after next

-- Any erases, reads, resets and checksums, in any order, are a session of calls: each call sends
-- one datagram, the device answers it in one round, and the call returns or throws what the
-- command does on a plain memory that started as the device's flash; at the end the flash is that
-- memory. What is no page or leaves the memory is refused with ETarget and changes nothing. The
-- addresses have 32 bits and the sizes 16, and the sum of a read's two does not wrap; the
-- programmer is connected, its transmit buffer holds a request and its receive buffer has its 1500
-- bytes, the device's state is sound and its flash has less than 4 GB, the device knows the
-- programmer and its last sequence number is that of the transmit buffer, which is a byte, and
-- every datagram is delivered.
pub session-Refines :
    (me there : Address) (p : NetworkProgrammer) (t : Target) (cs : List Command)
    → IsLinked me p t
    → All IsValid cs
    → Refines me there p t cs
unfolding perform_all
session-Refines me there p t [] h v = record {
  after = p;
  next = t;
  session = stop;
  flash = refl;
  linked = h;
}
session-Refines me there p t (c ∷ cs) h v =
    let first = call-Performs me there p t c h v.0 in
    let rest = session-Refines me there first.after first.next cs first.linked v.1 in
    record {
      after = rest.after;
      next = rest.next;
      session = then_call first.calls (
          subst
            (λ m.
              Session call me there first.after first.next cs (perform_all cs m).1 rest.after
                rest.next)
            first.flash rest.session);
      flash = rest.flash ∙ ap (λ m. (perform_all cs m).0) first.flash;
      linked = rest.linked;
    }
