-- ===== src/System/Opened.antt =====
-- A connection and the calls over it.
use programmer.Prelude.{ℕ, ◌^◌, ◌<◌, ◌≡◌, ap, ◌∙◌, subst, List, length, All}
use programmer.Exceptions.{ok}
use programmer.Network.{Address}
use programmer.DeviceDescriptor.{DeviceDescriptor, find}
use programmer.NetworkProgrammer.{NetworkProgrammer}
use programmer.NetworkProgrammer.Frames.{IsRequest}
use programmer.Target.{Target}
use programmer.Target.Safety.{IsSound}
use programmer.System.{Command, perform_all, IsValid, call, Session}
use programmer.System.Connects.{Connects, connect_device-Connects}
use programmer.System.Refines.{session-Refines}

-- A connection to a device, and a session of calls that do to its flash what the commands do to a
-- memory.
pub record Opens (me there : Address) (ip port : ℕ) (d : DeviceDescriptor) (p : NetworkProgrammer)
    (t : Target) (cs : List Command) : Type 0 where
  pub connects : Connects me there ip port d p t
  pub after : NetworkProgrammer
  pub next : Target
  pub session :
      Session call me there connects.after connects.next cs (perform_all cs t.flash).1 after next
  pub flash : next.flash ≡ (perform_all cs t.flash).0

-- A programmer connects to a device and then makes calls: the connection
-- returns with the device's id and its descriptor, and each call returns or throws what its command
-- does on a memory that started as the device's flash, which the flash is at the end. The transmit
-- buffer holds a request and the receive buffer has its 1500 bytes; the device's state is sound, its
-- flash has less than 4 GB, its id is a 16-bit number that the table has; the addresses have 32
-- bits and the sizes 16, the sum of a read's two does not wrap, and every datagram is delivered.
pub connect_device-Opens :
    (me there : Address) (ip port : ℕ) (d : DeviceDescriptor) (p : NetworkProgrammer) (t : Target)
    (cs : List Command)
    → IsRequest p.tx
    → length p.rx ≡ 1500
    → IsSound t
    → find t.dev_id ≡ ok d
    → length t.flash < 2 ^ 32
    → t.dev_id < 2 ^ 16
    → All IsValid cs
    → Opens me there ip port d p t cs
connect_device-Opens me there ip port d p t cs h room sound known small id v =
    let c = connect_device-Connects me there ip port d p t h room sound known small id in
    let r = session-Refines me there c.after c.next cs c.linked v in
    record {
      connects = c;
      after = r.after;
      next = r.next;
      session =
          subst (λ m. Session call me there c.after c.next cs (perform_all cs m).1 r.after r.next)
            c.flash r.session;
      flash = r.flash ∙ ap (λ m. (perform_all cs m).0) c.flash;
    }
