-- ===== src/Target/Reads.antt =====
-- OP_READ of the device: what a request returns, and the sum of its test that wraps.
use programmer.Prelude.{
  ℕ, ◌+◌, ◌^◌, ◌≤◌, ◌<◌, ◌≡◌, refl, ◌∙◌, false, ◌||◌, List, [], ◌∷◌, length, take, drop, set,
  overwrite, length-set, length-overwrite, u32, ltb, arith,
}
use programmer.Network.{Address}
use programmer.Exceptions.{ok, fault, Fault}
use programmer.Protocol.Header
use programmer.Protocol.Status
use programmer.Target.{Target, set_status, send, load, handle_read}
use programmer.Target.Safety.{IsSound, Handles}

-- The state after a read: the bytes stand behind the reply header.
abbrev pub read_state : Target → List ℕ → Target
read_state t bytes =
    set_status
      (record (set_status t Status.in_progress) {
        buf = overwrite (set_status t Status.in_progress).buf 4 bytes;
      })
      Status.done

-- The bytes of the flash that a request names.
abbrev pub requested : Target → List ℕ
requested t = take (Header.length t.buf) (drop (Header.address t.buf) t.flash)

load_lem :
    (t : Target) (address count : ℕ)
    → address + count ≤ length t.flash
    → load (set_status t Status.in_progress) address count ≡ ok (take count (drop address t.flash))
unfolding load set_status
load_lem t address count h = ground arith

load_fault :
    (t : Target) (address count : ℕ)
    → length t.flash < address + count
    → load (set_status t Status.in_progress) address count ≡ fault Fault.out_of_bounds
unfolding load set_status
load_fault t address count h = ground arith

-- A read inside the flash whose bytes fit a datagram returns them: one reply without, one with.
pub handle_read_carried :
    (t : Target) (from : Address)
    → Header.address t.buf + Header.length t.buf ≤ length t.flash
    → length t.flash < 2 ^ 32
    → Header.length t.buf ≤ 1496
    → handle_read t from
      ≡ ok (
        read_state t (requested t),
        send (set_status t Status.in_progress) 0 from
            ∷ send (read_state t (requested t)) (Header.length t.buf) from
            ∷ [],
      )
unfolding handle_read
handle_read_carried t from h k l =
    let g : (ltb (length t.flash) (u32 (Header.address t.buf + Header.length t.buf))
          || ltb 1496 (Header.length t.buf))
        ≡ false =
      ground arith in
    rw (g, load_lem t (Header.address t.buf) (Header.length t.buf) h)

-- When the sum of the address and the length wraps, the test of the bounds passes and the copy
-- runs past the end of the flash.
pub handle_read_wraps :
    (t : Target) (from : Address)
    → length t.flash < 2 ^ 32
    → 2 ^ 32 ≤ Header.address t.buf + Header.length t.buf
    → Header.address t.buf + Header.length t.buf ≤ 2 ^ 32 + length t.flash
    → Header.length t.buf ≤ 1496
    → handle_read t from ≡ fault Fault.out_of_bounds
unfolding handle_read
handle_read_wraps t from k w h l =
    let g : (ltb (length t.flash) (u32 (Header.address t.buf + Header.length t.buf))
          || ltb 1496 (Header.length t.buf))
        ≡ false =
      ground arith in
    rw (g, load_fault t (Header.address t.buf) (Header.length t.buf) (omega arith))

pub read_state-Handles :
    (t : Target) (from : Address)
    → IsSound t
    → Handles t (
        ok (
          read_state t (requested t),
          send (set_status t Status.in_progress) 0 from
              ∷ send (read_state t (requested t)) (Header.length t.buf) from
              ∷ [],
        ))
unfolding set_status Header.set_status
read_state-Handles t from h = record {
  next = read_state t (requested t);
  replies =
      send (set_status t Status.in_progress) 0 from
      ∷ send (read_state t (requested t)) (Header.length t.buf) from
      ∷ [];
  returns = refl;
  sound = record {
    buffer =
        length-set (overwrite (set t.buf 3 2) 4 (requested t)) 3 1
        ∙ length-overwrite (set t.buf 3 2) 4 (requested t)
        ∙ length-set t.buf 3 2
        ∙ h.buffer;
    pages = h.pages;
  };
  flash_size = refl;
  few = omega arith;
}
