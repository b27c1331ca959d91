-- ===== src/System/Followed.antt =====
-- The composed system follows the specification of System.Requests.
use programmer.Prelude.{
  ℕ, ◌+◌, ◌%◌, ◌≤◌, ◌<◌, ◌≡◌, refl, ap, false, ◌&&◌, ltb, ◌==◌, Bool-cases, inl, inr, List, [], ◌∷◌,
  length, All, arith, u8,
}
use programmer.Exceptions.{Result, ok, throws}
use programmer.Network.{Address}
use programmer.Protocol.Header
use programmer.Protocol.Op
use programmer.Protocol.Status
use programmer.NetworkProgrammer
use programmer.NetworkProgrammer.{
  NetworkProgrammer, resume, give, prepare_payload, fill_write, check_connection,
}
use programmer.NetworkProgrammer.Process.{e_target}
use programmer.Target.{Target, handle, is_discovery}
use programmer.System.{Calls, stop, then_call, perform}
use programmer.System.Declines.{write-Declines}
use programmer.System.Linked.{IsLinked, Performs}
use programmer.System.Exchanges.{call-Performs}
use programmer.System.Refusals.{refused-Performs}
use programmer.System.Writes.{prepared, prepared-IsPrepared, enough, write-Misplaces}
use programmer.System.Requests.{
  Request, command, write, act, IsServed, Acts, commanded, written, misplaced, stopped, acted,
  store_of, Follows,
}

-- One request.
record Serves (me there : Address) (q : Request) (p : NetworkProgrammer) (t : Target) : Type 0 where
  result : Result (List ℕ)
  after : NetworkProgrammer
  next : Target
  calls : Calls me there (act q) p t result after next
  acts : Acts q (store_of p t) result (store_of after next)
  linked : IsLinked me after next

module _ (me there : Address) (p : NetworkProgrammer) (t : Target) (address : ℕ) (buffer : List ℕ)
    (h : IsLinked me p t) (l : 64 ≤ length buffer) where
  abbrev place : ℕ
  place = Header.address p.tx

  write-served :
      place % 64 ≡ 0 → place < length t.flash → Serves me there (write address buffer) p t
  unfolding act
  write-served k m =
      let w = write-Misplaces me there address buffer p t h l k m in
      record {
        result = ok [];
        after = w.after;
        next = w.next;
        calls = record {
          datagram = w.datagram;
          replies = w.replies;
          sends = w.sends;
          round = w.round;
          returns = ap (λ r. resume r.0 r.1 (λ done. give (ok []))) w.returns;
        };
        acts = written address buffer k m (record {
          size = w.size;
          shifted = w.shifted;
          others = w.others;
          place = w.place_kept;
        });
        linked = w.linked;
      }

  write-refused :
      ((place % 64 == 0) && ltb place (length t.flash)) ≡ false
      → Performs me there
          (act (write address buffer))
          place
          p
          t
          (t.flash, throws (e_target Status.inv_param))
  unfolding act NetworkProgrammer.write check_connection prepare_payload fill_write is_discovery
      handle
  write-refused e =
      let fits : ltb (length buffer) 64 ≡ false = enough (length buffer) l in
      refused-Performs me there p t h (act (write address buffer)) (prepared address buffer p)
        Op.write place (Header.length p.tx) Status.inv_param
        (prepared-IsPrepared p address buffer h) refl refl refl (λ x. absurd (omega (arith, x)))
        (λ x. absurd (omega (arith, x)))
        (λ t1 b k q m.
          write-Declines t1 me (u8 (Header.seq p.tx + 1)) Op.write place (Header.length p.tx) b k q
            (rw m e))
        (λ es after x. rw (h.connected, fits, x) refl)

request-Serves :
    (me there : Address) (q : Request) (p : NetworkProgrammer) (t : Target)
    → IsLinked me p t
    → IsServed q
    → Serves me there q p t
unfolding act
request-Serves me there (command c) p t h v =
    let r = call-Performs me there p t c h v in
    record {
      result = (perform c t.flash).1;
      after = r.after;
      next = r.next;
      calls = r.calls;
      acts = commanded c refl r.flash r.place;
      linked = r.linked;
    }
request-Serves me there (write address buffer) p t h v =
    let place = Header.address p.tx in
    elim (Bool-cases ((place % 64 == 0) && ltb place (length t.flash))) [
      | inl e ↦ write-served me there p t address buffer h v (ground arith) (ground arith)
      | inr e ↦
          let r = write-refused me there p t address buffer h v e in
          record {
            result = throws (e_target Status.inv_param);
            after = r.after;
            next = r.next;
            calls = r.calls;
            acts = misplaced address buffer e r.flash r.place;
            linked = r.linked;
          }
    ]

-- Any requests in any order, writes included, are a session of calls that a run of the
-- specification accounts for: each call sends one datagram, the device answers it in one round,
-- and the call returns or throws what the request does on a store that started as the device's
-- flash and the address in the programmer's header; at the end the flash and that address are the
-- store. An erase, a read, a reset and a checksum do what they do on a plain memory and leave
-- their address; a write stores its bytes from the third on at the address that the last request
-- has left, or is refused with ETarget when that is no sector of the flash. The addresses of
-- erases and checksums have 32 bits and the sizes of reads and checksums 16, the sum of a read's
-- two does not wrap, and a write has 64 bytes at least; the programmer is connected, its transmit
-- buffer holds a request and its receive buffer has its 1500 bytes, the device's state is sound
-- and its flash has less than 4 GB, the device knows the programmer and its last sequence number
-- is that of the transmit buffer, which is a byte, and every datagram is delivered.
pub requests-Follows :
    (me there : Address) (p : NetworkProgrammer) (t : Target) (qs : List Request)
    → IsLinked me p t
    → All IsServed qs
    → Follows me there p t qs
requests-Follows me there p t [] h v = record {
  results = [];
  after = p;
  next = t;
  session = stop;
  run = stopped;
  linked = h;
}
requests-Follows me there p t (q ∷ qs) h v =
    let first = request-Serves me there q p t h v.0 in
    let rest = requests-Follows me there first.after first.next qs first.linked v.1 in
    record {
      results = first.result ∷ rest.results;
      after = rest.after;
      next = rest.next;
      session = then_call first.calls rest.session;
      run = acted first.acts rest.run;
      linked = rest.linked;
    }
