-- ===== src/System/Declines.antt =====
-- The device's side: a new request from its programmer that it refuses, and the one reply.
use programmer.Prelude.{
  ℕ, ◌+◌, ◌%◌, ◌^◌, ◌<◌, ◌≡◌, refl, ◌∙◌, true, false, not, ◌||◌, ◌&&◌, ltb, leb, ◌==◌, u32, List,
  [], ◌∷◌, length, take, length-set, length-take, arith,
}
use programmer.Exceptions.{Result, ok}
use programmer.Network.{Address}
use programmer.Protocol.Header
use programmer.Protocol.Op
use programmer.Protocol.Status
use programmer.Target.{
  Target, Reply, set_status, send, refuse, handle, handle_erase, handle_read, handle_write,
}
use programmer.Target.Safety.{IsSound, set_status-IsSound}
use programmer.System.Replies.{IsReply, set_status-IsReply, request-IsReply, take-IsReply}
use programmer.System.Asks.{Asks}

-- A round that refuses a request: a reply with the status, and the flash as before.
pub record Declines (t : Target) (me : Address) (s op st : ℕ) (r : Result (Target × List Reply))
    : Type 0 where
  pub next : Target
  pub answer : List ℕ
  pub returns : r ≡ ok (next, record { bytes = answer; receiver = me } ∷ [])
  pub answered : IsReply answer s op st
  pub four : length answer ≡ 4
  pub flash : next.flash ≡ t.flash
  pub last_seq : next.last_seq ≡ s
  pub programmer_addr : next.programmer_addr ≡ t.programmer_addr
  pub sound : IsSound next

module _ (t : Target) (me : Address) (s op a n : ℕ) (h : IsSound t) (k : Asks t.buf s op a n)
    (q : t.last_seq ≡ s) where
  refuse-Declines : (st : ℕ) → Declines t me s op st (refuse t st me)
  unfolding refuse send set_status
  refuse-Declines st =
      let buf = Header.set_status t.buf st in
      let size : length buf ≡ 1500 = unfold Header.set_status in length-set t.buf 3 st ∙ h.buffer in
      record {
        next = set_status t st;
        answer = take 4 buf;
        returns = refl;
        answered =
            take-IsReply 4 buf (omega arith)
              (set_status-IsReply t.buf st (omega (arith, h.buffer)) (request-IsReply t.buf k));
        four = omega (arith, length-take 4 buf, size);
        flash = refl;
        last_seq = q;
        programmer_addr = refl;
        sound = set_status-IsSound st h;
      }

  -- An erase that is not of a page of the flash.
  pub erase-Declines :
      ((a % 1024 == 0) && ltb a (length t.flash)) ≡ false
      → Declines t me s op Status.inv_param (handle_erase t me)
  unfolding handle_erase
  erase-Declines e =
      let test : (not (Header.address t.buf % 1024 == 0)
            || leb (length t.flash) (Header.address t.buf))
          ≡ true =
        rw k.address (ground (arith, e)) in
      rw test (refuse-Declines Status.inv_param)

  -- A write to what is no sector of the flash.
  pub write-Declines :
      ((a % 64 == 0) && ltb a (length t.flash)) ≡ false
      → Declines t me s op Status.inv_param (handle_write t me)
  unfolding handle_write
  write-Declines e =
      let test : (not (Header.address t.buf % 64 == 0)
            || leb (length t.flash) (Header.address t.buf))
          ≡ true =
        rw k.address (ground (arith, e)) in
      rw test (refuse-Declines Status.inv_param)

  -- A read that leaves the flash or does not fit a datagram.
  pub read-Declines :
      a + n < 2 ^ 32
      → (leb (a + n) (length t.flash) && leb n 1496) ≡ false
      → Declines t me s op Status.inv_param (handle_read t me)
  unfolding handle_read
  read-Declines w e =
      let test : (ltb (length t.flash) (u32 (Header.address t.buf + Header.length t.buf))
            || ltb 1496 (Header.length t.buf))
          ≡ true =
        rw (k.address, k.length) (ground (arith, e)) in
      rw test (refuse-Declines Status.inv_param)

-- The operations that the device does not know.
module _ (t : Target) (me : Address) (s a n : ℕ) (h : IsSound t) (q : t.last_seq ≡ s) where
  pub reset-Declines :
      Asks t.buf s Op.reset a n → Declines t me s Op.reset Status.inv_op (handle t me Op.reset)
  unfolding handle
  reset-Declines k = refuse-Declines t me s Op.reset a n h k q Status.inv_op

  pub checksum-Declines :
      Asks t.buf s Op.checksum a n
      → Declines t me s Op.checksum Status.inv_op (handle t me Op.checksum)
  unfolding handle
  checksum-Declines k = refuse-Declines t me s Op.checksum a n h k q Status.inv_op
