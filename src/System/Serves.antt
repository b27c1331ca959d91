-- ===== src/System/Serves.antt =====
-- The device's side: a new request from its programmer to erase or to read, and the two replies.
use programmer.Prelude.{
  drop-take, ℕ, ◌+◌, ◌%◌, ◌^◌, ◌≤◌, ◌<◌, ◌≡◌, ◌≢◌, refl, ap, ◌∙◌, true, false, ◌==◌, ltb,
  Bool-cases, inl, inr, List, [], ◌∷◌, length, take, drop, set, overwrite, length-set, length-take,
  length-drop, length-overwrite, drop-set, overwrite-nil, take-drop-overwrite, arith,
}
use programmer.Exceptions.{Result, ok}
use programmer.Network.{Address}
use programmer.Protocol.Header
use programmer.Protocol.Op
use programmer.Protocol.Status
use programmer.Target.{
  Target, Reply, set_status, send, step, accept, handle, is_discovery, same_address, blank_page,
}
use programmer.Target.Safety.{handle_write_carried, IsSound, handle_erase_carried}
use programmer.Target.Reads.{handle_read_carried}
use programmer.System.Replies.{
  IsReply, payload-IsReply, set_status-IsReply, request-IsReply, take-IsReply,
}
use programmer.System.Asks.{Asks, overwrite-Asks}

-- A round that carries a request out: a reply that says so, the answer, and the flash after it.
pub record Serves (t : Target) (me : Address) (s op : ℕ) (memory payload : List ℕ)
    (r : Result (Target × List Reply)) : Type 0 where
  pub next : Target
  pub progress : List ℕ
  pub answer : List ℕ
  pub returns :
      r
      ≡ ok (
        next,
        record { bytes = progress; receiver = me } ∷ record { bytes = answer; receiver = me } ∷ [],
      )
  pub started : IsReply progress s op Status.in_progress
  pub four : length progress ≡ 4
  pub answered : IsReply answer s op Status.done
  pub size : length answer ≡ 4 + length payload
  pub carries : drop 4 answer ≡ payload
  pub flash : next.flash ≡ memory
  pub last_seq : next.last_seq ≡ s
  pub programmer_addr : next.programmer_addr ≡ t.programmer_addr
  pub sound : IsSound next

-- The state in which the request is handled.
abbrev pub received : Target → List ℕ → ℕ → Target
received t frame s = record t { buf = overwrite t.buf 0 frame; last_seq = s }

-- A new request from the programmer gets as far as the switch over its operation.
pub step_accepted :
    (t : Target) (frame : List ℕ) (me : Address) (s op a n : ℕ)
    → IsSound t
    → 10 ≤ length frame
    → length frame ≤ 1500
    → Asks frame s op a n
    → is_discovery op ≡ false
    → same_address me t.programmer_addr ≡ true
    → s ≢ t.last_seq
    → step t frame me ≡ handle (received t frame s) me op
unfolding step accept
step_accepted t frame me s op a n h l most k d m new =
    let asks = overwrite-Asks t.buf frame l (omega (arith, h.buffer)) k in
    let buf = overwrite t.buf 0 frame in
    let fits : ltb 1500 (length frame) ≡ false = ground arith in
    let long : ltb (length frame) 10 ≡ false = ground arith in
    let v : (Header.version buf == 1) ≡ true = ground (arith, asks.version) in
    let r : (Header.status buf == 0) ≡ true = ground (arith, asks.status) in
    let c : (s == t.last_seq) ≡ false = elim (Bool-cases (s == t.last_seq)) [
      | inl e ↦ absurd (new (ground arith))
      | inr e ↦ e
    ] in
    rw (fits, long, v, r, asks.seq, asks.operation, d, c, m) refl

-- The buffer with the answer, and the state with it.
abbrev answer_buf : List ℕ → List ℕ → List ℕ
answer_buf buf payload =
    Header.set_status (overwrite (Header.set_status buf Status.in_progress) 4 payload) Status.done

abbrev answer_state : Target → List ℕ → List ℕ → Target
answer_state t memory payload = record t { flash = memory; buf = answer_buf t.buf payload }

length-answer_buf : (buf payload : List ℕ) → length (answer_buf buf payload) ≡ length buf
unfolding Header.set_status
length-answer_buf buf payload =
    length-set (overwrite (set buf 3 2) 4 payload) 3 1
    ∙ length-overwrite (set buf 3 2) 4 payload
    ∙ length-set buf 3 2

drop-answer_buf :
    (buf payload : List ℕ)
    → length payload + 4 ≤ length buf
    → drop 4 (take (length payload + 4) (answer_buf buf payload)) ≡ payload
unfolding Header.set_status
drop-answer_buf buf payload h =
    drop-take (length payload) 4 (answer_buf buf payload)
    ∙ ap (take (length payload)) (drop-set 4 (overwrite (set buf 3 2) 4 payload) 3 1 (omega arith))
    ∙ take-drop-overwrite (set buf 3 2) 4 payload (omega (arith, length-set buf 3 2))

-- The two replies to a request in the buffer.
answers-Serves :
    (t : Target) (me : Address) (s op a n : ℕ) (memory payload : List ℕ)
    → IsSound t
    → Asks t.buf s op a n
    → t.last_seq ≡ s
    → length memory ≡ length t.flash
    → length payload ≤ 1496
    → Serves t me s op memory payload (
        ok (
          answer_state t memory payload,
          record { bytes = take 4 (Header.set_status t.buf Status.in_progress); receiver = me }
              ∷ record {
                bytes = take (length payload + 4) (answer_buf t.buf payload);
                receiver = me;
              }
              ∷ [],
        ))
answers-Serves t me s op a n memory payload h k q m l =
    let busy = Header.set_status t.buf Status.in_progress in
    let size : length busy ≡ 1500 = unfold Header.set_status in length-set t.buf 3 2 ∙ h.buffer in
    let whole : length (answer_buf t.buf payload) ≡ 1500 =
      length-answer_buf t.buf payload ∙ h.buffer in
    let started =
      set_status-IsReply t.buf Status.in_progress (omega (arith, h.buffer))
        (request-IsReply t.buf k) in
    let answered =
      set_status-IsReply (overwrite busy 4 payload) Status.done
        (omega (arith, size, length-overwrite busy 4 payload))
        (payload-IsReply busy 4 payload (omega arith) started) in
    record {
      next = answer_state t memory payload;
      progress = take 4 busy;
      answer = take (length payload + 4) (answer_buf t.buf payload);
      returns = refl;
      started = take-IsReply 4 busy (omega arith) started;
      four = omega (arith, length-take 4 busy, size);
      answered =
          take-IsReply (length payload + 4) (answer_buf t.buf payload) (omega arith) answered;
      size = omega (arith, length-take (length payload + 4) (answer_buf t.buf payload), whole);
      carries = drop-answer_buf t.buf payload (omega (arith, h.buffer));
      flash = refl;
      last_seq = q;
      programmer_addr = refl;
      sound = record { buffer = whole; pages = omega (arith, m, h.pages) };
    }

-- An erase of a page blanks it, and its answer carries nothing.
pub erase-Serves :
    (t : Target) (me : Address) (s a n : ℕ)
    → IsSound t
    → Asks t.buf s Op.erase a n
    → t.last_seq ≡ s
    → a % 1024 ≡ 0
    → a < length t.flash
    → Serves t me s Op.erase (overwrite t.flash a blank_page) [] (handle t me Op.erase)
unfolding handle send set_status
erase-Serves t me s a n h k q p l =
    let same = handle_erase_carried t me h.pages (rw k.address p) (rw k.address l) in
    let serves =
      answers-Serves t me s Op.erase a n (overwrite t.flash a blank_page) [] h k q
        (length-overwrite t.flash a blank_page) (omega arith) in
    rw (same, k.address)
      (rw (overwrite-nil (Header.set_status t.buf Status.in_progress) 4) at serves)

-- A write stores the bytes from the sixteenth on at the address of the header.
pub write-Serves :
    (t : Target) (me : Address) (s a n : ℕ)
    → IsSound t
    → Asks t.buf s Op.write a n
    → t.last_seq ≡ s
    → a % 64 ≡ 0
    → a < length t.flash
    → Serves t me s Op.write
        (overwrite t.flash a (take 64 (drop 16 t.buf)))
        []
        (handle t me Op.write)
unfolding handle send set_status
write-Serves t me s a n h k q p l =
    let same = handle_write_carried t me h.pages (rw k.address p) (rw k.address l) in
    let serves =
      answers-Serves t me s Op.write a n (overwrite t.flash a (take 64 (drop 16 t.buf))) [] h k q
        (length-overwrite t.flash a (take 64 (drop 16 t.buf))) (omega arith) in
    rw (same, k.address)
      (rw (overwrite-nil (Header.set_status t.buf Status.in_progress) 4) at serves)

-- A read leaves the flash, and its answer carries the bytes.
pub read-Serves :
    (t : Target) (me : Address) (s a n : ℕ)
    → IsSound t
    → Asks t.buf s Op.read a n
    → t.last_seq ≡ s
    → length t.flash < 2 ^ 32
    → a + n ≤ length t.flash
    → n ≤ 1496
    → Serves t me s Op.read t.flash (take n (drop a t.flash)) (handle t me Op.read)
unfolding handle send set_status
read-Serves t me s a n h k q w l m =
    let bytes = take n (drop a t.flash) in
    let size : length bytes ≡ n =
      omega (arith, length-take n (drop a t.flash), length-drop a t.flash) in
    let same = handle_read_carried t me (rw (k.address, k.length) l) w (rw k.length m) in
    let serves = answers-Serves t me s Op.read a n t.flash bytes h k q refl (omega (arith, size)) in
    rw (same, k.address, k.length) (rw size at serves)
