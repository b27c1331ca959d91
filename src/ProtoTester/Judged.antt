-- ===== src/ProtoTester/Judged.antt =====
-- A test of src/TargetTester.cpp against the device of src/Target.cpp: when it passes.
use programmer.Prelude.{
  Option, some, none, false, ℕ, ◌+◌, ◌%◌, ◌≡◌, sym, subst, ap, ◌∙◌, ◌↔◌, List, [], ◌∷◌, ◌++◌,
  length, ltb, leb, ◌==◌, ◌&&◌, if◌then◌else◌, arith, Bool-cases, inl, inr,
}
use programmer.Exceptions.{ok, throws, IsOk}
use programmer.Network.{Address}
use programmer.Protocol.Status
use programmer.NetworkProgrammer.{NetworkProgrammer}
use programmer.NetworkProgrammer.Process.{e_target}
use programmer.NetworkProgrammer.Verdict.{e_target_lem}
use programmer.Target.{Target, Reply, step}
use programmer.System.{Command, erase, read, reset, checksum, perform, call, IsValid, arriving}
use programmer.System.Linked.{IsLinked}
use programmer.System.Exchanges.{call-Performs}
use programmer.ProtoTester.{expect, judge, run_test}

-- The status with which the device answers a command, from what is asked and the size of its flash.
abbrev pub status_of : Command → ℕ → ℕ
status_of (erase address) size =
    if (address % 1024 == 0) && ltb address size then Status.done else Status.inv_param
status_of (read address count) size =
    if leb (address + count) size && leb count 1496 then Status.done else Status.inv_param
status_of reset size = Status.inv_op
status_of (checksum address count) size = Status.inv_op

-- A read of no bytes, which the device answers with no payload, and `get_payload` then throws.
abbrev pub IsEmpty : Command → Type 0
IsEmpty (erase address) = ⊥
IsEmpty (read address count) = count ≡ 0
IsEmpty reset = ⊥
IsEmpty (checksum address count) = ⊥

-- A status that is expected, or another.
expect-IsOk {ℓ} :
    {A : Type ℓ} (value : Option A) (expected status : ℕ)
    → IsOk (expect value expected status) ↔ (expected ≡ status)
unfolding expect
expect-IsOk value expected status = elim (Bool-cases (status == expected)) [
  | inl e ↦ rw e ((λ u. ground arith), (λ s. tt))
  | inr e ↦ rw e ((λ u. absurd u), (λ s. absurd (ground (arith, e, s))))
]

refused-IsOk :
    (expected status : ℕ)
    → IsOk (judge {A = List ℕ} expected (throws (e_target status))) ↔ (expected ≡ status)
unfolding judge
refused-IsOk expected status = rw (e_target_lem status) (expect-IsOk none expected status)

perform-status :
    (expected : ℕ) (c : Command) (memory : List ℕ)
    → ¬ IsEmpty c
    → IsOk (judge expected (perform c memory).1) ↔ (expected ≡ status_of c (length memory))
unfolding perform judge
perform-status expected (erase a) memory n =
    elim (Bool-cases ((a % 1024 == 0) && ltb a (length memory))) [
      | inl e ↦ rw e (expect-IsOk (some []) expected Status.done)
      | inr e ↦ rw e (refused-IsOk expected Status.inv_param)
    ]
perform-status expected (read a k) memory n =
    let some_bytes : (k == 0) ≡ false = ground (arith, n) in
    elim (Bool-cases (leb (a + k) (length memory) && leb k 1496)) [
      | inl e ↦ rw (e, some_bytes) (expect-IsOk (some _) expected Status.done)
      | inr e ↦ rw e (refused-IsOk expected Status.inv_param)
    ]
perform-status expected reset memory n = refused-IsOk expected Status.inv_op
perform-status expected (checksum a k) memory n = refused-IsOk expected Status.inv_op

-- A test of a command: a datagram, the device's round with it, and when the test passes.
pub record Judges (me there : Address) (expected : ℕ) (c : Command) (p : NetworkProgrammer)
    (t : Target) : Type 0 where
  pub datagram : List ℕ
  pub replies : List Reply
  pub next : Target
  pub sends :
      (run_test expected (call c) (record p { events = arriving there replies })).0.sent
      ≡ p.sent ++ (datagram, p.tx_address) ∷ []
  pub round : step t datagram me ≡ ok (next, replies)
  pub passes :
      IsOk (run_test expected (call c) (record p { events = arriving there replies })).1
      ↔ (expected ≡ status_of c (length t.flash))

-- A test that runs an erase, a read, a reset or a checksum against the device sends one datagram, the
-- device has a round with it, and with the replies of this round the test passes exactly where the
-- status expected of it is the one with which the device answers: STATUS_OK for the erase of a page inside
-- the flash and a read inside it of at most 1496 bytes, STATUS_INV_PARAM for the others, and
-- STATUS_INV_OP for a reset or a checksum. A read has one byte at least. Addresses have 32 bits and
-- sizes 16, and the sum of a read's two does not wrap; the programmer is connected, its transmit
-- buffer holds a request and its receive buffer has its 1500 bytes, the device's state is sound and
-- its flash has less than 4 GB, the device knows the programmer and its last sequence number is that
-- of the transmit buffer, which is a byte, and every datagram is delivered.
pub run_test-Judges :
    (me there : Address) (expected : ℕ) (c : Command) (p : NetworkProgrammer) (t : Target)
    → IsLinked me p t
    → IsValid c
    → ¬ IsEmpty c
    → Judges me there expected c p t
unfolding run_test
run_test-Judges me there expected c p t h v n =
    let r = call-Performs me there p t c h v in
    let same = r.calls.returns in
    record {
      datagram = r.calls.datagram;
      replies = r.calls.replies;
      next = r.next;
      sends = ap (λ x. x.0.sent) same ∙ r.calls.sends;
      round = r.calls.round;
      passes =
          subst (λ x. IsOk (judge expected x.1) ↔ (expected ≡ status_of c (length t.flash)))
            (sym same) (perform-status expected c t.flash n);
    }
