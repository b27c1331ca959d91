-- ===== src/Target/Access.antt =====
-- Who can change the device: the programmer that was seen last, with a new sequence number.
use programmer.Prelude.{
  ℕ, ◌≤◌, ◌≡◌, refl, false, not, List, [], ◌∷◌, length, overwrite, ltb, ◌==◌, arith, Bool-cases,
  inl, inr, ◌⊎◌,
}
use programmer.Network.{Address}
use programmer.Exceptions.{Result, ok}
use programmer.Protocol.Header
use programmer.Protocol.Status
use programmer.Target.{
  Target, Reply, refuse, set_status, send, accept, step, is_discovery, same_address,
}

-- A round after which the flash, the programmer and the sequence number are those before it.
pub record Ignores (t : Target) (r : Result (Target × List Reply)) : Type 0 where
  pub next : Target
  pub replies : List Reply
  pub returns : r ≡ ok (next, replies)
  pub flash : next.flash ≡ t.flash
  pub programmer_addr : next.programmer_addr ≡ t.programmer_addr
  pub last_seq : next.last_seq ≡ t.last_seq
  pub few : length replies ≤ 1

quiet-Ignores : (t : Target) (buf : List ℕ) → Ignores t (ok (record t { buf = buf }, []))
quiet-Ignores t buf = record {
  next = record t { buf = buf };
  replies = [];
  returns = refl;
  flash = refl;
  programmer_addr = refl;
  last_seq = refl;
  few = omega arith;
}

refuse-Ignores :
    (t : Target) (buf : List ℕ) (s : ℕ) (from : Address)
    → Ignores t (refuse (record t { buf = buf }) s from)
unfolding refuse set_status
refuse-Ignores t buf s from = record {
  next = set_status (record t { buf = buf }) s;
  replies = send (set_status (record t { buf = buf }) s) 0 from ∷ [];
  returns = refl;
  flash = refl;
  programmer_addr = refl;
  last_seq = refl;
  few = omega arith;
}

-- A datagram that fits the buffer and asks for neither discovery nor network configuration changes
-- neither the flash nor the programmer's address nor the last sequence number, and gets at most
-- one reply, when it repeats the last sequence number or its sender is not the programmer.
pub step-Ignores :
    (t : Target) (datagram : List ℕ) (from : Address)
    → length datagram ≤ 1500
    → is_discovery (Header.operation (overwrite t.buf 0 datagram)) ≡ false
    → ((same_address from t.programmer_addr ≡ false)
        ⊎ (Header.seq (overwrite t.buf 0 datagram) ≡ t.last_seq))
    → Ignores t (step t datagram from)
unfolding step accept
step-Ignores t datagram from l d g =
    let buf = overwrite t.buf 0 datagram in
    let fits : ltb 1500 (length datagram) ≡ false = ground arith in
    elim (Bool-cases (ltb (length datagram) 10)) [
      | inl e ↦ rw (fits, e) (quiet-Ignores t buf)
      | inr e ↦ elim (Bool-cases (not (Header.version buf == 1))) [
        | inl a ↦ rw (fits, e, a) (quiet-Ignores t buf)
        | inr a ↦ elim (Bool-cases (not (Header.status buf == 0))) [
          | inl b ↦ rw (fits, e, a, b) (quiet-Ignores t buf)
          | inr b ↦ elim (Bool-cases (Header.seq buf == t.last_seq)) [
            | inl c ↦ rw (fits, e, a, b, d, c) (quiet-Ignores t buf)
            | inr c ↦
                let stranger : same_address from t.programmer_addr ≡ false = ground arith in
                rw (fits, e, a, b, d, c, stranger) (refuse-Ignores t buf Status.inv_src from)
          ]
        ]
      ]
    ]
