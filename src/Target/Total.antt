-- ===== src/Target/Total.antt =====
-- Every round of the device's loop ends without a fault, unless a read wraps.
use programmer.Prelude.{
  ℕ, ◌+◌, ◌%◌, ◌^◌, ◌≤◌, ◌<◌, ◌≡◌, refl, subst, sym, ◌∙◌, false, not, ◌&&◌, ◌||◌, List, [], length,
  take, drop, get_or, overwrite, length-overwrite, u32, ltb, leb, ◌==◌, arith, Bool-cases, inl, inr,
}
use programmer.Network.{Address}
use programmer.Exceptions.{Result, ok}
use programmer.Protocol.{be16_at, be32_at, host16_at, host32_at}
use programmer.Protocol.Fields.{get_or-overwrite_start}
use programmer.Protocol.Header
use programmer.Protocol.Op
use programmer.Protocol.Status
use programmer.Target.{
  Target, Reply, refuse, handle, handle_erase, handle_write, handle_read, accept, step, blank_page,
  is_discovery, same_address,
}
use programmer.Target.Safety.{
  IsSound, Handles, refuse-Handles, handle_discover-Handles, answers-Handles, handle_erase_carried,
  handle_write_carried,
}
use programmer.Target.Reads.{handle_read_carried, read_state-Handles}

-- The state in which nothing but the buffer or the sequence number has changed.
quiet-Handles :
    (t t' : Target) → IsSound t' → length t'.flash ≡ length t.flash → Handles t (ok (t', []))
quiet-Handles t t' h e = record {
  next = t';
  replies = [];
  returns = refl;
  sound = h;
  flash_size = e;
  few = omega arith;
}

-- What is handled from a state with a flash of the same size.
handled :
    (t t' : Target) {r : Result (Target × List Reply)}
    → length t'.flash ≡ length t.flash
    → Handles t' r
    → Handles t r
handled t t' e h = record {
  next = h.next;
  replies = h.replies;
  returns = h.returns;
  sound = h.sound;
  flash_size = h.flash_size ∙ e;
  few = h.few;
}

handle_erase-Handles : (t : Target) (from : Address) → IsSound t → Handles t (handle_erase t from)
handle_erase-Handles t from h =
    elim (Bool-cases
      (not (Header.address t.buf % 1024 == 0) || leb (length t.flash) (Header.address t.buf))) [
        | inl e ↦
            let same : handle_erase t from ≡ refuse t Status.inv_param from =
              unfold handle_erase in rw e in
            subst (λ r. Handles t r) (sym same) (refuse-Handles t Status.inv_param from h)
        | inr e ↦
            subst (λ r. Handles t r)
              (sym (handle_erase_carried t from h.pages (ground arith) (ground arith)))
              (answers-Handles t from _ h
                (length-overwrite t.flash (Header.address t.buf) blank_page))
      ]

handle_write-Handles : (t : Target) (from : Address) → IsSound t → Handles t (handle_write t from)
handle_write-Handles t from h =
    elim (Bool-cases
      (not (Header.address t.buf % 64 == 0) || leb (length t.flash) (Header.address t.buf))) [
        | inl e ↦
            let same : handle_write t from ≡ refuse t Status.inv_param from =
              unfold handle_write in rw e in
            subst (λ r. Handles t r) (sym same) (refuse-Handles t Status.inv_param from h)
        | inr e ↦
            subst (λ r. Handles t r)
              (sym (handle_write_carried t from h.pages (ground arith) (ground arith)))
              (answers-Handles t from _ h
                (length-overwrite t.flash (Header.address t.buf) (take 64 (drop 16 t.buf))))
      ]

handle_read-Handles :
    (t : Target) (from : Address)
    → IsSound t
    → length t.flash < 2 ^ 32
    → Header.address t.buf + Header.length t.buf < 2 ^ 32
    → Handles t (handle_read t from)
handle_read-Handles t from h k w =
    elim (Bool-cases (
      ltb (length t.flash) (u32 (Header.address t.buf + Header.length t.buf))
      || ltb 1496 (Header.length t.buf))) [
        | inl e ↦
            let same : handle_read t from ≡ refuse t Status.inv_param from =
              unfold handle_read in rw e in
            subst (λ r. Handles t r) (sym same) (refuse-Handles t Status.inv_param from h)
        | inr e ↦
            subst (λ r. Handles t r)
              (sym (handle_read_carried t from (ground arith) k (ground arith)))
              (read_state-Handles t from h)
      ]

handle-Handles :
    (t : Target) (from : Address) (op : ℕ)
    → IsSound t
    → length t.flash < 2 ^ 32
    → Header.address t.buf + Header.length t.buf < 2 ^ 32
    → Handles t (handle t from op)
unfolding handle
handle-Handles t from op h k w = elim (Bool-cases ((op == Op.discover) || (op == Op.net_config))) [
  | inl e ↦ rw e (handle_discover-Handles t from h)
  | inr e ↦ elim (Bool-cases (op == Op.erase)) [
    | inl a ↦ rw (e, a) (handle_erase-Handles t from h)
    | inr a ↦ elim (Bool-cases (op == Op.write)) [
      | inl b ↦ rw (e, a, b) (handle_write-Handles t from h)
      | inr b ↦ elim (Bool-cases (op == Op.read)) [
        | inl c ↦ rw (e, a, b, c) (handle_read-Handles t from h k w)
        | inr c ↦ rw (e, a, b, c) (refuse-Handles t Status.inv_op from h)
      ]
    ]
  ]
]

accept-Handles :
    (t : Target) (from : Address)
    → IsSound t
    → length t.flash < 2 ^ 32
    → Header.address t.buf + Header.length t.buf < 2 ^ 32
    → Handles t (accept t from)
unfolding accept
accept-Handles t from h k w =
    let op = Header.operation t.buf in
    elim (Bool-cases (not (is_discovery op) && (Header.seq t.buf == t.last_seq))) [
      | inl e ↦ rw e (quiet-Handles t t h refl)
      | inr e ↦
          elim (Bool-cases (not (is_discovery op) && not (same_address from t.programmer_addr))) [
            | inl a ↦ rw (e, a) (refuse-Handles t Status.inv_src from h)
            | inr a ↦
                rw (e, a)
                  (handled t (record t { last_seq = Header.seq t.buf }) refl
                    (handle-Handles (record t { last_seq = Header.seq t.buf }) from op
                      (record { buffer = h.buffer; pages = h.pages }) k w))
          ]
    ]

-- The fields of the header of a datagram that is not too short are those of the buffer.
module _ (buf datagram : List ℕ) (h : length datagram ≤ length buf) (k : 10 ≤ length datagram) where
  same_cell : (i : ℕ) → i < 10 → get_or (overwrite buf 0 datagram) i 0 ≡ get_or datagram i 0
  same_cell i l = get_or-overwrite_start buf datagram i h (omega arith)

  pub address-overwrite : Header.address (overwrite buf 0 datagram) ≡ Header.address datagram
  unfolding Header.address be32_at host32_at
  address-overwrite = rw (
    same_cell 4 (omega arith),
    same_cell 5 (omega arith),
    same_cell 6 (omega arith),
    same_cell 7 (omega arith),
  )

  pub length-overwrite_header : Header.length (overwrite buf 0 datagram) ≡ Header.length datagram
  unfolding Header.length be16_at host16_at
  length-overwrite_header = rw (same_cell 8 (omega arith), same_cell 9 (omega arith))

-- A datagram that fits the buffer is handled without a fault: the step returns a next state, at
-- most two replies, a buffer of 1500 bytes and a flash of the same size as before. The conditions
-- are a flash of whole pages below 4 GB, and that the address and the length in the datagram's
-- header have a sum below 2 ^ 32.
pub step-Handles :
    (t : Target) (datagram : List ℕ) (from : Address)
    → IsSound t
    → length t.flash < 2 ^ 32
    → length datagram ≤ 1500
    → Header.address datagram + Header.length datagram < 2 ^ 32
    → Handles t (step t datagram from)
unfolding step
step-Handles t datagram from h k l w =
    let t' = record t { buf = overwrite t.buf 0 datagram } in
    let s : IsSound t' = record {
      buffer = length-overwrite t.buf 0 datagram ∙ h.buffer;
      pages = h.pages;
    } in
    let fits : ltb 1500 (length datagram) ≡ false = ground arith in
    let room : length datagram ≤ length t.buf = omega (arith, h.buffer) in
    elim (Bool-cases (ltb (length datagram) 10)) [
      | inl e ↦ rw (fits, e) (quiet-Handles t t' s refl)
      | inr e ↦ elim (Bool-cases (not (Header.version t'.buf == 1))) [
        | inl a ↦ rw (fits, e, a) (quiet-Handles t t' s refl)
        | inr a ↦ elim (Bool-cases (not (Header.status t'.buf == 0))) [
          | inl b ↦ rw (fits, e, a, b) (quiet-Handles t t' s refl)
          | inr b ↦
              let long : 10 ≤ length datagram = ground arith in
              let w' : Header.address t'.buf + Header.length t'.buf < 2 ^ 32 =
                rw
                  (
                    address-overwrite t.buf datagram room long,
                    length-overwrite_header t.buf datagram room long,
                  )
                  w in
              rw (fits, e, a, b) (handled t t' refl (accept-Handles t' from s k w'))
        ]
      ]
    ]
