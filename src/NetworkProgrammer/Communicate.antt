-- ===== src/NetworkProgrammer/Communicate.antt =====
-- `communicate`: it sends the request at most three times and ends with an answer or an exception.
use mathlib.Core.List.{append-nil, append_assoc}
use programmer.Prelude.{
  ℕ, zero, suc, ◌+◌, ◌≤◌, ◌≡◌, refl, sym, ap, subst, ◌∙◌, Bool, true, false, List, [], ◌∷◌, ◌++◌,
  length, take, min, overwrite, u8, ltb, arith, Bool-cases, ◌⊎◌, inl, inr, All,
}
use programmer.Exceptions.{Result, ok, throws, Thrown}
use programmer.Network.{Address}
use programmer.Protocol.Header
use programmer.NetworkProgrammer.{
  NetworkProgrammer, Event, frame, would_block, deadline, transmit, accept_frame, process,
  after_frame, listen, attempts, communicate,
}
use programmer.NetworkProgrammer.Process.{Reaction}
use programmer.NetworkProgrammer.Verdict.{IsAnswer, Verdict, classify-Verdict}

-- What receiving leaves as it is.
pub record Keeps (p q : NetworkProgrammer) : Type 0 where
  pub tx : q.tx ≡ p.tx
  pub tx_size : q.tx_size ≡ p.tx_size
  pub tx_address : q.tx_address ≡ p.tx_address
  pub sent : q.sent ≡ p.sent

-- An event other than a recvfrom that would block.
abbrev pub arrives : Event → Bool
arrives (frame bytes from) = true
arrives would_block = false
arrives deadline = true

received-Keeps :
    (p : NetworkProgrammer) (rx : List ℕ) (from : Address) (size : ℕ)
    → Keeps p (record p { rx = rx; rx_address = from; rx_size = size })
received-Keeps p rx from size = record { tx = refl; tx_size = refl; tx_address = refl; sent = refl }

process-Keeps :
    (bytes : List ℕ) (from : Address) (p : NetworkProgrammer)
    → Keeps p (process bytes from p).0
      × Verdict p.tx (process bytes from p).0.rx (process bytes from p).1
unfolding process accept_frame
process-Keeps bytes from p =
    let rx = overwrite p.rx 0 bytes in
    elim (Bool-cases (ltb 1500 (length bytes))) [
      | inl a ↦ rw a (received-Keeps p rx from p.rx_size, inr (inr (inr (_, refl))))
      | inr a ↦ elim (Bool-cases (ltb (length bytes) 4)) [
        | inl b ↦ rw (a, b) (received-Keeps p rx from p.rx_size, inr (inr (inr (_, refl))))
        | inr b ↦ rw (a, b) (received-Keeps p rx from (length bytes), classify-Verdict p.tx rx)
      ]
    ]

-- A wait: an answer has come, or the deadline, or an exception.
pub record Hears (p : NetworkProgrammer) (r : NetworkProgrammer × Result Bool) : Type 0 where
  pub keeps : Keeps p r.0
  pub rest : All (λ e. arrives e ≡ true) r.0.events
  pub outcome :
      ((r.1 ≡ ok true) × IsAnswer p.tx r.0.rx)
      ⊎ ((r.1 ≡ ok false) ⊎ ((e : Thrown) × (r.1 ≡ throws e)))

kept : (p : NetworkProgrammer) {es : List Event} → Keeps p (record p { events = es })
kept p = record { tx = refl; tx_size = refl; tx_address = refl; sent = refl }

-- The events left are no matter.
stay :
    {p : NetworkProgrammer} (q : NetworkProgrammer) {es : List Event}
    → Keeps p q
    → Keeps p (record q { events = es })
stay q k = record { tx = k.tx; tx_size = k.tx_size; tx_address = k.tx_address; sent = k.sent }

later :
    {p q : NetworkProgrammer} {r : NetworkProgrammer × Result Bool}
    → Keeps p q
    → Hears q r
    → Hears p r
later {p} {q} {r} k s = record {
  keeps = record {
    tx = s.keeps.tx ∙ k.tx;
    tx_size = s.keeps.tx_size ∙ k.tx_size;
    tx_address = s.keeps.tx_address ∙ k.tx_address;
    sent = s.keeps.sent ∙ k.sent;
  };
  rest = s.rest;
  outcome =
      subst
        (λ tx.
          ((r.1 ≡ ok true) × IsAnswer tx r.0.rx)
          ⊎ ((r.1 ≡ ok false) ⊎ ((e : Thrown) × (r.1 ≡ throws e))))
        k.tx s.outcome;
}

after_frame-Hears :
    (es : List Event) (p q : NetworkProgrammer) (v : Result Reaction)
    (rest : NetworkProgrammer × Result Bool)
    → All (λ e. arrives e ≡ true) es
    → Keeps p q
    → Verdict p.tx q.rx v
    → Hears q rest
    → Hears p (after_frame es (q, v) rest)
unfolding after_frame
after_frame-Hears es p q v rest h k (inl (e, answer)) s =
    rw e (record { keeps = stay q k; rest = h; outcome = inl (refl, answer) })
after_frame-Hears es p q v rest h k (inr (inl e)) s = rw e (later k s)
after_frame-Hears es p q v rest h k (inr (inr (inl e))) s = rw e (later k s)
after_frame-Hears es p q v rest h k (inr (inr (inr (x, e)))) s =
    rw e (record { keeps = stay q k; rest = h; outcome = inr (inr (x, refl)) })

listen-Hears :
    (es : List Event) (p : NetworkProgrammer)
    → All (λ e. arrives e ≡ true) es
    → Hears p (listen es p)
unfolding listen
listen-Hears [] p h = record { keeps = kept p; rest = tt; outcome = inr (inl refl) }
listen-Hears (deadline ∷ es) p h = record { keeps = kept p; rest = h.1; outcome = inr (inl refl) }
listen-Hears (would_block ∷ es) p h = absurd (ground arith)
listen-Hears (frame bytes from ∷ es) p h =
    let received = process-Keeps bytes from p in
    let q = (process bytes from p).0 in
    after_frame-Hears es p q (process bytes from p).1 (listen es q) h.1 received.0 received.1
      (listen-Hears es q h.1)

-- `seq++` on a uint8_t.
abbrev pub bump : List ℕ → List ℕ
bump tx = Header.set_seq tx (u8 (Header.seq tx + 1))

-- The transmit buffer after some frames, and the frames.
abbrev pub bumps : ℕ → List ℕ → List ℕ
bumps zero tx = tx
bumps (suc n) tx = bumps n (bump tx)

abbrev pub frames : ℕ → ℕ → List ℕ → List (List ℕ)
frames zero size tx = []
frames (suc n) size tx = take size (bump tx) ∷ frames n size (bump tx)

abbrev pub to : Address → List (List ℕ) → List (List ℕ × Address)
to address [] = []
to address (f ∷ fs) = (f, address) ∷ to address fs

-- A call that ended after it sent some frames, at most so many, each with the next sequence number
-- and otherwise the same; on success the receive buffer holds the answer to the last of them.
pub record Communicates (p : NetworkProgrammer) (most : ℕ)
    (r : NetworkProgrammer × Result (Unit {0})) : Type 0 where
  pub count : ℕ
  pub least : min 1 most ≤ count
  pub few : count ≤ most
  pub tx : r.0.tx ≡ bumps count p.tx
  pub sent : r.0.sent ≡ p.sent ++ to p.tx_address (frames count p.tx_size p.tx)
  pub outcome : ((r.1 ≡ ok tt) × (IsAnswer r.0.tx r.0.rx)) ⊎ ((e : Thrown) × (r.1 ≡ throws e))

-- A call after one frame and a wait.
again :
    (n : ℕ) (p q : NetworkProgrammer) (r : NetworkProgrammer × Result (Unit {0}))
    → Keeps (transmit p) q
    → Communicates q n r
    → Communicates p (suc n) r
unfolding transmit
again n p q r k s = record {
  count = suc s.count;
  least = omega arith;
  few = omega (arith, s.few);
  tx = s.tx ∙ ap (bumps s.count) k.tx;
  sent = s.sent ∙ rw (k.sent, k.tx_address, k.tx_size, k.tx) (append_assoc p.sent (_ ∷ []) _);
  outcome = s.outcome;
}

attempts-Communicates :
    (n : ℕ) (p : NetworkProgrammer)
    → All (λ e. arrives e ≡ true) p.events
    → Communicates p n (attempts n p)
unfolding attempts transmit
attempts-Communicates zero p h = record {
  count = 0;
  least = omega arith;
  few = omega arith;
  tx = refl;
  sent = sym (append-nil p.sent);
  outcome = inr (_, refl);
}
attempts-Communicates (suc n) p h =
    let p' = transmit p in
    let heard = listen-Hears p.events p' h in
    elim heard.outcome [
      | inl (e, a) ↦ rw e (record {
        count = 1;
        least = omega arith;
        few = omega arith;
        tx = heard.keeps.tx;
        sent = heard.keeps.sent;
        outcome =
            inl (refl, subst (λ tx. IsAnswer tx (listen p.events p').0.rx) (sym heard.keeps.tx) a);
      })
      | inr (inl e) ↦ rw e (
          again n p (listen p.events p').0 _ heard.keeps
            (attempts-Communicates n (listen p.events p').0 heard.rest))
      | inr (inr (x, e)) ↦ rw e (record {
        count = 1;
        least = omega arith;
        few = omega arith;
        tx = heard.keeps.tx;
        sent = heard.keeps.sent;
        outcome = inr (x, refl);
      })
    ]

-- A call sends the request at least once and at most three times, to the same address, each time
-- with the next sequence number and otherwise unchanged. It returns with an answer in the receive
-- buffer (a frame of version 1 with the sequence number and the operation of the last request and
-- STATUS_OK), or throws, and has no fault, when no recvfrom would block.
pub communicate-Communicates :
    (p : NetworkProgrammer)
    → All (λ e. arrives e ≡ true) p.events
    → Communicates p 3 (communicate p)
unfolding communicate
communicate-Communicates p h = attempts-Communicates 3 p h
