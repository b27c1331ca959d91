-- ===== src/NetworkProgrammer/Keeps.antt =====
-- What every method of the network programmer keeps: a property of its state that holds between two
-- calls, and one that holds while a request is in the transmit buffer.
use programmer.Prelude.{
  false, ℕ, zero, suc, ◌-◌, ◌^◌, ◌≤◌, ◌<◌, Bool, List, [], ◌∷◌, length, overwrite, Option,
  Bool-cases, inl, inr, ltb,
}
use programmer.Exceptions.{Result, ok, throws, fault}
use programmer.Network.{Address}
use programmer.DeviceDescriptor.{DeviceDescriptor}
use programmer.NetworkProgrammer.{
  NetworkProgrammer, BootloaderInfo, Action, Event, frame, would_block, deadline, resume, transmit,
  accept_frame, process, process_nothing, after_frame, listen, attempts, communicate,
  select_operation, prepare_payload, set_address, fill_config, fill_write,
}
use programmer.NetworkProgrammer.Process.{Reaction, ignore, extend_time, done}

-- The steps that the methods are made of, for buffers of `write` with the property `Data`.
pub record IsKept (P Q : NetworkProgrammer → Type 0) (Data : List ℕ → Type 0) : Type 0 where
  pub weaken : (p : NetworkProgrammer) → Q p → P p
  pub select :
      (op address size : ℕ) (p : NetworkProgrammer)
      → op < 256
      → P p
      → Q (select_operation op address size p)
  pub prepare :
      (op size : ℕ) (p : NetworkProgrammer)
      → op < 256
      → size ≤ 118
      → P p
      → Q (prepare_payload op size p)
  pub config : (ip : ℕ) (p : NetworkProgrammer) → Q p → Q (fill_config ip p)
  pub fill :
      (address : ℕ) (buffer : List ℕ) (p : NetworkProgrammer)
      → Data buffer
      → Q p
      → Q (fill_write address buffer p).0
  pub address : (ip port : ℕ) (p : NetworkProgrammer) → P p → P (set_address ip port p)
  pub transmits : (p : NetworkProgrammer) → Q p → Q (transmit p)
  pub receives :
      (rx : List ℕ) (from : Address) (p : NetworkProgrammer)
      → Q p
      → Q (record p { rx = rx; rx_address = from })
  pub counts : (size : ℕ) (p : NetworkProgrammer) → Q p → Q (record p { rx_size = size })
  pub waits : (es : List Event) (p : NetworkProgrammer) → Q p → Q (record p { events = es })
  pub answers :
      (to : Address) (p : NetworkProgrammer)
      → P p
      → P (record p { tx_address = to; broadcast = false })
  pub ends : (p : NetworkProgrammer) → P p → P (record p { broadcast = false })
  pub informs : (b : BootloaderInfo) (p : NetworkProgrammer) → P p → P (record p { bootloader = b })
  pub finds :
      (d : Option DeviceDescriptor) (p : NetworkProgrammer) → P p → P (record p { dev_desc = d })

-- A method that takes the state from one property to another.
abbrev pub Leads {ℓ} :
    {A : Type ℓ} → (NetworkProgrammer → Type 0) → (NetworkProgrammer → Type 0) → Action A → Type 0
Leads P Q method = (p : NetworkProgrammer) → P p → Q (method p).0

pub resume-Leads {ℓ κ} :
    {A : Type ℓ} {B : Type κ} (P Q : NetworkProgrammer → Type 0) (p : NetworkProgrammer)
    (r : Result A) (next : A → Action B)
    → ((p : NetworkProgrammer) → P p → Q p)
    → P p
    → ((a : A) → Leads P Q (next a))
    → Q (resume p r next).0
resume-Leads P Q p (ok a) next w h k = k a p h
resume-Leads P Q p (throws e) next w h k = w p h
resume-Leads P Q p (fault f) next w h k = w p h

module _ (P Q : NetworkProgrammer → Type 0) (Data : List ℕ → Type 0) (k : IsKept P Q Data) where
  accept_frame-Leads : (size : ℕ) → Leads Q Q (λ p. accept_frame p size)
  unfolding accept_frame
  accept_frame-Leads size p h = elim (Bool-cases (ltb size 4)) [
    | inl a ↦ rw a h
    | inr a ↦ elim (Bool-cases (ltb 1500 size)) [
      | inl b ↦ rw (a, b) h
      | inr b ↦ rw (a, b) (k.counts size p h)
    ]
  ]

  process-Leads : (bytes : List ℕ) (from : Address) → Leads Q Q (process bytes from)
  unfolding process
  process-Leads bytes from p h =
      let q = k.receives (overwrite p.rx 0 bytes) from p h in
      elim (Bool-cases (ltb 1500 (length bytes))) [
        | inl a ↦ rw a q
        | inr a ↦ rw a (accept_frame-Leads (length bytes) _ q)
      ]

  after_frame-kept :
      (es : List Event) (p : NetworkProgrammer) (r : Result Reaction)
      (rest : NetworkProgrammer × Result Bool)
      → Q p
      → Q rest.0
      → Q (after_frame es (p, r) rest).0
  unfolding after_frame
  after_frame-kept es p (ok ignore) rest h i = i
  after_frame-kept es p (ok extend_time) rest h i = i
  after_frame-kept es p (ok done) rest h i = k.waits es p h
  after_frame-kept es p (throws e) rest h i = k.waits es p h
  after_frame-kept es p (fault f) rest h i = k.waits es p h

  listen-Leads : (es : List Event) → Leads Q Q (listen es)
  unfolding listen
  listen-Leads [] p h = k.waits [] p h
  listen-Leads (deadline ∷ es) p h = k.waits es p h
  listen-Leads (would_block ∷ es) p h =
      let q : Q (process_nothing p).0 =
        unfold process_nothing in accept_frame-Leads (2 ^ 64 - 1) p h in
      after_frame-kept es (process_nothing p).0 (process_nothing p).1 _ q
        (listen-Leads es (process_nothing p).0 q)
  listen-Leads (frame bytes from ∷ es) p h =
      let q = process-Leads bytes from p h in
      after_frame-kept es (process bytes from p).0 (process bytes from p).1 _ q
        (listen-Leads es (process bytes from p).0 q)

  attempts-Leads : (n : ℕ) → Leads Q Q (attempts n)
  unfolding attempts
  attempts-Leads zero p h = h
  attempts-Leads (suc n) p h =
      resume-Leads Q Q _ (listen (transmit p).events (transmit p)).1 _ (λ q i. i)
        (listen-Leads (transmit p).events (transmit p) (k.transmits p h))
        (λ received q i. elim (Bool-cases received) [
          | inl e ↦ rw e i
          | inr e ↦ rw e (attempts-Leads n q i)
        ])

  pub communicate-Leads : Leads Q Q communicate
  unfolding communicate
  communicate-Leads p h = attempts-Leads 3 p h
