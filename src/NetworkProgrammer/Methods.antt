-- ===== src/NetworkProgrammer/Methods.antt =====
-- What each method of the network programmer keeps of the transmit buffer.
use programmer.Prelude.{
  ℕ, ◌≡◌, refl, ◌∙◌, List, length, set, length-set, get_or-set, get_or-set_ne, Bool-cases, inl, inr,
  ltb, arith,
}
use programmer.Protocol.{set_be32, set_be16}
use programmer.Protocol.Header
use programmer.NetworkProgrammer.{
  NetworkProgrammer, transmit, select_operation, prepare_payload, set_address, fill_config,
  fill_write, discover_device, configure_device, connect_device, read, write, erase, reset,
  checksum, create,
}
use programmer.NetworkProgrammer.Buffer.{fresh_tx}
use programmer.NetworkProgrammer.Frames.{
  IsRequest, set-IsRequest, overwrite-IsRequest, set_operation-IsRequest,
}
use programmer.NetworkProgrammer.Keeps.{IsKept}
use programmer.NetworkProgrammer.EveryMethod.{methods-kept}

pub select_operation-IsRequest :
    (p : NetworkProgrammer) (op address length : ℕ)
    → IsRequest p.tx
    → IsRequest (select_operation op address length p).tx
unfolding select_operation Header.set_address Header.set_length set_be32 set_be16
select_operation-IsRequest p op address length h =
    overwrite-IsRequest 8 _ (omega arith)
      (overwrite-IsRequest 4 _ (omega arith) (set_operation-IsRequest op h))

fill_write-IsRequest :
    (address : ℕ) (buffer : List ℕ) (p : NetworkProgrammer)
    → IsRequest p.tx
    → IsRequest (fill_write address buffer p).0.tx
unfolding fill_write set_be32
fill_write-IsRequest address buffer p h = elim (Bool-cases (ltb (length buffer) 64)) [
  | inl e ↦ rw e h
  | inr e ↦ rw e (overwrite-IsRequest 14 _ (omega arith) (overwrite-IsRequest 10 _ (omega arith) h))
]

abbrev pub Holds : NetworkProgrammer → Type 0
Holds p = IsRequest p.tx

-- The steps of the methods keep the request.
pub request-IsKept : IsKept Holds Holds (λ buffer. Unit {0})
unfolding prepare_payload fill_config set_address transmit Header.set_seq
request-IsKept = record {
  weaken = λ p h. h;
  select = λ op a n p o h. select_operation-IsRequest p op a n h;
  prepare = λ op n p o l h. set_operation-IsRequest op h;
  config =
      λ ip p h. overwrite-IsRequest 10 _ (omega arith) (overwrite-IsRequest 16 _ (omega arith) h);
  fill = λ a b p d h. fill_write-IsRequest a b p h;
  address = λ ip port p h. h;
  transmits = λ p h. set-IsRequest 1 _ (omega arith) (omega arith) h;
  receives = λ rx from p h. h;
  counts = λ n p h. h;
  waits = λ es p h. h;
  answers = λ to p h. h;
  ends = λ p h. h;
  informs = λ b p h. h;
  finds = λ d p h. h;
}

-- The transmit buffer of a new programmer is a request of 128 bytes: it has version 1 and
-- STATUS_REQUEST. The memory that it is made of has 128 bytes.
pub create-IsRequest :
    (garbage : NetworkProgrammer) → length garbage.tx ≡ 128 → IsRequest (create garbage).tx
unfolding create fresh_tx Header.set_status Header.set_version Header.version Header.status
create-IsRequest garbage h = record {
  size = length-set (set garbage.tx 0 1) 3 0 ∙ length-set garbage.tx 0 1 ∙ h;
  version =
      get_or-set_ne (set garbage.tx 0 1) 3 0 0 0 (λ e. absurd (omega (arith, e)))
      ∙ get_or-set garbage.tx 0 0 1 0 (omega (arith, h)) refl;
  status =
      get_or-set (set garbage.tx 0 1) 3 3 0 0 (omega (arith, h, length-set garbage.tx 0 1)) refl;
}

-- Each method of the network programmer keeps the transmit buffer a request: 128 bytes, version 1
-- and STATUS_REQUEST, whatever arrives and however the method ends.
pub methods-IsRequest :
    (address size ip port : ℕ) (buffer : List ℕ) (p : NetworkProgrammer)
    → IsRequest p.tx
    → IsRequest (read address size p).0.tx
      × IsRequest (write address buffer p).0.tx
      × IsRequest (erase address p).0.tx
      × IsRequest (reset p).0.tx
      × IsRequest (checksum address size p).0.tx
      × IsRequest (discover_device port p).0.tx
      × IsRequest (connect_device ip port p).0.tx
      × IsRequest (configure_device ip port p).0.tx
methods-IsRequest address size ip port buffer p h =
    methods-kept Holds Holds (λ buffer. Unit {0}) request-IsKept address size ip port buffer p tt h
