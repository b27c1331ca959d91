-- ===== src/NetworkProgrammer/Frames.antt =====
-- A request in the transmit buffer.
use programmer.Prelude.{
  ℕ, ◌≤◌, ◌≡◌, ◌≢◌, ◌∙◌, List, length, set, overwrite, get_or-set_ne, length-set, length-overwrite,
  arith, inl,
}
use programmer.Protocol.Header
use programmer.Protocol.Status
use programmer.Protocol.Fields.{get_or-overwrite_ne}

-- A transmit buffer of the right size, version and status.
pub record IsRequest (tx : List ℕ) : Type 0 where
  pub size : length tx ≡ 128
  pub version : Header.version tx ≡ 1
  pub status : Header.status tx ≡ Status.request

pub set-IsRequest : {tx : List ℕ} (j v : ℕ) → j ≢ 0 → j ≢ 3 → IsRequest tx → IsRequest (set tx j v)
unfolding Header.version Header.status
set-IsRequest {tx} j v z t h = record {
  size = length-set tx j v ∙ h.size;
  version = get_or-set_ne tx j 0 v 0 z ∙ h.version;
  status = get_or-set_ne tx j 3 v 0 t ∙ h.status;
}

pub overwrite-IsRequest :
    {tx : List ℕ} (j : ℕ) (bs : List ℕ) → 4 ≤ j → IsRequest tx → IsRequest (overwrite tx j bs)
unfolding Header.version Header.status
overwrite-IsRequest {tx} j bs l h = record {
  size = length-overwrite tx j bs ∙ h.size;
  version = get_or-overwrite_ne tx j bs 0 (inl (omega arith)) ∙ h.version;
  status = get_or-overwrite_ne tx j bs 3 (inl (omega arith)) ∙ h.status;
}

pub set_operation-IsRequest :
    {tx : List ℕ} (op : ℕ) → IsRequest tx → IsRequest (Header.set_operation tx op)
unfolding Header.set_operation
set_operation-IsRequest op h = set-IsRequest 2 op (omega arith) (omega arith) h
