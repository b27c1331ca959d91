-- ===== src/System/Replies.antt =====
-- Replies as bytes: what the device writes over a request, and what of it the programmer checks.
use programmer.Prelude.{
  get_or-set_other, ℕ, ◌≤◌, ◌≡◌, refl, ◌∙◌, inl, List, length, take, overwrite, get_or-set,
  get_or-take, arith,
}
use programmer.Protocol.Header
use programmer.Protocol.Status
use programmer.Protocol.Fields.{get_or-overwrite_ne}
use programmer.System.Asks.{Asks}

-- A frame that starts with a reply to a request.
pub record IsReply (bytes : List ℕ) (s op st : ℕ) : Type 0 where
  pub version : Header.version bytes ≡ 1
  pub seq : Header.seq bytes ≡ s
  pub operation : Header.operation bytes ≡ op
  pub status : Header.status bytes ≡ st

pub request-IsReply :
    (buf : List ℕ) {s op a n : ℕ} → Asks buf s op a n → IsReply buf s op Status.request
request-IsReply buf h = record {
  version = h.version;
  seq = h.seq;
  operation = h.operation;
  status = h.status;
}

-- The device turns the request in its buffer into the reply.
pub set_status-IsReply :
    (buf : List ℕ) {s op old : ℕ} (st : ℕ)
    → 4 ≤ length buf
    → IsReply buf s op old
    → IsReply (Header.set_status buf st) s op st
unfolding Header.set_status Header.version Header.seq Header.operation Header.status
set_status-IsReply buf st l h = record {
  version = get_or-set_other buf 3 0 st 0 (omega arith) ∙ h.version;
  seq = get_or-set_other buf 3 1 st 0 (omega arith) ∙ h.seq;
  operation = get_or-set_other buf 3 2 st 0 (omega arith) ∙ h.operation;
  status = get_or-set buf 3 3 st 0 (omega arith) refl;
}

pub take-IsReply :
    (k : ℕ) (buf : List ℕ) {s op st : ℕ}
    → 4 ≤ k
    → IsReply buf s op st
    → IsReply (take k buf) s op st
unfolding Header.version Header.seq Header.operation Header.status
take-IsReply k buf l h = record {
  version = get_or-take k buf 0 0 (omega arith) ∙ h.version;
  seq = get_or-take k buf 1 0 (omega arith) ∙ h.seq;
  operation = get_or-take k buf 2 0 (omega arith) ∙ h.operation;
  status = get_or-take k buf 3 0 (omega arith) ∙ h.status;
}

pub payload-IsReply :
    (buf : List ℕ) (j : ℕ) (bytes : List ℕ) {s op st : ℕ}
    → 4 ≤ j
    → IsReply buf s op st
    → IsReply (overwrite buf j bytes) s op st
unfolding Header.version Header.seq Header.operation Header.status
payload-IsReply buf j bytes l h = record {
  version = get_or-overwrite_ne buf j bytes 0 (inl (omega arith)) ∙ h.version;
  seq = get_or-overwrite_ne buf j bytes 1 (inl (omega arith)) ∙ h.seq;
  operation = get_or-overwrite_ne buf j bytes 2 (inl (omega arith)) ∙ h.operation;
  status = get_or-overwrite_ne buf j bytes 3 (inl (omega arith)) ∙ h.status;
}
