-- ===== src/NetworkProgrammer/Wire.antt =====
-- What the network programmer sends, whatever arrives and however its methods end.
use programmer.Prelude.{
  ℕ, zero, suc, ◌+◌, ◌≤◌, ◌≡◌, ◌∙◌, List, [], ◌∷◌, ◌++◌, length, take, set, overwrite, All,
  length-take, get_or-take, u8, ltb, Bool-cases, inl, inr, IsByte, arith,
}
use programmer.Network.{Address}
use programmer.Protocol.{set_be32, set_be16, host16, host32, byteswap16, byteswap32}
use programmer.Protocol.Header
use programmer.Protocol.Status
use programmer.NetworkProgrammer.{
  NetworkProgrammer, transmit, select_operation, prepare_payload, set_address, fill_config,
  fill_write, read, write, erase, reset, checksum, discover_device, connect_device,
  configure_device,
}
use programmer.NetworkProgrammer.Frames.{IsRequest}
use programmer.NetworkProgrammer.Keeps.{IsKept}
use programmer.NetworkProgrammer.EveryMethod.{methods-kept}
use programmer.NetworkProgrammer.Methods.{request-IsKept}

All-set : (P : ℕ → Type 0) (xs : List ℕ) (i v : ℕ) → P v → All P xs → All P (set xs i v)
All-set P [] i v h a = a
All-set P (x ∷ xs) zero v h a = (h, a.1)
All-set P (x ∷ xs) (suc i) v h a = (a.0, All-set P xs i v h a.1)

All-overwrite :
    (P : ℕ → Type 0) (xs : List ℕ) (i : ℕ) (ys : List ℕ)
    → All P ys
    → All P xs
    → All P (overwrite xs i ys)
All-overwrite P [] i ys h a = a
All-overwrite P (x ∷ xs) zero [] h a = a
All-overwrite P (x ∷ xs) zero (y ∷ ys) h a = (h.0, All-overwrite P xs zero ys h.1 a.1)
All-overwrite P (x ∷ xs) (suc i) ys h a = (a.0, All-overwrite P xs i ys h a.1)

All-take : (P : ℕ → Type 0) (n : ℕ) (xs : List ℕ) → All P xs → All P (take n xs)
All-take P zero xs a = tt
All-take P (suc n) [] a = tt
All-take P (suc n) (x ∷ xs) a = (a.0, All-take P n xs a.1)

All-append : {A : Type 0} (P : A → Type 0) (xs ys : List A) → All P xs → All P ys → All P (xs ++ ys)
All-append P [] ys a b = b
All-append P (x ∷ xs) ys a b = (a.0, All-append P xs ys a.1 b)

host16-bytes : (v : ℕ) → All IsByte (host16 v)
unfolding host16
host16-bytes v = omega arith

host32-bytes : (v : ℕ) → All IsByte (host32 v)
unfolding host32
host32-bytes v = omega arith

-- A datagram that a device can take for a request.
pub record IsDatagram (bytes : List ℕ) : Type 0 where
  pub least : 10 ≤ length bytes
  pub most : length bytes ≤ 128
  pub octets : All IsByte bytes
  pub version : Header.version bytes ≡ 1
  pub status : Header.status bytes ≡ Status.request

-- The transmit buffer and what has been sent, between two calls, and while a request of a size is in
-- the buffer.
pub record Ready (tx : List ℕ) (sent : List (List ℕ × Address)) : Type 0 where
  pub request : IsRequest tx
  pub octets : All IsByte tx
  pub datagrams : All (λ d. IsDatagram d.0) sent

record Loaded (tx : List ℕ) (sent : List (List ℕ × Address)) (size : ℕ) : Type 0 where
  ready : Ready tx sent
  least : 10 ≤ size
  most : size ≤ 128

abbrev pub IsReady : NetworkProgrammer → Type 0
IsReady p = Ready p.tx p.sent

abbrev IsLoaded : NetworkProgrammer → Type 0
IsLoaded p = Loaded p.tx p.sent p.tx_size

transmit-IsLoaded : (p : NetworkProgrammer) → IsLoaded p → IsLoaded (transmit p)
unfolding transmit Header.set_seq Header.version Header.status
transmit-IsLoaded p h =
    let tx' = set p.tx 1 (u8 (Header.seq p.tx + 1)) in
    let request = request-IsKept.transmits p h.ready.request in
    let octets = All-set IsByte p.tx 1 (u8 (Header.seq p.tx + 1)) (omega arith) h.ready.octets in
    let size : length (take p.tx_size tx') ≡ p.tx_size =
      omega (arith, length-take p.tx_size tx', request.size, h.most) in
    record {
      ready = record {
        request = request;
        octets = octets;
        datagrams =
            All-append (λ d. IsDatagram d.0) p.sent ((take p.tx_size tx', p.tx_address) ∷ [])
              h.ready.datagrams
              (
                record {
                  least = omega (arith, size, h.least);
                  most = omega (arith, size, h.most);
                  octets = All-take IsByte p.tx_size tx' octets;
                  version =
                      get_or-take p.tx_size tx' 0 0 (omega (arith, h.least)) ∙ request.version;
                  status = get_or-take p.tx_size tx' 3 0 (omega (arith, h.least)) ∙ request.status;
                },
                tt,
              );
      };
      least = h.least;
      most = h.most;
    }

fill_write-octets :
    (address : ℕ) (buffer : List ℕ) (p : NetworkProgrammer)
    → All IsByte buffer
    → IsLoaded p
    → IsLoaded (fill_write address buffer p).0
unfolding fill_write set_be32
fill_write-octets address buffer p d h =
    let request = request-IsKept.fill address buffer p tt h.ready.request in
    elim (Bool-cases (ltb (length buffer) 64)) [
      | inl e ↦ rw e h
      | inr e ↦
          let request' = rw e at request in
          rw e (record {
            ready = record {
              request = request';
              octets = All-overwrite IsByte _ 14 (take 64 buffer) (All-take IsByte 64 buffer d) (
                  All-overwrite IsByte p.tx 10 (host32 (byteswap32 address))
                    (host32-bytes (byteswap32 address)) h.ready.octets);
              datagrams = h.ready.datagrams;
            };
            least = h.least;
            most = h.most;
          })
    ]

wire-IsKept : IsKept IsReady IsLoaded (All IsByte)
unfolding select_operation prepare_payload set_address fill_config Header.set_operation
    Header.set_address Header.set_length set_be32 set_be16
wire-IsKept = record {
  weaken = λ p h. h.ready;
  select = λ op a n p o h. record {
    ready = record {
      request = request-IsKept.select op a n p o h.request;
      octets = All-overwrite IsByte _ 8 (host16 (byteswap16 n)) (host16-bytes (byteswap16 n)) (
          All-overwrite IsByte _ 4 (host32 (byteswap32 a)) (host32-bytes (byteswap32 a))
            (All-set IsByte p.tx 2 op o h.octets));
      datagrams = h.datagrams;
    };
    least = omega arith;
    most = omega arith;
  };
  prepare = λ op n p o l h. record {
    ready = record {
      request = request-IsKept.prepare op n p o l h.request;
      octets = All-set IsByte p.tx 2 op o h.octets;
      datagrams = h.datagrams;
    };
    least = omega arith;
    most = omega (arith, l);
  };
  config = λ ip p h. record {
    ready = record {
      request = request-IsKept.config ip p h.ready.request;
      octets =
          All-overwrite IsByte _ 10 _ (omega arith)
            (All-overwrite IsByte p.tx 16 (host32 ip) (host32-bytes ip) h.ready.octets);
      datagrams = h.ready.datagrams;
    };
    least = h.least;
    most = h.most;
  };
  fill = fill_write-octets;
  address = λ ip port p h. h;
  transmits = transmit-IsLoaded;
  receives = λ rx from p h. h;
  counts = λ n p h. h;
  waits = λ es p h. h;
  answers = λ to p h. h;
  ends = λ p h. h;
  informs = λ b p h. h;
  finds = λ d p h. h;
}

-- Every datagram that any method of the network programmer sends is one that a device can take for a request,
-- whatever arrives and however the method ends: it has 10 to 128 octets, all below 256, version 1
-- and STATUS_REQUEST; and the transmit buffer stays ready for the next. It is ready at the start, what
-- was sent before is such datagrams, and the bytes to write are octets.
pub methods-IsReady :
    (address size ip port : ℕ) (buffer : List ℕ) (p : NetworkProgrammer)
    → All IsByte buffer
    → IsReady p
    → IsReady (read address size p).0
      × IsReady (write address buffer p).0
      × IsReady (erase address p).0
      × IsReady (reset p).0
      × IsReady (checksum address size p).0
      × IsReady (discover_device port p).0
      × IsReady (connect_device ip port p).0
      × IsReady (configure_device ip port p).0
methods-IsReady address size ip port buffer p =
    methods-kept IsReady IsLoaded (All IsByte) wire-IsKept address size ip port buffer p
