-- ===== src/System/Asks.antt =====
-- A request on its way: the header that `select_operation` writes is the one that arrives in the
-- device's buffer.
use programmer.Prelude.{
  get_or-set_other, ℕ, ◌+◌, ◌^◌, ◌≤◌, ◌<◌, ◌≡◌, refl, ap, ◌∙◌, List, length, take, get_or, set,
  overwrite, get_or-set, get_or-set_other, get_or-take, length-set, u8, arith, inl,
}
use programmer.Protocol.{
  be16_at, host16_at, host16, host32, byteswap16, byteswap32, set_be16, set_be32,
}
use programmer.Protocol.Header
use programmer.Protocol.Status
use programmer.Protocol.Fields.{
  get_or-overwrite_start, get_or-overwrite_ne, be32_at-set_be32, be16_at-set_be16,
}
use programmer.NetworkProgrammer.{NetworkProgrammer, select_operation}
use programmer.NetworkProgrammer.Communicate.{bump}
use programmer.NetworkProgrammer.Requests.{address_same, address-set, address-overwrite}
use programmer.NetworkProgrammer.Frames.{
  overwrite-IsRequest, set_operation-IsRequest, IsRequest, set-IsRequest,
}
use programmer.NetworkProgrammer.Methods.{select_operation-IsRequest}

-- A buffer that starts with a request.
pub record Asks (buf : List ℕ) (s op a n : ℕ) : Type 0 where
  pub version : Header.version buf ≡ 1
  pub seq : Header.seq buf ≡ s
  pub operation : Header.operation buf ≡ op
  pub status : Header.status buf ≡ Status.request
  pub address : Header.address buf ≡ a
  pub length : Header.length buf ≡ n

-- A request depends on its ten bytes.
pub same_start-Asks :
    (a b : List ℕ) {s op address n : ℕ}
    → ((i : ℕ) → i < 10 → get_or a i 0 ≡ get_or b i 0)
    → Asks b s op address n
    → Asks a s op address n
unfolding Header.version Header.seq Header.operation Header.status Header.length be16_at host16_at
same_start-Asks a b h k = record {
  version = h 0 (omega arith) ∙ k.version;
  seq = h 1 (omega arith) ∙ k.seq;
  operation = h 2 (omega arith) ∙ k.operation;
  status = h 3 (omega arith) ∙ k.status;
  address = address_same a b (λ i l m. h i (omega arith)) ∙ k.address;
  length = rw (h 8 (omega arith), h 9 (omega arith)) k.length;
}

pub take-Asks :
    (k : ℕ) (tx : List ℕ) {s op address n : ℕ}
    → 10 ≤ k
    → Asks tx s op address n
    → Asks (take k tx) s op address n
take-Asks k tx h = same_start-Asks (take k tx) tx (λ i l. get_or-take k tx i 0 (omega arith))

pub overwrite-Asks :
    (buf datagram : List ℕ) {s op address n : ℕ}
    → 10 ≤ length datagram
    → length datagram ≤ length buf
    → Asks datagram s op address n
    → Asks (overwrite buf 0 datagram) s op address n
overwrite-Asks buf datagram e h =
    same_start-Asks (overwrite buf 0 datagram) datagram
      (λ i l. get_or-overwrite_start buf datagram i h (omega arith))

module _ (p : NetworkProgrammer) (op address count : ℕ) (h : IsRequest p.tx) where
  abbrev pub asked : List ℕ
  asked = bump (select_operation op address count p).tx

  pub asked-IsRequest : IsRequest asked
  unfolding Header.set_seq
  asked-IsRequest =
      set-IsRequest 1 _ (omega arith) (omega arith)
        (select_operation-IsRequest p op address count h)

  -- The first four bytes are those before, but for the operation.
  start_cell :
      (i : ℕ)
      → i < 4
      → get_or (select_operation op address count p).tx i 0 ≡ get_or (set p.tx 2 op) i 0
  unfolding select_operation Header.set_operation Header.set_address Header.set_length set_be16
      set_be32
  start_cell i l =
      let first = set p.tx 2 op in
      let second = set_be32 first 4 address in
      get_or-overwrite_ne second 8 (host16 (byteswap16 count)) i (inl (omega arith))
      ∙ get_or-overwrite_ne first 4 (host32 (byteswap32 address)) i (inl (omega arith))

  address-asked : address < 2 ^ 32 → Header.address asked ≡ address
  unfolding Header.set_seq select_operation Header.set_operation Header.set_address
      Header.set_length set_be16 Header.address
  address-asked l =
      let first = set p.tx 2 op in
      let second = set_be32 first 4 address in
      let bytes = host16 (byteswap16 count) in
      address-set (overwrite second 8 bytes) 1 _ (omega arith)
      ∙ address-overwrite second 8 bytes (omega arith)
      ∙ (be32_at-set_be32 first 4 address (omega (arith, length-set p.tx 2 op, h.size)) l).0

  length-asked : count < 2 ^ 16 → Header.length asked ≡ count
  unfolding Header.set_seq select_operation Header.set_length Header.length be16_at host16_at
  length-asked l =
      let filled = Header.set_address (Header.set_operation p.tx op) address in
      let bytes = set_be16 filled 8 count in
      let size : length filled ≡ 128 =
        unfold Header.set_address in
        unfold set_be32 in
        (overwrite-IsRequest 4 (host32 (byteswap32 address)) (omega arith)
          (set_operation-IsRequest op h)).size in
      rw
        (
          get_or-set_other bytes 1 8 (u8 (Header.seq bytes + 1)) 0 (omega arith),
          get_or-set_other bytes 1 9 (u8 (Header.seq bytes + 1)) 0 (omega arith),
        )
        (be16_at-set_be16 filled 8 count (omega (arith, size)) l).0

  -- The request has the next sequence number, the operation, the address and the length.
  pub asked-Asks :
      address < 2 ^ 32 → count < 2 ^ 16 → Asks asked (u8 (Header.seq p.tx + 1)) op address count
  unfolding Header.set_seq Header.seq Header.operation
  asked-Asks a c =
      let filled = (select_operation op address count p).tx in
      let size : length filled ≡ 128 = (select_operation-IsRequest p op address count h).size in
      record {
        version = asked-IsRequest.version;
        seq =
            get_or-set filled 1 1 (u8 (Header.seq filled + 1)) 0 (omega (arith, size)) refl
            ∙ ap (λ s. u8 (s + 1))
                (start_cell 1 (omega arith) ∙ get_or-set_other p.tx 2 1 op 0 (omega arith));
        operation =
            get_or-set_other filled 1 2 (u8 (Header.seq filled + 1)) 0 (omega arith)
            ∙ start_cell 2 (omega arith)
            ∙ get_or-set p.tx 2 2 op 0 (omega (arith, h.size)) refl;
        status = asked-IsRequest.status;
        address = address-asked a;
        length = length-asked c;
      }
