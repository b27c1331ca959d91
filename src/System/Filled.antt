-- ===== src/System/Filled.antt =====
-- The request of `write` in the transmit buffer, and the cells of it.
use programmer.Prelude.{
  get_or-set_other, ◌⊎◌, ℕ, ◌+◌, ◌≤◌, ◌<◌, ◌≡◌, refl, ap, ◌∙◌, inl, List, length, take, get_or, set,
  overwrite, get_or-set, get_or-take, length-set, length-take, length-overwrite, u8, arith,
}
use programmer.Protocol.{be16_at, host16_at, host32, byteswap32, set_be32}
use programmer.Protocol.Header
use programmer.Protocol.Op
use programmer.Protocol.Fields.{get_or-overwrite, get_or-overwrite_ne}
use programmer.NetworkProgrammer.Communicate.{bump}
use programmer.NetworkProgrammer.Requests.{address_same}
use programmer.NetworkProgrammer.Frames.{IsRequest}
use programmer.System.Asks.{Asks}

-- The transmit buffer with a write in it.
abbrev pub filled : ℕ → List ℕ → List ℕ → List ℕ
filled address buffer tx =
    overwrite (set_be32 (Header.set_operation tx Op.write) 10 address) 14 (take 64 buffer)

module _ (address : ℕ) (buffer tx : List ℕ) (h : IsRequest tx) where
  length-filled : length (filled address buffer tx) ≡ 128
  unfolding Header.set_operation set_be32
  length-filled =
      length-overwrite (set_be32 (set tx 2 3) 10 address) 14 (take 64 buffer)
      ∙ length-overwrite (set tx 2 3) 10 (host32 (byteswap32 address))
      ∙ length-set tx 2 3
      ∙ h.size

  -- The first ten bytes are those before, but for the operation.
  start_cell :
      (i : ℕ) → i < 10 → get_or (filled address buffer tx) i 0 ≡ get_or (set tx 2 Op.write) i 0
  unfolding Header.set_operation set_be32
  start_cell i l =
      get_or-overwrite_ne (set_be32 (set tx 2 3) 10 address) 14 (take 64 buffer) i
        (inl (omega arith))
      ∙ get_or-overwrite_ne (set tx 2 3) 10 (host32 (byteswap32 address)) i (inl l)

  kept_cell :
      (i : ℕ)
      → i < 10
      → (i < 1) ⊎ (2 < i)
      → get_or (bump (filled address buffer tx)) i 0 ≡ get_or tx i 0
  unfolding Header.set_seq
  kept_cell i l a =
      get_or-set_other (filled address buffer tx) 1 i _ 0 (ground (arith, a))
      ∙ start_cell i l
      ∙ get_or-set_other tx 2 i Op.write 0 (ground (arith, a))

  pub filled-IsRequest : IsRequest (bump (filled address buffer tx))
  unfolding Header.set_seq Header.version Header.status
  filled-IsRequest = record {
    size = length-set (filled address buffer tx) 1 _ ∙ length-filled;
    version = kept_cell 0 (omega arith) (omega arith) ∙ h.version;
    status = kept_cell 3 (omega arith) (omega arith) ∙ h.status;
  }

  -- The address and the length of the header are those of the request before.
  pub filled-Asks :
      Asks
        (bump (filled address buffer tx))
        (u8 (Header.seq tx + 1))
        Op.write
        (Header.address tx)
        (Header.length tx)
  unfolding Header.set_seq Header.seq Header.operation Header.length be16_at host16_at
  filled-Asks =
      let f = filled address buffer tx in
      let size = length-filled in
      record {
        version = filled-IsRequest.version;
        seq =
            get_or-set f 1 1 (u8 (Header.seq f + 1)) 0 (omega (arith, size)) refl
            ∙ ap (λ s. u8 (s + 1))
                (start_cell 1 (omega arith) ∙ get_or-set_other tx 2 1 Op.write 0 (omega arith));
        operation =
            get_or-set_other f 1 2 _ 0 (omega arith)
            ∙ start_cell 2 (omega arith)
            ∙ get_or-set tx 2 2 Op.write 0 (omega (arith, h.size)) refl;
        status = filled-IsRequest.status;
        address = address_same (bump f) tx (λ i l m. kept_cell i (omega arith) (omega arith));
        length =
            rw (kept_cell 8 (omega arith) (omega arith), kept_cell 9 (omega arith) (omega arith))
              refl;
      }

  -- The cells that the device stores are those of the buffer from the third on.
  pub payload_cell :
      (i : ℕ)
      → 64 ≤ length buffer
      → i < 62
      → get_or (bump (filled address buffer tx)) (16 + i) 0 ≡ get_or buffer (2 + i) 0
  unfolding Header.set_seq Header.set_operation set_be32
  payload_cell i l m =
      let block = set_be32 (set tx 2 3) 10 address in
      let size : length block ≡ 128 =
        length-overwrite (set tx 2 3) 10 (host32 (byteswap32 address))
        ∙ length-set tx 2 3
        ∙ h.size in
      get_or-set_other (filled address buffer tx) 1 (16 + i) _ 0 (omega arith)
      ∙ get_or-overwrite block 14 (take 64 buffer) (2 + i) (16 + i)
          (omega (arith, size, length-take 64 buffer)) (omega (arith, length-take 64 buffer))
          (omega arith)
      ∙ get_or-take 64 buffer (2 + i) 0 (omega arith)
