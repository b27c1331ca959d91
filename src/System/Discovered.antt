-- ===== src/System/Discovered.antt =====
-- The reply of the device to a discovery, and what the programmer reads in it.
use programmer.Prelude.{
  ℕ, ◌+◌, ◌^◌, ◌≤◌, ◌<◌, ◌≡◌, refl, ◌∙◌, List, length, take, drop, get_or, set, overwrite,
  get_or-take, get_or-drop, length-overwrite, length-set, length-take, arith, inl, inr,
}
use programmer.Protocol.{
  set_be16, set_be32, be16_at, be32_at, host16, host32, byteswap16, byteswap32, host16_at,
  host32_at,
}
use programmer.Protocol.Header
use programmer.Protocol.Status
use programmer.Protocol.Fields.{
  get_or-overwrite_start, get_or-overwrite, get_or-overwrite_ne, be32_at-set_be32, be16_at-set_be16,
}
use programmer.NetworkProgrammer.{read_info}
use programmer.System.Replies.{IsReply, payload-IsReply, set_status-IsReply}

-- The reply to a discovery, as it stands in the device's buffer.
abbrev pub discovered : List ℕ → ℕ → List ℕ
discovered buf dev_id =
    overwrite (set_be16 (set_be32 (Header.set_status buf Status.done) 6 0xDEADBEEF) 4 0x0100) 10
      (host16 dev_id)

module _ (buf : List ℕ) (dev_id : ℕ) (room : length buf ≡ 1500) where
  abbrev with_address : List ℕ
  with_address = set_be32 (Header.set_status buf Status.done) 6 0xDEADBEEF

  abbrev with_version : List ℕ
  with_version = set_be16 with_address 4 0x0100

  length-with_address : length with_address ≡ 1500
  unfolding Header.set_status set_be32
  length-with_address =
      length-overwrite (set buf 3 1) 6 (host32 (byteswap32 0xDEADBEEF)) ∙ length-set buf 3 1 ∙ room

  length-with_version : length with_version ≡ 1500
  unfolding set_be16
  length-with_version = length-overwrite with_address 4 _ ∙ length-with_address

  pub discovered-IsReply :
      {s op old : ℕ} → IsReply buf s op old → IsReply (discovered buf dev_id) s op Status.done
  unfolding set_be16 set_be32
  discovered-IsReply h = payload-IsReply with_version 10 (host16 dev_id) (omega arith) (
      payload-IsReply with_address 4 _ (omega arith) (
        payload-IsReply (Header.set_status buf Status.done) 6 _ (omega arith)
          (set_status-IsReply buf Status.done (omega (arith, room)) h)))

  pub length-discovered : length (discovered buf dev_id) ≡ 1500
  length-discovered = length-overwrite with_version 10 (host16 dev_id) ∙ length-with_version

  device_id-discovered : dev_id < 2 ^ 16 → host16_at (discovered buf dev_id) 10 ≡ dev_id
  unfolding host16_at host16
  device_id-discovered l =
      let size = length-with_version in
      let low =
        get_or-overwrite with_version 10 (host16 dev_id) 0 10 (omega (arith, size)) (omega arith)
          refl in
      let high =
        get_or-overwrite with_version 10 (host16 dev_id) 1 11 (omega (arith, size)) (omega arith)
          refl in
      omega (arith, low, high)

  version-discovered : be16_at (discovered buf dev_id) 4 ≡ 0x0100
  unfolding be16_at host16_at
  version-discovered =
      rw
        (
          get_or-overwrite_ne with_version 10 (host16 dev_id) 4 (inl (omega arith)),
          get_or-overwrite_ne with_version 10 (host16 dev_id) 5 (inl (omega arith)),
        )
        (be16_at-set_be16 with_address 4 0x0100 (omega (arith, length-with_address))
          (omega arith)).0

  address_cell :
      (i : ℕ) → 6 ≤ i → i < 10 → get_or (discovered buf dev_id) i 0 ≡ get_or with_address i 0
  unfolding set_be16
  address_cell i l m =
      get_or-overwrite_ne with_version 10 (host16 dev_id) i (inl m)
      ∙ get_or-overwrite_ne with_address 4 (host16 (byteswap16 0x0100)) i
          (inr (unfold host16 in omega arith))

  address-discovered : be32_at (discovered buf dev_id) 6 ≡ 0xDEADBEEF
  unfolding be32_at host32_at
  address-discovered =
      rw
        (
          address_cell 6 (omega arith) (omega arith),
          address_cell 7 (omega arith) (omega arith),
          address_cell 8 (omega arith) (omega arith),
          address_cell 9 (omega arith) (omega arith),
        )
        (be32_at-set_be32 (Header.set_status buf Status.done) 6 0xDEADBEEF
          (unfold Header.set_status in omega (arith, length-set buf 3 1, room)) (omega arith)).0

-- What the programmer reads of the reply.
pub read_info-discovered :
    (rx buf : List ℕ) (dev_id : ℕ)
    → length rx ≡ 1500
    → length buf ≡ 1500
    → dev_id < 2 ^ 16
    → read_info (drop 4 (overwrite rx 0 (take 12 (discovered buf dev_id))))
      ≡ record { device_id = dev_id; version = 0x0100; address = 0xDEADBEEF }
unfolding read_info host16_at be16_at be32_at host32_at
read_info-discovered rx buf dev_id r b l =
    let sent = discovered buf dev_id in
    let size : length (take 12 sent) ≡ 12 =
      omega (arith, length-take 12 sent, length-discovered buf dev_id b) in
    let cell : (i : ℕ)
        → i < 8
        → get_or (drop 4 (overwrite rx 0 (take 12 sent))) i 0 ≡ get_or sent (4 + i) 0 =
      λ i m.
        get_or-drop 4 (overwrite rx 0 (take 12 sent)) i 0
        ∙ get_or-overwrite_start rx (take 12 sent) (4 + i) (omega (arith, size, r))
            (omega (arith, size))
        ∙ get_or-take 12 sent (4 + i) 0 (omega arith) in
    let d = device_id-discovered buf dev_id b l in
    let v = version-discovered buf dev_id b in
    let a = address-discovered buf dev_id b in
    let info = drop 4 (overwrite rx 0 (take 12 sent)) in
    let d' : host16_at info 6 ≡ dev_id = rw (cell 6 (omega arith), cell 7 (omega arith)) d in
    let v' : be16_at info 0 ≡ 0x0100 = rw (cell 0 (omega arith), cell 1 (omega arith)) v in
    let a' : be32_at info 2 ≡ 0xDEADBEEF =
      rw (cell 2 (omega arith), cell 3 (omega arith), cell 4 (omega arith), cell 5 (omega arith))
        a in
    λ i. record { device_id = d' i; version = v' i; address = a' i }
