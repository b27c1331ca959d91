-- ===== src/Target/Memory.antt =====
-- The device's flash as a memory: what is written or erased is read back, and the rest stays.
use programmer.Prelude.{
  ℕ, ◌+◌, ◌%◌, ◌^◌, ◌≤◌, ◌<◌, ◌≡◌, refl, ap, ◌∙◌, ◌⊎◌, List, [], ◌∷◌, length, take, drop, get_or,
  overwrite, length-take, length-drop, length-overwrite, take-drop-overwrite, arith,
}
use programmer.Exceptions.{Result, ok}
use programmer.Network.{Address}
use programmer.Protocol.Header
use programmer.Protocol.Status
use programmer.Protocol.Fields.{get_or-overwrite_ne}
use programmer.Target.{
  Target, Reply, set_status, send, blank_page, handle_erase, handle_write, handle_read,
}
use programmer.Target.Safety.{
  IsSound, answers, carried, handle_erase_carried, handle_write_carried, length-blank_page,
}
use programmer.Target.Reads.{read_state, requested, handle_read_carried}

-- What a change of the flash at an address comes to.
pub record Stores (t : Target) (from : Address) (address : ℕ) (bytes : List ℕ)
    (r : Result (Target × List Reply)) : Type 0 where
  pub next : Target
  pub replies : List Reply
  pub returns : r ≡ ok (next, replies)
  pub two : length replies ≡ 2
  pub others :
      (i : ℕ)
      → (i < address) ⊎ (address + length bytes ≤ i)
      → get_or next.flash i 0 ≡ get_or t.flash i 0
  pub reads :
      (buf : List ℕ)
      → Header.address buf ≡ address
      → Header.length buf ≡ length bytes
      → handle_read (record next { buf = buf }) from
        ≡ ok (
          read_state (record next { buf = buf }) bytes,
          send (set_status (record next { buf = buf }) Status.in_progress) 0 from
              ∷ send (read_state (record next { buf = buf }) bytes) (length bytes) from
              ∷ [],
        )

flash-carried : (t : Target) (flash : List ℕ) → (carried t flash).flash ≡ flash
unfolding set_status
flash-carried t flash = refl

answers-Stores :
    (t : Target) (from : Address) (address : ℕ) (bytes : List ℕ)
    → length t.flash < 2 ^ 32
    → address + length bytes ≤ length t.flash
    → length bytes ≤ 1496
    → Stores t from address bytes (answers t (overwrite t.flash address bytes) from)
answers-Stores t from address bytes k h l =
    let flash = overwrite t.flash address bytes in
    let next = carried t flash in
    record {
      next = next;
      replies = send (set_status t Status.in_progress) 0 from ∷ send next 0 from ∷ [];
      returns = refl;
      two = refl;
      others = λ i o. rw (flash-carried t flash) (get_or-overwrite_ne t.flash address bytes i o);
      reads = λ buf a c.
          let size : length next.flash ≡ length t.flash =
            ap length (flash-carried t flash) ∙ length-overwrite t.flash address bytes in
          let back : requested (record next { buf = buf }) ≡ bytes =
            rw (a, c, flash-carried t flash) (take-drop-overwrite t.flash address bytes h) in
          handle_read_carried (record next { buf = buf }) from (omega (arith, a, c, size))
            (omega (arith, size)) (omega (arith, c))
          ∙ rw (back, c);
    }

-- An erase of a page of the flash gets two replies; the page then reads as 1024 bytes of 0xFF, and
-- every other cell is as before. The flash has whole pages and less than 4 GB; the address is that
-- of a page and inside the flash.
pub handle_erase-Stores :
    (t : Target) (from : Address)
    → IsSound t
    → length t.flash < 2 ^ 32
    → Header.address t.buf % 1024 ≡ 0
    → Header.address t.buf < length t.flash
    → Stores t from (Header.address t.buf) blank_page (handle_erase t from)
handle_erase-Stores t from s k h l =
    let n = length-blank_page in
    let p = s.pages in
    rw (handle_erase_carried t from p h l) (
      answers-Stores t from (Header.address t.buf) blank_page k (omega (arith, n, p))
        (omega (arith, n)))

-- A write of a sector of the flash gets two replies; the sector then reads as the 64 bytes at
-- offset 16 of the request, and every other cell is as before. The flash has whole pages and less
-- than 4 GB; the address is that of a sector and inside the flash.
pub handle_write-Stores :
    (t : Target) (from : Address)
    → IsSound t
    → length t.flash < 2 ^ 32
    → Header.address t.buf % 64 ≡ 0
    → Header.address t.buf < length t.flash
    → (length (take 64 (drop 16 t.buf)) ≡ 64)
      × Stores t from (Header.address t.buf) (take 64 (drop 16 t.buf)) (handle_write t from)
handle_write-Stores t from s k h l =
    let p = s.pages in
    let n : length (take 64 (drop 16 t.buf)) ≡ 64 =
      omega (arith, length-take 64 (drop 16 t.buf), length-drop 16 t.buf, s.buffer) in
    (
      n,
      rw (handle_write_carried t from p h l) (
          answers-Stores t from (Header.address t.buf) (take 64 (drop 16 t.buf)) k
            (omega (arith, n, p)) (omega (arith, n))),
    )
