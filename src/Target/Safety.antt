-- ===== src/Target/Safety.antt =====
-- Each round of the device's loop ends without a fault and keeps the sizes of its memories.
use programmer.Prelude.{
  ℕ, ◌+◌, ◌%◌, ◌≤◌, ◌<◌, ◌≡◌, refl, ◌∙◌, false, not, ◌||◌, List, [], ◌∷◌, length, take, drop,
  overwrite, set, length-set, length-take, length-overwrite, get_or-set_ne, drop-set, leb, ◌==◌,
  arith,
}
use programmer.Network.{Address}
use programmer.Exceptions.{Result, ok}
use programmer.Protocol.{be32_at, host32_at, set_be16, set_be32}
use programmer.Protocol.Header
use programmer.Protocol.Status
use programmer.Target.{
  Target, Reply, set_status, send, refuse, store, blank_page, handle_discover, handle_erase,
  handle_write, write_size,
}

-- The buffer has its size, and the flash is made of whole pages.
pub record IsSound (t : Target) : Type 0 where
  pub buffer : length t.buf ≡ 1500
  pub pages : length t.flash % 1024 ≡ 0

-- A round that ends: the state after it, and at most two replies.
pub record Handles (t : Target) (r : Result (Target × List Reply)) : Type 0 where
  pub next : Target
  pub replies : List Reply
  pub returns : r ≡ ok (next, replies)
  pub sound : IsSound next
  pub flash_size : length next.flash ≡ length t.flash
  pub few : length replies ≤ 2

pub address-set_status :
    (buf : List ℕ) (s : ℕ) → Header.address (Header.set_status buf s) ≡ Header.address buf
unfolding Header.address Header.set_status be32_at host32_at
address-set_status buf s = rw (
  get_or-set_ne buf 3 4 s 0 (omega arith),
  get_or-set_ne buf 3 5 s 0 (omega arith),
  get_or-set_ne buf 3 6 s 0 (omega arith),
  get_or-set_ne buf 3 7 s 0 (omega arith),
)

flash-set_status : (t : Target) (s : ℕ) → (set_status t s).flash ≡ t.flash
unfolding set_status
flash-set_status t s = refl

pub set_status-IsSound : {t : Target} (s : ℕ) → IsSound t → IsSound (set_status t s)
unfolding set_status Header.set_status
set_status-IsSound {t} s h = record { buffer = length-set t.buf 3 s ∙ h.buffer; pages = h.pages }

pub refuse-Handles : (t : Target) (s : ℕ) (from : Address) → IsSound t → Handles t (refuse t s from)
unfolding refuse set_status
refuse-Handles t s from h = record {
  next = set_status t s;
  replies = send (set_status t s) 0 from ∷ [];
  returns = refl;
  sound = set_status-IsSound s h;
  flash_size = refl;
  few = omega arith;
}

pub handle_discover-Handles :
    (t : Target) (from : Address) → IsSound t → Handles t (handle_discover t from)
unfolding handle_discover set_status Header.set_status set_be16 set_be32
handle_discover-Handles t from h = record {
  next = _;
  replies = _;
  returns = refl;
  sound = record { buffer = simp (length-overwrite, length-set) h.buffer; pages = h.pages };
  flash_size = refl;
  few = omega arith;
}

-- The store in the middle of a request that is carried out.
store_lem :
    (t : Target) (address : ℕ) (bytes : List ℕ)
    → address + length bytes ≤ length t.flash
    → store (set_status t Status.in_progress) address bytes
      ≡ ok (record (set_status t Status.in_progress) { flash = overwrite t.flash address bytes })
unfolding store set_status
store_lem t address bytes h = ground arith

-- The state after a request that is carried out.
abbrev pub carried : Target → List ℕ → Target
carried t flash =
    set_status (record (set_status t Status.in_progress) { flash = flash }) Status.done

-- The same, with the replies in front of and behind the work.
abbrev pub answers : Target → List ℕ → Address → Result (Target × List Reply)
answers t flash from = ok (
  carried t flash,
  send (set_status t Status.in_progress) 0 from ∷ send (carried t flash) 0 from ∷ [],
)

pub answers-Handles :
    (t : Target) (from : Address) (flash : List ℕ)
    → IsSound t
    → length flash ≡ length t.flash
    → Handles t (answers t flash from)
unfolding set_status Header.set_status
answers-Handles t from flash h size = record {
  next = carried t flash;
  replies = send (set_status t Status.in_progress) 0 from ∷ send (carried t flash) 0 from ∷ [];
  returns = refl;
  sound = record {
    buffer = length-set (set t.buf 3 2) 3 1 ∙ length-set t.buf 3 2 ∙ h.buffer;
    pages = omega (arith, size, h.pages);
  };
  flash_size = size;
  few = omega arith;
}

pub length-blank_page : length blank_page ≡ 1024
unfolding blank_page
length-blank_page = refl

pub same_place :
    (t : Target) → Header.address (set_status t Status.in_progress).buf ≡ Header.address t.buf
unfolding set_status
same_place t = address-set_status t.buf Status.in_progress

same_payload : (t : Target) → drop 16 (set_status t Status.in_progress).buf ≡ drop 16 t.buf
unfolding set_status Header.set_status
same_payload t = drop-set 16 t.buf 3 2 (omega arith)

-- A request to erase a page of the flash sets the page to 0xFF, with a reply before and after.
pub handle_erase_carried :
    (t : Target) (from : Address)
    → length t.flash % 1024 ≡ 0
    → Header.address t.buf % 1024 ≡ 0
    → Header.address t.buf < length t.flash
    → handle_erase t from ≡ answers t (overwrite t.flash (Header.address t.buf) blank_page) from
unfolding handle_erase
handle_erase_carried t from p h k =
    let g : (not (Header.address t.buf % 1024 == 0) || leb (length t.flash) (Header.address t.buf))
        ≡ false =
      ground arith in
    rw (
      g,
      same_place t,
      store_lem t (Header.address t.buf) blank_page (omega (arith, length-blank_page)),
    )

-- A request to write a sector of the flash stores the 64 bytes behind the address in the payload.
pub handle_write_carried :
    (t : Target) (from : Address)
    → length t.flash % 1024 ≡ 0
    → Header.address t.buf % 64 ≡ 0
    → Header.address t.buf < length t.flash
    → handle_write t from
      ≡ answers t (overwrite t.flash (Header.address t.buf) (take write_size (drop 16 t.buf))) from
unfolding handle_write
handle_write_carried t from p h k =
    let g : (not (Header.address t.buf % 64 == 0) || leb (length t.flash) (Header.address t.buf))
        ≡ false =
      ground arith in
    rw (
      g,
      same_place t,
      same_payload t,
      store_lem t (Header.address t.buf) (take write_size (drop 16 t.buf))
          (omega (arith, length-take 64 (drop 16 t.buf))),
    )
