-- ===== src/ImageProgrammer/Ready.antt =====
-- The cursor of `program` between bytes: its sector and page are aligned and erased up to an end.
use programmer.Prelude.{
  ℕ, ◌+◌, ◌*◌, ◌/◌, ◌%◌, ◌^◌, ◌≤◌, ◌<◌, ◌≡◌, ◌⊎◌, inl, inr, length, replicate, length-set, arith,
  ltb, Bool-cases, bit_and_sector, bit_and_page,
}
use programmer.ImageProgrammer.{
  Cursor, sector_align, erase_align, flush, write, erase, prepare_sector, erase_page, switch_sector,
}
use programmer.ImageProgrammer.Bytes.{put}

-- A sector is being filled, in a page that was erased.
pub record IsOpen (c : Cursor) : Type 0 where
  pub sector_end : c.sector_end ≡ c.sector_addr + 64
  pub full : length c.buffer ≡ 64
  pub in_page : c.sector_end ≤ c.erase_end
  pub one_page : c.erase_end ≤ c.sector_addr + 1024
  pub sector_aligned : c.sector_addr % 64 ≡ 0
  pub page_aligned : c.erase_end % 1024 ≡ 0

-- The cursor may go on at the address `a`.
abbrev pub IsReady : Cursor → ℕ → Type 0
IsReady c a = ((c.sector_end ≡ 0) × (c.erase_end ≡ 0)) ⊎ (IsOpen c × (c.sector_addr ≤ a))

pub sector_align_lem : (a : ℕ) → a < 2 ^ 32 → sector_align a ≡ a / 64 * 64
unfolding sector_align
sector_align_lem a h = bit_and_sector a h

pub erase_align_lem : (a : ℕ) → a < 2 ^ 32 → erase_align a ≡ a / 1024 * 1024
unfolding erase_align
erase_align_lem a h = bit_and_page a h

-- After `switch_sector` the byte's sector is the open one.
pub record IsAt (c : Cursor) (a : ℕ) : Type 0 where
  pub opened : IsOpen c
  pub above : c.sector_addr ≤ a
  pub below : a < c.sector_end

-- What `switch_sector` does where the address lies behind the open sector.
pub record Moves (c : Cursor) (a : ℕ) (c' : Cursor) : Type 0 where
  pub addr : c'.sector_addr ≡ a / 64 * 64
  pub end : c'.sector_end ≡ a / 64 * 64 + 64
  pub blank : c'.buffer ≡ replicate 64 0xFF
  pub page :
      ((a / 64 * 64 < c.erase_end) × (c'.erase_end ≡ c.erase_end) × (c'.log ≡ (flush c).log))
      ⊎ ((c.erase_end ≤ a / 64 * 64)
          × (c'.erase_end ≡ a / 1024 * 1024 + 1024)
          × (c'.log ≡ (erase (flush c) (a / 1024 * 1024)).log))

pub switch_sector_stays : (c : Cursor) (a : ℕ) → a < c.sector_end → switch_sector c a ≡ c
unfolding switch_sector
switch_sector_stays c a h = ground arith

flush_erase_end : (c : Cursor) → (flush c).erase_end ≡ c.erase_end
unfolding flush write
flush_erase_end c = ground arith

pub switch_sector-Moves :
    (c : Cursor) (a : ℕ) → c.sector_end ≤ a → a < 2 ^ 32 → Moves c a (switch_sector c a)
unfolding switch_sector prepare_sector erase_page erase
switch_sector-Moves c a h k =
    let p : sector_align a ≡ a / 64 * 64 = sector_align_lem a k in
    let q : erase_align (sector_align a) ≡ a / 1024 * 1024 =
      rw p (rw (erase_align_lem (a / 64 * 64) (omega arith)) (omega arith)) in
    record {
      addr = ground (arith, p);
      end = ground (arith, p);
      blank = ground arith;
      page = elim (Bool-cases (ltb (a / 64 * 64) c.erase_end)) [
        | inl e ↦ inl (
          ground arith,
          ground (arith, p, flush_erase_end c),
          ground (arith, p, flush_erase_end c),
        )
        | inr e ↦ inr (
          ground arith,
          ground (arith, p, q, flush_erase_end c),
          ground (arith, p, q, flush_erase_end c),
        )
      ];
    }

Moves-IsAt : {c c' : Cursor} (a : ℕ) → IsReady c a → c.sector_end ≤ a → Moves c a c' → IsAt c' a
Moves-IsAt a r h m = record {
  opened = record {
    sector_end = omega (arith, m.addr, m.end);
    full = rw m.blank;
    in_page = ground (arith, m.page, m.addr, m.end, r);
    one_page = ground (arith, m.page, m.addr, m.end, r);
    sector_aligned = omega (arith, m.addr);
    page_aligned = ground (arith, m.page, r);
  };
  above = omega (arith, m.addr);
  below = omega (arith, m.end);
}

pub switch_sector-IsAt :
    (c : Cursor) (a : ℕ) → IsReady c a → a < 2 ^ 32 → IsAt (switch_sector c a) a
switch_sector-IsAt c a r h = elim (Bool-cases (ltb a c.sector_end)) [
  | inl e ↦ rw (switch_sector_stays c a (ground arith)) (stays r (ground arith))
  | inr e ↦ Moves-IsAt a r (ground arith) (switch_sector-Moves c a (ground arith) h)
]
  where
    stays : IsReady c a → a < c.sector_end → IsAt c a
    stays (inl e) k = absurd (omega arith)
    stays (inr (o, e)) k = record { opened = o; above = e; below = k }

pub put-IsOpen :
    (c : Cursor) (a b : ℕ)
    → IsReady c a
    → a < 2 ^ 32
    → IsOpen (put c a b) × ((put c a b).sector_addr ≤ a + 1)
unfolding put
put-IsOpen c a b r h =
    let s = switch_sector-IsAt c a r h in
    (
      record {
        sector_end = s.opened.sector_end;
        full = rw length-set s.opened.full;
        in_page = s.opened.in_page;
        one_page = s.opened.one_page;
        sector_aligned = s.opened.sector_aligned;
        page_aligned = s.opened.page_aligned;
      },
      omega (arith, s.above),
    )

pub put-IsReady : (c : Cursor) (a b : ℕ) → IsReady c a → a < 2 ^ 32 → IsReady (put c a b) (a + 1)
put-IsReady c a b r h = inr (put-IsOpen c a b r h)

pub IsReady-mono : {c : Cursor} {a b : ℕ} → IsReady c a → a ≤ b → IsReady c b
IsReady-mono (inl e) h = inl e
IsReady-mono (inr (o, e)) h = inr (o, omega arith)
