-- ===== src/ImageProgrammer/View.antt =====
-- The flash as it will be once the open sector is written, and how a byte changes it.
use programmer.Prelude.{
  ℕ, ◌+◌, ◌-◌, ◌*◌, ◌/◌, ◌^◌, ◌≤◌, ◌<◌, ◌≡◌, refl, ◌⊎◌, inl, inr, List, [], ◌∷◌, get_or, get_or-set,
  get_or-set_ne, get_or-replicate, arith, ltb, leb, ◌==◌, if◌then◌else◌, ◌&&◌, Bool-cases, none,
  some,
}
use programmer.ImageProgrammer.{Cursor, Operation, written, flush, write, erase, switch_sector}
use programmer.ImageProgrammer.Flash.{Flash, apply, run, run-append}
use programmer.ImageProgrammer.Bytes.{
  Cells, put, put_all, find, near, Ascends, find_below, near_page,
}
use programmer.ImageProgrammer.Ready.{
  IsReady, Moves, switch_sector_stays, switch_sector-Moves, switch_sector-IsAt, put-IsReady,
  IsReady-mono,
}

unfoldable pub view : Cursor → Flash → Flash
view c f a =
    if leb c.sector_addr a && ltb a c.sector_end
    then get_or c.buffer (a - c.sector_addr) 0
    else run c.log f a

-- Between the open sector and the end of the erased pages the flash is erased.
abbrev pub IsBlank : Cursor → Flash → Type 0
IsBlank c f = (a : ℕ) → c.sector_end ≤ a → a < c.erase_end → run c.log f a ≡ 0xFF

-- Flushing brings the flash to the view.
run-flush : (c : Cursor) (f : Flash) (a i : ℕ) → IsReady c i → run (flush c).log f a ≡ view c f a
unfolding flush write view apply
run-flush c f a i (inl (e, k)) = ground arith
run-flush c f a i (inr (o, k)) = ground (arith, run-append c.log (written c.sector_addr c.buffer) f)

view_behind : (c : Cursor) (f : Flash) (a : ℕ) → c.sector_end ≤ a → view c f a ≡ run c.log f a
unfolding view
view_behind c f a h = ground arith

-- A sector that was just prepared shows 0xFF.
view_prepared :
    {c c' : Cursor} {i : ℕ} (f : Flash) (a : ℕ)
    → Moves c i c'
    → view c' f a
      ≡ (if leb (i / 64 * 64) a && ltb a (i / 64 * 64 + 64) then 0xFF else run c'.log f a)
unfolding view
view_prepared {i = i} f a m =
    rw (m.addr, m.end, m.blank) (ground (arith, get_or-replicate {A = ℕ} 64 0xFF (a - i / 64 * 64)))

module _ (c : Cursor) (f : Flash) (i : ℕ) (ready : IsReady c i) where
  run_kept : {log : List Operation} (a : ℕ) → log ≡ (flush c).log → run log f a ≡ view c f a
  run_kept a e = rw e (run-flush c f a i ready)

  run_erased :
      {log : List Operation} (p a : ℕ)
      → log ≡ (erase (flush c) p).log
      → run log f a ≡ (if leb p a && ltb a (p + 1024) then 0xFF else view c f a)
  unfolding apply erase
  run_erased p a e = rw (e, run-append, run-flush c f a i ready) (unfold apply in refl)

module _ (c : Cursor) (f : Flash) (i : ℕ) (ready : IsReady c i) (blank : IsBlank c f)
    (behind : c.sector_end ≤ i) where
  view-Moves :
      {c' : Cursor} (a : ℕ)
      → Moves c i c'
      → view c' f a ≡ (if leb c.erase_end a && (a / 1024 == i / 1024) then 0xFF else view c f a)
  view-Moves a m = elim m.page [
    | inl (h, e, l) ↦
        rw (view_prepared f a m, run_kept c f i ready a l)
          (ground (arith, ready, behind, blank a, view_behind c f a, h))
    | inr (h, e, l) ↦
        rw (view_prepared f a m, run_erased c f i ready (i / 1024 * 1024) a l)
          (ground (arith, ready, behind, h))
  ]

  Moves-IsBlank : {c' : Cursor} → Moves c i c' → IsBlank c' f
  Moves-IsBlank m a p q = elim m.page [
    | inl (h, e, l) ↦
        rw (run_kept c f i ready a l)
          (ground (arith, ready, behind, blank a, view_behind c f a, m.end))
    | inr (h, e, l) ↦ rw (run_erased c f i ready (i / 1024 * 1024) a l) (ground (arith, m.end))
  ]

module _ (c : Cursor) (f : Flash) (i : ℕ) (ready : IsReady c i) (blank : IsBlank c f)
    (low : i < 2 ^ 32) where
  view-switch_sector :
      (a : ℕ)
      → view (switch_sector c i) f a
        ≡ (if leb c.erase_end a && (a / 1024 == i / 1024) then 0xFF else view c f a)
  view-switch_sector a = elim (Bool-cases (ltb i c.sector_end)) [
    | inl e ↦ rw (switch_sector_stays c i (ground arith)) (ground (arith, ready))
    | inr e ↦
        view-Moves c f i ready blank (ground arith) a (switch_sector-Moves c i (ground arith) low)
  ]

  switch_sector-IsBlank : IsBlank (switch_sector c i) f
  switch_sector-IsBlank = elim (Bool-cases (ltb i c.sector_end)) [
    | inl e ↦ rw (switch_sector_stays c i (ground arith)) blank
    | inr e ↦
        Moves-IsBlank c f i ready blank (ground arith) (switch_sector-Moves c i (ground arith) low)
  ]

  put-IsBlank : (b : ℕ) → IsBlank (put c i b) f
  unfolding put
  put-IsBlank b = switch_sector-IsBlank

  view-put :
      (b a : ℕ)
      → view (put c i b) f a ≡ (
          if a == i
          then b
          else if leb c.erase_end a && (a / 1024 == i / 1024)
          then 0xFF
          else view c f a)
  unfolding put view
  view-put b a =
      let at = switch_sector-IsAt c i ready low in
      ground (
        arith,
        at.opened.full,
        at.opened.sector_end,
        at.above,
        at.below,
        view-switch_sector a,
        get_or-set (switch_sector c i).buffer (i - (switch_sector c i).sector_addr)
            (a - (switch_sector c i).sector_addr) b 0,
        get_or-set_ne (switch_sector c i).buffer (i - (switch_sector c i).sector_addr)
            (a - (switch_sector c i).sector_addr) b 0,
      )

  put-erase_end :
      (b : ℕ)
      → ((i < c.erase_end) × ((put c i b).erase_end ≡ c.erase_end))
        ⊎ ((c.erase_end ≤ i) × ((put c i b).erase_end ≡ i / 1024 * 1024 + 1024))
  unfolding put
  put-erase_end b = elim (Bool-cases (ltb i c.sector_end)) [
    | inl e ↦ rw (switch_sector_stays c i (ground arith)) (inl (ground (arith, ready), refl))
    | inr e ↦
        (let m = switch_sector-Moves c i (ground arith) low in
          elim m.page [
            | inl (h, e', l) ↦ inl (ground (arith, ready), e')
            | inr (h, e', l) ↦ inr (omega arith, e')
          ])
  ]

-- The view after a run of bytes: the bytes themselves, 0xFF in the rest of the pages that were
-- erased for them, and elsewhere the view before.
pub view-put_all :
    (cs : Cells) (c : Cursor) (f : Flash) (lo a : ℕ)
    → IsReady c lo
    → IsBlank c f
    → Ascends lo cs
    → view (put_all c cs) f a ≡ elim (find cs a) [
      | some b ↦ b
      | none ↦ if leb c.erase_end a && near cs a then 0xFF else view c f a
    ]
unfolding put_all find near
view-put_all [] c f lo a r bl h = ground arith
view-put_all ((i, b) ∷ cs) c f lo a r bl h =
    let ready : IsReady c i = IsReady-mono r h.0 in
    ground (
      arith,
      view-put_all cs (put c i b) f (i + 1) a (put-IsReady c i b ready h.1)
          (put-IsBlank c f i ready bl h.1 b) h.2,
      view-put c f i ready bl h.1 b a,
      put-erase_end c f i ready bl h.1 b,
      find_below (i + 1) cs a h.2,
      near_page (i + 1) cs a h.2,
    )

pub put_all-IsReady :
    (cs : Cells) (c : Cursor) (lo : ℕ)
    → IsReady c lo
    → Ascends lo cs
    → (hi : ℕ) × IsReady (put_all c cs) hi
unfolding put_all
put_all-IsReady [] c lo r h = (lo, r)
put_all-IsReady ((i, b) ∷ cs) c lo r h =
    put_all-IsReady cs (put c i b) (i + 1) (put-IsReady c i b (IsReady-mono r h.0) h.1) h.2
