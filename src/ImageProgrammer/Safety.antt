-- ===== src/ImageProgrammer/Safety.antt =====
-- The order of the operations that `program` emits.
use programmer.Prelude.{
  false, ℕ, ◌+◌, ◌*◌, ◌/◌, ◌%◌, ◌^◌, ◌≤◌, ◌<◌, ◌≡◌, refl, inl, inr, ◌≢◌, List, [], ◌∷◌, ◌++◌, All,
  length, get_or, arith, ltb, Bool-cases, ◌==◌,
}
use programmer.Exceptions.{ok}
use programmer.Image.{Section}
use programmer.Image.Contents.{IsSeparate, lookup}
use programmer.ImageProgrammer.Flash.{Flash, apply, run, touched, programmed}
use programmer.ImageProgrammer.{
  Cursor, Operation, erased, written, write, erase, flush, start, sort, switch_sector,
  process_sections, program,
}
use programmer.ImageProgrammer.Bytes.{Cells, put, put_all, all_cells, Ascends}
use programmer.ImageProgrammer.Ready.{
  IsOpen, IsReady, Moves, switch_sector_stays, switch_sector-Moves, put-IsReady, IsReady-mono,
}
use programmer.ImageProgrammer.Copy.{Chain, process_sections-put_all, all_cells-Ascends}
use programmer.ImageProgrammer.Order.{IsLow, sort-Chain, sort-ne-nil, All-sort}
use programmer.ImageProgrammer.Correct.{start-IsReady, put_all-IsOpen, all_cells-ne-nil}

-- `Orderly log s p`: the sectors written end below `s` and the pages erased end at `p`. Pages are
-- aligned and erased from low to high, none twice. A write is an aligned sector of 64 bytes in
-- the page erased last, behind the sectors before it.
pub data Orderly : List Operation → ℕ → ℕ → Type 0 where
  nothing : Orderly [] 0 0
  erasing :
      {log : List Operation} {s p : ℕ} (a : ℕ)
      → Orderly log s p
      → p ≤ a
      → a % 1024 ≡ 0
      → Orderly (log ++ erased a ∷ []) s (a + 1024)
  writing :
      {log : List Operation} {s p : ℕ} (a : ℕ) (bytes : List ℕ)
      → Orderly log s p
      → s ≤ a
      → a % 64 ≡ 0
      → length bytes ≡ 64
      → a + 64 ≤ p
      → p ≤ a + 1024
      → Orderly (log ++ written a bytes ∷ []) (a + 64) p

-- The operations so far are orderly, and the open sector has not been written.
abbrev IsKept : Cursor → Type 0
IsKept c =
    (s : ℕ) × Orderly c.log s c.erase_end × (s ≤ c.sector_addr) × (c.sector_addr ≤ c.sector_end)

write-Orderly :
    (c : Cursor)
    → IsOpen c
    → IsKept c
    → Orderly (write c c.sector_addr c.buffer).log (c.sector_addr + 64) c.erase_end
unfolding write
write-Orderly c o (s, k, h, _) =
    writing c.sector_addr c.buffer k h o.sector_aligned o.full
      (omega (arith, o.sector_end, o.in_page)) o.one_page

flush-Orderly :
    (c : Cursor) (i : ℕ)
    → IsReady c i
    → IsKept c
    → c.sector_end ≤ i
    → (s : ℕ) × Orderly (flush c).log s c.erase_end × (s ≤ i / 64 * 64)
unfolding flush
flush-Orderly c i r k h = elim (Bool-cases (c.sector_end == 0)) [
  | inl e ↦ rw (e, flush) (k.0, k.1, ground (arith, k.2, k.3))
  | inr e ↦
      let o : IsOpen c = opened r (ground arith) in
      rw (e, flush) (c.sector_addr + 64, write-Orderly c o k, ground (arith, o))
]
  where
    opened : IsReady c i → c.sector_end ≢ 0 → IsOpen c
    opened (inl e) ne = absurd (ne e.0)
    opened (inr o) ne = o.0

Moves-IsKept :
    (c c' : Cursor) (i : ℕ) → IsReady c i → IsKept c → c.sector_end ≤ i → Moves c i c' → IsKept c'
unfolding erase
Moves-IsKept c c' i r k h m =
    let (s, q, le) = flush-Orderly c i r k h in
    elim m.page [
      | inl (p, e, l) ↦ (s, rw (l, e) q, omega (arith, m.addr), omega (arith, m.addr, m.end))
      | inr (p, e, l) ↦ (
        s,
        rw (l, e) (erasing (i / 1024 * 1024) q (ground (arith, r, p)) (omega arith)),
        omega (arith, m.addr),
        omega (arith, m.addr, m.end),
      )
    ]

put-IsKept : (c : Cursor) (i b : ℕ) → IsReady c i → i < 2 ^ 32 → IsKept c → IsKept (put c i b)
unfolding put
put-IsKept c i b r low k = elim (Bool-cases (ltb i c.sector_end)) [
  | inl e ↦ rw (switch_sector_stays c i (ground arith)) k
  | inr e ↦
      Moves-IsKept c (switch_sector c i) i r k (ground arith)
        (switch_sector-Moves c i (ground arith) low)
]

put_all-IsKept :
    (cs : Cells) (c : Cursor) (lo : ℕ)
    → IsReady c lo
    → IsKept c
    → Ascends lo cs
    → IsKept (put_all c cs)
unfolding put_all
put_all-IsKept [] c lo r k h = k
put_all-IsKept ((i, b) ∷ cs) c lo r k h =
    let ready : IsReady c i = IsReady-mono r h.0 in
    put_all-IsKept cs (put c i b) (i + 1) (put-IsReady c i b ready h.1)
      (put-IsKept c i b ready h.1 k) h.2

run_of_cells-Orderly :
    (garbage : List ℕ) (cs : Cells)
    → cs ≢ []
    → Ascends 0 cs
    → let c = put_all (start garbage) cs in
      (s : ℕ) × (p : ℕ) × Orderly (write c c.sector_addr c.buffer).log s p
run_of_cells-Orderly garbage [] ne h = absurd (ne refl)
run_of_cells-Orderly garbage ((i, b) ∷ cs) ne h =
    let c : Cursor = put_all (start garbage) ((i, b) ∷ cs) in
    let ready : IsReady (start garbage) i = IsReady-mono (start-IsReady garbage) (omega arith) in
    let up : Ascends i ((i, b) ∷ cs) = (omega arith, h.1, h.2) in
    let kept : IsKept (start garbage) = unfold start in (0, nothing, omega arith, omega arith) in
    (
      c.sector_addr + 64,
      c.erase_end,
      write-Orderly c (put_all-IsOpen i b cs (start garbage) ready up)
          (put_all-IsKept ((i, b) ∷ cs) (start garbage) i ready kept up),
    )

-- Of an image with a section, whose sections are separate, not empty and below 2 ^ 32, `program`
-- erases aligned pages in rising order, each once, and writes aligned sectors of 64 bytes in
-- rising order, each in the page that was erased last.
pub program-Orderly :
    (garbage : List ℕ) (s : Section) (ss : List Section)
    → All IsLow (s ∷ ss)
    → IsSeparate (s ∷ ss)
    → (log : List Operation) × (program garbage (s ∷ ss) ≡ ok log)
      × (i : ℕ) × (p : ℕ) × Orderly log i p
unfolding program
program-Orderly garbage s ss low sep =
    let sorted = sort (s ∷ ss) in
    let chain : Chain 0 sorted = sort-Chain (s ∷ ss) low sep in
    let c : Cursor = put_all (start garbage) (all_cells sorted) in
    let (i, p, orderly) =
      run_of_cells-Orderly garbage (all_cells sorted)
        (all_cells-ne-nil sorted (All-sort IsLow (s ∷ ss) low) (sort-ne-nil s ss))
        (all_cells-Ascends sorted 0 chain) in
    (
      (write c c.sector_addr c.buffer).log,
      rw (process_sections-put_all sorted (start garbage) 0 (start-IsReady garbage) chain),
      i,
      p,
      orderly,
    )

-- An image with no section is not programmed rightly: the one operation of `program` writes the
-- uninitialised buffer to address 0. No page is erased before, the image touches no page, and
-- there is a flash that is not left as the image asks.
pub program_empty :
    (garbage : List ℕ)
    → (program garbage [] ≡ ok (written 0 garbage ∷ []))
      × ((a : ℕ) → touched [] a ≡ false)
      × ¬ ((f : Flash) (a : ℕ) → run (written 0 garbage ∷ []) f a ≡ programmed [] f a)
unfolding program sort process_sections start run apply programmed lookup touched
program_empty garbage = (refl, (λ a. refl), λ h. wrong (h (λ a. get_or garbage 0 0 + 1) 0))
  where
    wrong :
        run (written 0 garbage ∷ []) (λ a. get_or garbage 0 0 + 1) 0
          ≡ programmed [] (λ a. get_or garbage 0 0 + 1) 0
        → ⊥
    wrong e = absurd (omega (arith, e))
