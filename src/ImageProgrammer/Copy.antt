-- ===== src/ImageProgrammer/Copy.antt =====
-- The copying loop does what one `put` for each byte does.
use Prim.Native.Nat as Native
use programmer.Prelude.{
  ℕ, zero, suc, ◌+◌, ◌-◌, ◌^◌, ◌≤◌, ◌<◌, ◌≡◌, refl, sym, ap, subst, ◌∙◌, List, [], ◌∷◌, ◌++◌,
  length, take, drop, set, overwrite, overwrite-nil, overwrite-cons, length-take, length-drop,
  take-append-drop, arith, lt→ltb, size_add, size_sub,
}
use programmer.Exceptions.{ok}
use programmer.Image.{Section, end_address}
use programmer.Image.Contents.{limit}
use programmer.ImageProgrammer.{
  Cursor, write_size, min, fill, switch_sector, process_section, process_sections,
}
use programmer.ImageProgrammer.Bytes.{
  Cells, put, put_all, put_all-append, cells, all_cells, Ascends,
}
use programmer.ImageProgrammer.Ready.{
  IsReady, IsAt, switch_sector_stays, switch_sector-IsAt, put-IsReady, IsReady-mono,
}

put_inside :
    (c : Cursor) (a y : ℕ)
    → a < c.sector_end
    → put c a y ≡ record c { buffer = set c.buffer (a - c.sector_addr) y }
unfolding put
put_inside c a y h = rw (switch_sector_stays c a h)

-- Within the open sector the bytes go to the buffer.
put_all_inside :
    (ys : List ℕ) (c : Cursor) (a : ℕ)
    → c.sector_addr ≤ a
    → a + length ys ≤ c.sector_end
    → put_all c (cells a ys) ≡ record c { buffer = overwrite c.buffer (a - c.sector_addr) ys }
unfolding put_all cells
put_all_inside [] c a h k = ground (arith, overwrite-nil c.buffer (a - c.sector_addr))
put_all_inside (y ∷ ys) c a h k =
    let d : Cursor = record c { buffer = set c.buffer (a - c.sector_addr) y } in
    let e : suc (a - c.sector_addr) ≡ a + 1 - c.sector_addr = omega arith in
    ap (λ (t : Cursor). put_all t (cells (a + 1) ys)) (put_inside c a y (omega arith))
    ∙ (put_all_inside ys d (a + 1) (omega arith) (omega arith)
        ∙ ground (arith, e, overwrite-cons c.buffer (a - c.sector_addr) y ys))

put_all_chunk :
    (x : ℕ) (xs : List ℕ) (c : Cursor) (a : ℕ)
    → IsAt (switch_sector c a) a
    → a + suc (length xs) ≤ (switch_sector c a).sector_end
    → put_all c (cells a (x ∷ xs)) ≡ (
        let c' = switch_sector c a in
        record c' { buffer = overwrite c'.buffer (a - c'.sector_addr) (x ∷ xs) })
unfolding put_all cells put
put_all_chunk x xs c a at k =
    let c' = switch_sector c a in
    let o = a - c'.sector_addr in
    let e : suc o ≡ a + 1 - c'.sector_addr = omega (arith, at.above) in
    put_all_inside xs (record c' { buffer = set c'.buffer o x }) (a + 1) (omega (arith, at.above))
      (omega arith)
    ∙ ground (arith, e, overwrite-cons c'.buffer o x xs)

cells-append :
    (a : ℕ) (xs ys : List ℕ) → cells a (xs ++ ys) ≡ cells a xs ++ cells (a + length xs) ys
unfolding cells
cells-append a [] ys = ap (λ (i : ℕ). cells i ys) (omega arith)
cells-append a (x ∷ xs) ys =
    ap (◌∷◌ (a, x))
      (cells-append (a + 1) xs ys ∙ ap (λ (i : ℕ). cells (a + 1) xs ++ cells i ys) (omega arith))

fill_lem :
    (c : Cursor) (offset : ℕ) (bytes : List ℕ) (size : ℕ)
    → offset + size ≤ length c.buffer
    → size ≤ length bytes
    → fill c offset bytes size
      ≡ ok (record c { buffer = overwrite c.buffer offset (take size bytes) })
unfolding fill
fill_lem c offset bytes size h k = ground arith

min_lem : (a b : ℕ) → min a b ≡ Native.min a b
unfolding min
min_lem a b = ground arith

-- The bytes that one round copies: up to the end of the sector or of the section.
abbrev share : Cursor → ℕ → ℕ → ℕ
share c a n = Native.min (64 - (a - (switch_sector c a).sector_addr)) n

module _ (fuel : ℕ) (c : Cursor) (a x : ℕ) (xs : List ℕ) (k : ℕ) (at : IsAt (switch_sector c a) a)
    (low : a + suc (length xs) ≤ 2 ^ 32) (copies : suc k ≡ share c a (suc (length xs))) where
  abbrev bytes : List ℕ
  bytes = x ∷ xs

  size_lem :
      min
        (size_sub write_size (a - (switch_sector c a).sector_addr))
        (size_sub (a + suc (length xs)) a)
      ≡ suc k
  size_lem = rw min_lem (omega (arith, copies, at.opened.sector_end))

  filled :
      fill (switch_sector c a) (a - (switch_sector c a).sector_addr) bytes (suc k)
      ≡ ok (put_all c (cells a (take (suc k) bytes)))
  filled =
      fill_lem (switch_sector c a) (a - (switch_sector c a).sector_addr) bytes (suc k)
        (omega (arith, at.opened.full, copies)) (omega (arith, copies))
      ∙ ap ok (
          sym (
            put_all_chunk x (take k xs) c a at
              (omega (arith, at.opened.sector_end, copies, length-take k xs))))

  process_section_round :
      process_section (suc fuel) c a (a + suc (length xs)) bytes
      ≡ process_section fuel
          (put_all c (cells a (take (suc k) bytes)))
          (a + suc k)
          (a + suc (length xs))
          (drop (suc k) bytes)
  unfolding process_section
  process_section_round =
      let e : size_sub a (switch_sector c a).sector_addr ≡ a - (switch_sector c a).sector_addr =
        omega arith in
      let n : size_add a (suc k) ≡ a + suc k = omega (arith, copies) in
      rw (lt→ltb a (a + suc (length xs)) (omega arith), e, size_lem, filled, n)

pub put_all-cells-IsReady :
    (xs : List ℕ) (c : Cursor) (a : ℕ)
    → IsReady c a
    → a + length xs ≤ 2 ^ 32
    → IsReady (put_all c (cells a xs)) (a + length xs)
unfolding put_all cells
put_all-cells-IsReady [] c a r h = IsReady-mono r (omega arith)
put_all-cells-IsReady (x ∷ xs) c a r h =
    IsReady-mono
      (put_all-cells-IsReady xs (put c a x) (a + 1) (put-IsReady c a x r (omega arith))
        (omega arith))
      (omega arith)

put_all_split :
    (k : ℕ) (bytes : List ℕ) (c : Cursor) (a : ℕ)
    → k ≤ length bytes
    → put_all (put_all c (cells a (take k bytes))) (cells (a + k) (drop k bytes))
      ≡ put_all c (cells a bytes)
put_all_split k bytes c a h =
    let n : length (take k bytes) ≡ k = omega (arith, length-take k bytes) in
    sym (put_all-append c (cells a (take k bytes)) (cells (a + k) (drop k bytes)))
    ∙ ap (put_all c) (
        ap (λ (i : ℕ). cells a (take k bytes) ++ cells (a + i) (drop k bytes)) (sym n)
        ∙ sym (cells-append a (take k bytes) (drop k bytes))
        ∙ ap (cells a) (take-append-drop k bytes))

-- With a round of fuel for each byte and one more, the loop over a section ends, and the cursor
-- is the one after a `put` of each byte.
process_section-put_all :
    (fuel : ℕ) (c : Cursor) (a : ℕ) (bytes : List ℕ)
    → IsReady c a
    → a + length bytes ≤ 2 ^ 32
    → length bytes < fuel
    → process_section fuel c a (a + length bytes) bytes ≡ ok (put_all c (cells a bytes))
process_section-put_all zero c a bytes r low h = elim h [ ]
process_section-put_all (suc fuel) c a [] r low h =
    unfold process_section put_all cells in ground arith
process_section-put_all (suc fuel) c a (x ∷ xs) r low h =
    let at : IsAt (switch_sector c a) a = switch_sector-IsAt c a r (omega arith) in
    let k : ℕ = share c a (suc (length xs)) - 1 in
    let copies : suc k ≡ share c a (suc (length xs)) =
      omega (arith, at.opened.sector_end, at.below) in
    let bytes : List ℕ = x ∷ xs in
    let taken : length (take (suc k) bytes) ≡ suc k = omega (arith, length-take (suc k) bytes) in
    let left : a + suc k + length (drop (suc k) bytes) ≡ a + suc (length xs) =
      omega (arith, length-drop (suc k) bytes) in
    let ready : IsReady (put_all c (cells a (take (suc k) bytes))) (a + suc k) =
      IsReady-mono (put_all-cells-IsReady (take (suc k) bytes) c a r (omega (arith, taken, copies)))
        (omega (arith, taken)) in
    process_section_round fuel c a x xs k at low copies
    ∙ (rw (← left) (
          process_section-put_all fuel (put_all c (cells a (take (suc k) bytes))) (a + suc k)
            (drop (suc k) bytes) ready (omega (arith, left)) (omega (arith, left)))
        ∙ ap ok (put_all_split (suc k) bytes c a (omega (arith, copies))))

-- The sections lie one behind the other, from `lo` on, below 2 ^ 32.
abbrev pub Chain : ℕ → List Section → Type 0
Chain lo [] = Unit {0}
Chain lo (s ∷ ss) = (lo ≤ s.address) × (limit s ≤ 2 ^ 32) × Chain (limit s) ss

-- All of `program`'s loop, over sections in order.
pub process_sections-put_all :
    (ss : List Section) (c : Cursor) (lo : ℕ)
    → IsReady c lo
    → Chain lo ss
    → process_sections c ss ≡ ok (put_all c (all_cells ss))
unfolding process_sections all_cells
process_sections-put_all [] c lo r h = unfold put_all in refl
process_sections-put_all (s ∷ ss) c lo r h =
    let ready = IsReady-mono {c = c} r h.0 in
    let e : end_address s ≡ limit s = unfold end_address in omega arith in
    rw
      (
        e,
        process_section-put_all (suc (length s.bytes)) c s.address s.bytes ready h.1 (omega arith),
      )
      (process_sections-put_all ss (put_all c (cells s.address s.bytes)) (limit s)
          (put_all-cells-IsReady s.bytes c s.address ready h.1) h.2
        ∙ ap ok (sym (put_all-append c (cells s.address s.bytes) (all_cells ss))))

cells-Ascends :
    (a : ℕ) (xs : List ℕ) (r : Cells)
    → a + length xs ≤ 2 ^ 32
    → Ascends (a + length xs) r
    → Ascends a (cells a xs ++ r)
unfolding cells
cells-Ascends a [] r h k = subst (λ (i : ℕ). Ascends i r) (omega arith) k
cells-Ascends a (x ∷ xs) r h k = (
  omega arith,
  omega arith,
  cells-Ascends (a + 1) xs r (omega arith) (subst (λ (i : ℕ). Ascends i r) (omega arith) k),
)

Ascends-mono : {lo hi : ℕ} (r : Cells) → lo ≤ hi → Ascends hi r → Ascends lo r
Ascends-mono [] h k = tt
Ascends-mono ((a, b) ∷ r) h k = (omega arith, k.1, k.2)

pub all_cells-Ascends : (ss : List Section) (lo : ℕ) → Chain lo ss → Ascends lo (all_cells ss)
unfolding all_cells
all_cells-Ascends [] lo h = tt
all_cells-Ascends (s ∷ ss) lo h =
    Ascends-mono (cells s.address s.bytes ++ all_cells ss) h.0
      (cells-Ascends s.address s.bytes (all_cells ss) h.1 (all_cells-Ascends ss (limit s) h.2))
