-- ===== src/ImageProgrammer/Correct.antt =====
-- `program` against its specification: what the flash holds after the operations that it emits.
use programmer.Prelude.{
  ℕ, ◌<◌, ◌≡◌, refl, ◌∙◌, inl, none, some, List, [], ◌∷◌, ◌++◌, ◌≢◌, All, length, arith,
  if◌then◌else◌,
}
use programmer.Exceptions.{ok}
use programmer.Image.{Section}
use programmer.Image.Contents.{IsSeparate}
use programmer.ImageProgrammer.{Cursor, Operation, written, write, start, sort, program}
use programmer.ImageProgrammer.Flash.{Flash, apply, run, run-append, programmed}
use programmer.ImageProgrammer.Bytes.{
  Cells, put, put_all, cells, all_cells, find, near, Ascends, find-all_cells, near-all_cells,
}
use programmer.ImageProgrammer.Ready.{IsOpen, IsReady, put-IsOpen, put-IsReady, IsReady-mono}
use programmer.ImageProgrammer.View.{view, IsBlank, view-put_all}
use programmer.ImageProgrammer.Copy.{Chain, process_sections-put_all, all_cells-Ascends}
use programmer.ImageProgrammer.Order.{
  IsLow, sort-Chain, sort-ne-nil, All-sort, lookup-sort, touched-sort,
}

pub start-IsReady : (garbage : List ℕ) → IsReady (start garbage) 0
unfolding start
start-IsReady garbage = inl (refl, refl)

start-IsBlank : (garbage : List ℕ) (f : Flash) → IsBlank (start garbage) f
unfolding start
start-IsBlank garbage f a h k = elim k [ ]

-- After the first byte a sector is open.
pub put_all-IsOpen :
    (i b : ℕ) (cs : Cells) (c : Cursor)
    → IsReady c i
    → Ascends i ((i, b) ∷ cs)
    → IsOpen (put_all c ((i, b) ∷ cs))
unfolding put_all
put_all-IsOpen i b [] c r h = (put-IsOpen c i b r h.1).0
put_all-IsOpen i b ((j, x) ∷ cs) c r h =
    put_all-IsOpen j x cs (put c i b) (IsReady-mono (put-IsReady c i b r h.1) h.2.0)
      (omega arith, h.2.1, h.2.2)

run-write :
    (c : Cursor) (f : Flash) (a : ℕ)
    → IsOpen c
    → run (write c c.sector_addr c.buffer).log f a ≡ view c f a
unfolding write view apply
run-write c f a o = ground (arith, run-append c.log (written c.sector_addr c.buffer) f)

view-start : (garbage : List ℕ) (f : Flash) (a : ℕ) → view (start garbage) f a ≡ f a
unfolding view start run
view-start garbage f a = ground arith

-- The operations for a run of bytes.
run-put_all :
    (garbage : List ℕ) (cs : Cells) (f : Flash) (a : ℕ)
    → cs ≢ []
    → Ascends 0 cs
    → (let c = put_all (start garbage) cs in run (write c c.sector_addr c.buffer).log f a)
      ≡ elim (find cs a) [ some x ↦ x | none ↦ if near cs a then 0xFF else f a ]
run-put_all garbage [] f a ne h = absurd (ne refl)
run-put_all garbage ((i, b) ∷ cs) f a ne h =
    let c = put_all (start garbage) ((i, b) ∷ cs) in
    let ready : IsReady (start garbage) i = IsReady-mono (start-IsReady garbage) (omega arith) in
    let up : Ascends i ((i, b) ∷ cs) = (omega arith, h.1, h.2) in
    run-write c f a (put_all-IsOpen i b cs (start garbage) ready up)
    ∙ view-put_all ((i, b) ∷ cs) (start garbage) f i a ready (start-IsBlank garbage f) up
    ∙ unfold start in ground (arith, view-start garbage f a)

pub all_cells-ne-nil : (ss : List Section) → All IsLow ss → ss ≢ [] → all_cells ss ≢ []
unfolding all_cells
all_cells-ne-nil [] h k = absurd (k refl)
all_cells-ne-nil (s ∷ ss) h k = cells-ne-nil s.bytes h.0.0
  where
    cells-ne-nil : (xs : List ℕ) → 0 < length xs → cells s.address xs ++ all_cells ss ≢ []
    cells-ne-nil [] p e = absurd (omega arith)
    cells-ne-nil (x ∷ xs) p e = unfold cells in cc e

-- Of an image with a section, whose sections are separate, not empty and below 2 ^ 32,
-- `program` returns the operations that program it: whatever the flash held, it then holds the
-- image's bytes, 0xFF in the rest of each page that has one of them, and the old bytes elsewhere.
pub program-programmed :
    (garbage : List ℕ) (s : Section) (ss : List Section)
    → All IsLow (s ∷ ss)
    → IsSeparate (s ∷ ss)
    → (log : List Operation) × (program garbage (s ∷ ss) ≡ ok log)
      × ((f : Flash) (a : ℕ) → run log f a ≡ programmed (s ∷ ss) f a)
unfolding program
program-programmed garbage s ss low sep =
    let sorted = sort (s ∷ ss) in
    let chain : Chain 0 sorted = sort-Chain (s ∷ ss) low sep in
    let c : Cursor = put_all (start garbage) (all_cells sorted) in
    (
      (write c c.sector_addr c.buffer).log,
      rw (process_sections-put_all sorted (start garbage) 0 (start-IsReady garbage) chain),
      λ f a.
          run-put_all garbage (all_cells sorted) f a
            (all_cells-ne-nil sorted (All-sort IsLow (s ∷ ss) low) (sort-ne-nil s ss))
            (all_cells-Ascends sorted 0 chain)
          ∙ unfold programmed in
            ground (
              arith,
              find-all_cells sorted a,
              near-all_cells sorted a,
              lookup-sort (s ∷ ss) a sep,
              touched-sort (s ∷ ss) a,
            ),
    )
