-- ===== src/Tests/Images.antt =====
-- Images and `program` on a few sections.
use programmer.Prelude.{ℕ, ◌≡◌, refl, false, inl, inr, List, [], ◌∷◌, ◌++◌, replicate, arith}
use programmer.Exceptions.{ok, throw}
use programmer.Image.{
  Section, process, join_first, add, joinable, of_block, block_end_address, end_address,
}
use programmer.Image.Contents.{Apart}
use programmer.Image.Join.{Joins, process-Joins, process_overlap, process_misses_overlap}
use programmer.ImageProgrammer.{
  Operation, erased, written, program, sort, insert, start, process_sections, process_section,
  switch_sector, flush, prepare_sector, erase_page, erase, write, fill, min, sector_align,
  erase_align,
}
use programmer.ImageProgrammer.Flash.{Flash, run, touched, programmed}
use programmer.ImageProgrammer.Correct.{program-programmed}
use programmer.ImageProgrammer.Safety.{Orderly, program-Orderly, program_empty}

abbrev section : ℕ → List ℕ → Section
section address bytes = record { address = address; bytes = bytes }

-- A block in front of a section joins it, one elsewhere stands alone, and one across is refused.
three_blocks :
    (process (section 8 (1 ∷ 2 ∷ []) ∷ []) 6 (3 ∷ 4 ∷ [])
      ≡ ok (section 6 (3 ∷ 4 ∷ 1 ∷ 2 ∷ []) ∷ []))
    × (process (section 8 (1 ∷ []) ∷ []) 20 (3 ∷ [])
        ≡ ok (section 8 (1 ∷ []) ∷ section 20 (3 ∷ []) ∷ []))
    × (process (section 8 (1 ∷ 2 ∷ []) ∷ []) 9 (3 ∷ []) ≡ throw "Overlapping memory blocks.")
unfolding process join_first add joinable of_block block_end_address end_address
three_blocks = (refl, refl, refl)

-- Two sections in one page, the second at the end of a sector, in the wrong order.
two_sections : List Section
two_sections = section 1087 (7 ∷ 8 ∷ []) ∷ section 1024 (5 ∷ []) ∷ []

program_run :
    program [] two_sections
    ≡ ok (
        erased 1024
        ∷ written 1024 (5 ∷ (replicate 62 255 ++ 7 ∷ []))
        ∷ written 1088 (8 ∷ replicate 63 255)
        ∷ [])
unfolding two_sections program sort insert start process_sections process_section switch_sector
    flush prepare_sector erase_page erase write fill min sector_align erase_align end_address
program_run = refl

process-Joins_example :
    Joins
      (section 8 (1 ∷ []) ∷ [])
      (record { address = 9; bytes = 2 ∷ [] })
      (process (section 8 (1 ∷ []) ∷ []) 9 (2 ∷ []))
process-Joins_example =
    process-Joins (section 8 (1 ∷ []) ∷ []) 9 (2 ∷ []) (omega arith) (tt, tt) (omega arith)
      (inl (omega arith), tt)

process_overlap_example :
    process (section 8 (1 ∷ 2 ∷ []) ∷ []) 9 (3 ∷ []) ≡ throw "Overlapping memory blocks."
process_overlap_example =
    process_overlap (section 8 (1 ∷ 2 ∷ [])) [] 9 3 [] (omega arith) (omega arith)
      (λ h. absurd (omega arith))

process_misses_overlap_example :
    (u : Section) × (process (section 0 (1 ∷ []) ∷ section 2 (9 ∷ []) ∷ []) 1 (3 ∷ 4 ∷ [])
      ≡ ok (u ∷ section 2 (9 ∷ []) ∷ []))
    × (¬ Apart (section 2 (9 ∷ [])) u)
process_misses_overlap_example =
    process_misses_overlap (section 0 (1 ∷ [])) (section 2 (9 ∷ [])) [] 3 (4 ∷ []) (omega arith)
      (omega arith) (λ h. absurd (omega arith))

program-programmed_example :
    (log : List Operation) × (program [] (section 1087 (7 ∷ 8 ∷ []) ∷ section 1024 (5 ∷ []) ∷ [])
      ≡ ok log)
    × ((f : Flash) (a : ℕ)
        → run log f a ≡ programmed (section 1087 (7 ∷ 8 ∷ []) ∷ section 1024 (5 ∷ []) ∷ []) f a)
program-programmed_example =
    program-programmed [] (section 1087 (7 ∷ 8 ∷ [])) (section 1024 (5 ∷ []) ∷ []) (omega arith)
      ((inr (omega arith), tt), (tt, tt))

program-Orderly_example :
    (log : List Operation) × (program [] (section 1087 (7 ∷ 8 ∷ []) ∷ section 1024 (5 ∷ []) ∷ [])
      ≡ ok log)
    × (i : ℕ) × (p : ℕ) × Orderly log i p
program-Orderly_example =
    program-Orderly [] (section 1087 (7 ∷ 8 ∷ [])) (section 1024 (5 ∷ []) ∷ []) (omega arith)
      ((inr (omega arith), tt), (tt, tt))

program_empty_example :
    (program (1 ∷ []) [] ≡ ok (written 0 (1 ∷ []) ∷ []))
    × ((a : ℕ) → touched [] a ≡ false)
    × ¬ ((f : Flash) (a : ℕ) → run (written 0 (1 ∷ []) ∷ []) f a ≡ programmed [] f a)
program_empty_example = program_empty (1 ∷ [])
