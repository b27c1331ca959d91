-- ===== src/ImageProgrammer.antt =====
-- ImageProgrammer of include/Programmer/Image.hpp and src/Image.cpp.
--
-- `erase` and `write` only print in the source; here they append to a log of flash operations.
-- std::list::sort is a stable sort by `operator <`, written as an insertion sort.
pub mod Flash
pub mod Bytes
pub mod Ready
pub mod View
pub mod Copy
pub mod Order
pub mod Correct
pub mod Safety
use programmer.Prelude.{
  ℕ, zero, suc, ◌+◌, List, [], ◌∷◌, ◌++◌, length, take, drop, replicate, overwrite, size_add,
  size_sub, leb, ltb, ◌==◌, if◌then◌else◌, bit_and,
}
use programmer.Exceptions.{Result, ok, fault, Fault, ◌>>=◌}
use programmer.Image.{Section, end_address}

abbrev pub erase_size : ℕ
erase_size = 1024

abbrev pub write_size : ℕ
write_size = 64

-- The masks are computed in uint32_t, so they also clear the bits from 32 on.
unfoldable pub sector_align : ℕ → ℕ
sector_align addr = bit_and addr 0xFFFFFFC0

unfoldable pub erase_align : ℕ → ℕ
erase_align addr = bit_and addr 0xFFFFFC00

unfoldable pub min : ℕ → ℕ → ℕ
min a b = if ltb a b then a else b

pub data Operation : Type 0 where
  erased : ℕ → Operation
  written : ℕ → List ℕ → Operation

-- The local variables of `program`, and the operations so far.
pub record Cursor : Type 0 where
  pub erase_end : ℕ
  pub sector_addr : ℕ
  pub sector_end : ℕ
  pub buffer : List ℕ
  pub log : List Operation

unfoldable pub erase : Cursor → ℕ → Cursor
erase c address = record c { log = c.log ++ erased address ∷ [] }

unfoldable pub write : Cursor → ℕ → List ℕ → Cursor
write c address bytes = record c { log = c.log ++ written address bytes ∷ [] }

-- "Write prepared data"
unfoldable pub flush : Cursor → Cursor
flush c = if c.sector_end == 0 then c else write c c.sector_addr c.buffer

-- "Prepare sector buffer"
unfoldable pub prepare_sector : Cursor → ℕ → Cursor
prepare_sector c address = record c {
  sector_addr = sector_align address;
  sector_end = size_add (sector_align address) write_size;
  buffer = replicate write_size 0xFF;
}

-- "Erase page"
unfoldable pub erase_page : Cursor → Cursor
erase_page c =
    if ltb c.sector_addr c.erase_end then c else record (erase c (erase_align c.sector_addr)) {
      erase_end = size_add (erase_align c.sector_addr) erase_size;
    }

-- "Switch to a new sector"
unfoldable pub switch_sector : Cursor → ℕ → Cursor
switch_sector c address =
    if ltb address c.sector_end then c else erase_page (prepare_sector (flush c) address)

-- "Fill sector data": `size` bytes are copied into the buffer. A copy past the end of the section
-- or of the buffer has no defined meaning.
unfoldable pub fill : Cursor → ℕ → List ℕ → ℕ → Result Cursor
fill c offset bytes size =
    if leb (offset + size) (length c.buffer)
    then (if leb size (length bytes)
        then ok (record c { buffer = overwrite c.buffer offset (take size bytes) })
        else fault Fault.out_of_bounds)
    else fault Fault.out_of_bounds

-- The `while` loop over one section, with `bytes` from the iterator on.
unfoldable pub process_section : ℕ → Cursor → ℕ → ℕ → List ℕ → Result Cursor
process_section zero c address end bytes = fault Fault.out_of_fuel
process_section (suc fuel) c address end bytes =
    let next =
      let c' = switch_sector c address in
      let offset = size_sub address c'.sector_addr in
      let size = min (size_sub write_size offset) (size_sub end address) in
      (fill c' offset bytes size >>= λ c''.
      process_section fuel c'' (size_add address size) end (drop size bytes)) in
    if ltb address end then next else ok c

unfoldable pub process_sections : Cursor → List Section → Result Cursor
process_sections c [] = ok c
process_sections c (s ∷ ss) =
    process_section (suc (length s.bytes)) c s.address (end_address s) s.bytes >>= λ c'.
    process_sections c' ss

-- Equal addresses keep their order.
unfoldable pub insert : Section → List Section → List Section
insert s [] = s ∷ []
insert s (t ∷ ts) = if ltb t.address s.address then t ∷ insert s ts else s ∷ t ∷ ts

unfoldable pub sort : List Section → List Section
sort [] = []
sort (s ∷ ss) = insert s (sort ss)

-- The buffer starts out with whatever the stack holds.
unfoldable pub start : List ℕ → Cursor
start garbage = record {
  erase_end = 0;
  sector_addr = 0;
  sector_end = 0;
  buffer = garbage;
  log = [];
}

unfoldable pub program : List ℕ → List Section → Result (List Operation)
unfolding write
program garbage ss =
    process_sections (start garbage) (sort ss) >>= λ c. ok (write c c.sector_addr c.buffer).log
