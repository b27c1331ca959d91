-- ===== src/Pipeline/Files.antt =====
-- Files to the flash: an Intel HEX file printed from records, and an ELF file.
use programmer.Prelude.{
  ℕ, ◌+◌, ◌*◌, ◌^◌, ◌≡◌, ◌≢◌, refl, ap, ◌∙◌, fun_ext, List, [], ◌∷◌, All, map, Option, some, u32,
}
use programmer.Exceptions.{Result, ok, IsDefined, ◌>>=◌, >>=_assoc}
use programmer.Image
use programmer.Image.{Section}
use programmer.Image.Contents.{IsSeparate}
use programmer.ImageProgrammer.Order.{IsLow}
use programmer.Hex
use programmer.Hex.{Hex}
use programmer.Image.Join.{process-IsDefined}
use programmer.Hex.Total.{read-IsDefined}
use programmer.Hex.Lines.{
  Record, bytes_at, segment_is, upper_is, Entry, IsProper, print_records, end_line, obey, obey_all,
  read_file-end_line,
}
use programmer.Elf.{Elf, construct}
use programmer.Elf.Loads.{sections_of, IsPlain, construct-read_image}
use programmer.Pipeline.{image, process_all, hex_image, elf_image}
use programmer.Pipeline.Blocks.{Programs, process_all-Programs, image-Programs}

-- The blocks that records ask for, from a base of the addresses on.
unfoldable pub blocks : ℕ → List Record → List Section
blocks base [] = []
blocks base (bytes_at address bs ∷ rs) =
    record { address = u32 (base + address); bytes = bs } ∷ blocks base rs
blocks base (segment_is segment ∷ rs) = blocks (segment * 16) rs
blocks base (upper_is upper ∷ rs) = blocks (upper * 2 ^ 16) rs

-- What the reader keeps of its state at the end.
abbrev image_of : Result (Hex image) → Result (List Section)
image_of r = r >>= λ h. ok h.state

image_of-obey_all :
    (rs : List Record) (h : Hex image)
    → image_of (obey_all image h rs) ≡ process_all h.state (blocks h.segment_address rs)
unfolding obey_all obey process_all blocks
image_of-obey_all [] h = refl
image_of-obey_all (bytes_at address bs ∷ rs) h =
    let put = Image.process h.state (u32 (h.segment_address + address)) bs in
    let keep : List Section → Result (Hex image) = λ s. ok (record h { state = s }) in
    let rest : Hex image → Result (Hex image) = λ h'. obey_all image h' rs in
    >>=_assoc (put >>= keep) rest (λ h'. ok h'.state)
    ∙ >>=_assoc put keep (λ h'. image_of (rest h'))
    ∙ ap (◌>>=◌ put) (fun_ext λ s. image_of-obey_all rs (record h { state = s }))
image_of-obey_all (segment_is segment ∷ rs) h = image_of-obey_all rs _
image_of-obey_all (upper_is upper ∷ rs) h = image_of-obey_all rs _

-- An Intel HEX file, read into an empty image and programmed: of a file that is printed from
-- records, the reader returns an image, and the operations that `program` emits for it leave the flash
-- with the bytes that the records place, 0xFF in the rest of the pages that they touch, and what it held
-- before elsewhere. The records' blocks are not empty, lie below 2 ^ 32 and do not overlap; there
-- is one at least.
pub read-Programs :
    (garbage : List ℕ) (es : List Entry) (rest : List (List ℕ)) (b : Section) (bs : List Section)
    → All IsProper es
    → blocks 0 (map (λ e. e.entry) es) ≡ b ∷ bs
    → All IsLow (b ∷ bs)
    → IsSeparate (b ∷ bs)
    → Programs garbage (b ∷ bs) (hex_image (some (print_records es (end_line ∷ rest))))
unfolding hex_image Hex.read
read-Programs garbage es rest b bs p e l s =
    let h : Hex image = record { start_address = 0; segment_address = 0; state = [] } in
    let same =
      ap image_of (read_file-end_line image es rest h p)
      ∙ image_of-obey_all (map (λ e. e.entry) es) h
      ∙ ap (process_all []) e in
    rw same (process_all-Programs garbage b bs l s)

-- An ELF file, read into an empty image and programmed: of a file that the constructor accepts,
-- the flash gets the contents of the program headers that are loaded, at their physical addresses and with
-- zeros up to their size in memory, 0xFF in the rest of the pages that they touch, and keeps what
-- it held elsewhere. The contents do not start at offset 0, their end is below 2 ^ 32, and the
-- sections are not empty, lie below 2 ^ 32 and do not overlap; there is one at least.
pub read_image-Programs :
    (garbage file : List ℕ) (elf : Elf)
    → construct file ≡ ok elf
    → All IsPlain elf.programs
    → sections_of file elf.programs ≢ []
    → All IsLow (sections_of file elf.programs)
    → IsSeparate (sections_of file elf.programs)
    → Programs garbage (sections_of file elf.programs) (elf_image file)
unfolding elf_image
read_image-Programs garbage file elf e p ne l s =
    rw (e, construct-read_image file elf [] e p)
      (image-Programs garbage (sections_of file elf.programs) (sections_of file elf.programs) ne l s
        (λ a. refl) (λ a. refl))

-- Whatever a HEX file holds, reading it into an empty image returns sections or throws: no record makes
-- the reader look outside of it, in a line that is cut or padded, with any byte count and any type.
pub hex_image-IsDefined : (file : Option (List (List ℕ))) → IsDefined (hex_image file)
unfolding hex_image
hex_image-IsDefined file = read-IsDefined image process-IsDefined file []
