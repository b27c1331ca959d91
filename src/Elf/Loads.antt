-- ===== src/Elf/Loads.antt =====
-- The image that `read_image` makes of a file.
use programmer.Prelude.{
  ℕ, zero, suc, ◌+◌, ◌-◌, ◌^◌, ◌≤◌, ◌<◌, ◌≡◌, refl, sym, subst, ap, ◌∙◌, false, List, [], ◌∷◌, ◌++◌,
  length, take, drop, replicate, overwrite, All, if◌then◌else◌, Bool-cases, inl, inr, arith,
  length-take, length-drop, overwrite-nil,
}
use mathlib.Core.List.{append-nil, append_assoc}
use programmer.Exceptions.{ok, >>=-ok_inv, ok-injective, throw_if-ok}
use programmer.Image.{Section, process_size, of_size}
use programmer.Elf.Constructed.{construct-Constructed}
use programmer.Elf.Structs.{ProgramHeader, program_header_of}
use programmer.Elf.{
  Elf, construct, read_programs, read_entry, read, read_image, is_load, write_span, invalid_program,
}

-- The section of a program header: its bytes in the file, and zeros up to its size in memory.
abbrev pub section_of : List ℕ → ProgramHeader → Section
section_of file h = record {
  address = h.paddr;
  bytes = take h.filesz (drop h.off file) ++ replicate (h.memsz - h.filesz) 0;
}

abbrev pub sections_of : List ℕ → List ProgramHeader → List Section
sections_of file [] = []
sections_of file (h ∷ hs) =
    let rest = sections_of file hs in if is_load h then section_of file h ∷ rest else rest

-- A header that passed the test of `read_programs`, with its content inside the file.
abbrev pub IsInside : List ℕ → ProgramHeader → Type 0
IsInside file h = (h.filesz ≤ h.memsz) × (h.off + h.filesz ≤ length file)

overwrite-replicate :
    (n k : ℕ) (bs : List ℕ)
    → length bs + k ≡ n
    → overwrite (replicate n 0) 0 bs ≡ bs ++ replicate k 0
overwrite-replicate n k [] h =
    overwrite-nil (replicate n 0) 0 ∙ ap (λ m. replicate m 0) (omega (arith, h))
overwrite-replicate zero k (b ∷ bs) h = absurd (omega (arith, h))
overwrite-replicate (suc n) k (b ∷ bs) h =
    ap (◌∷◌ b) (overwrite-replicate n k bs (omega (arith, h)))

write_span-append :
    (ss : List Section) (s : Section) (bytes : List ℕ)
    → write_span (ss ++ s ∷ []) bytes ≡ ss ++ record s { bytes = overwrite s.bytes 0 bytes } ∷ []
unfolding write_span
write_span-append [] s bytes = refl
write_span-append (t ∷ []) s bytes = refl
write_span-append (t ∷ u ∷ ss) s bytes = ap (◌∷◌ t) (write_span-append (u ∷ ss) s bytes)

-- Some bytes of the file that are read into a section that is as long or longer.
pub write_span-process_size :
    (file : List ℕ) (image : List Section) (address off filesz memsz : ℕ)
    → filesz ≤ memsz
    → off + filesz ≤ length file
    → write_span (process_size image address memsz) (take filesz (drop off file))
      ≡ image
        ++ record {
          address = address;
          bytes = take filesz (drop off file) ++ replicate (memsz - filesz) 0;
        }
          ∷ []
unfolding process_size of_size
write_span-process_size file image address off filesz memsz l i =
    let size : length (take filesz (drop off file)) ≡ filesz =
      omega (arith, length-take filesz (drop off file), length-drop off file) in
    write_span-append image (of_size address memsz) (take filesz (drop off file))
    ∙ ap (λ bs. image ++ record { address = address; bytes = bs } ∷ [])
        (overwrite-replicate memsz (memsz - filesz) (take filesz (drop off file))
          (omega (arith, size)))

pub read-inside :
    (file : List ℕ) (off size : ℕ)
    → off + size ≤ length file
    → read file off size ≡ ok (take size (drop off file))
unfolding read
read-inside file off size i = ground arith

-- When the content of each program header is inside the file and no longer than in memory, the
-- image gets a section for each header of type PT_LOAD that has content, in their order: at the
-- physical address, the bytes of the file and zeros up to the size in memory. There is no
-- exception and no fault.
pub read_image-sections_of :
    (file : List ℕ) (hs : List ProgramHeader) (image : List Section)
    → All (IsInside file) hs
    → read_image file hs image ≡ ok (image ++ sections_of file hs)
unfolding read_image
read_image-sections_of file [] image i = ap ok (sym (append-nil image))
read_image-sections_of file (h ∷ hs) image i = elim (Bool-cases (is_load h)) [
  | inl e ↦
      rw
        (
          e,
          read-inside file h.off h.filesz i.0.1,
          write_span-process_size file image h.paddr h.off h.filesz h.memsz i.0.0 i.0.1,
        )
        (read_image-sections_of file hs (image ++ section_of file h ∷ []) i.1
          ∙ ap ok (append_assoc image (section_of file h ∷ []) (sections_of file hs)))
  | inr e ↦ rw e (read_image-sections_of file hs image i.1)
]

-- What the test of `read_programs` lets through.
abbrev pub IsTested : ℕ → ProgramHeader → Type 0
IsTested file_size h = invalid_program file_size h ≡ false

read_programs-IsTested :
    (file : List ℕ) (entsize n pos : ℕ) (hs : List ProgramHeader)
    → read_programs file entsize n pos ≡ ok hs
    → All (IsTested (length file)) hs
unfolding read_programs
read_programs-IsTested file entsize zero pos hs e =
    subst (All (IsTested (length file))) (ok-injective [] hs e) tt
read_programs-IsTested file entsize (suc n) pos hs e =
    let entry = >>=-ok_inv (read_entry file pos 32) _ hs e in
    let tested = throw_if-ok _ "Invalid program header." _ hs entry.2 in
    let rest = >>=-ok_inv (read_programs file entsize n (pos + entsize)) _ hs tested.1 in
    let all : All (IsTested (length file)) (program_header_of entry.0 ∷ rest.0) =
      (tested.0, read_programs-IsTested file entsize n (pos + entsize) rest.0 rest.1) in
    subst (All (IsTested (length file))) (ok-injective _ hs rest.2) all

construct-IsTested :
    (file : List ℕ) (elf : Elf)
    → construct file ≡ ok elf
    → All (IsTested (length file)) elf.programs
construct-IsTested file elf e =
    read_programs-IsTested file elf.file_header.phentsize elf.file_header.phnum
      elf.file_header.phoff elf.programs (construct-Constructed file elf e).programs

-- A content that stands behind the start of the file and whose end does not wrap.
abbrev pub IsPlain : ProgramHeader → Type 0
IsPlain h = (1 ≤ h.off) × (h.off + h.filesz < 2 ^ 32)

IsTested-IsInside :
    (file : List ℕ) (hs : List ProgramHeader)
    → All (IsTested (length file)) hs
    → All IsPlain hs
    → All (IsInside file) hs
unfolding invalid_program
IsTested-IsInside file [] t p = tt
IsTested-IsInside file (h ∷ hs) t p =
    let plain = p.0 in
    let test = t.0 in ((ground arith, ground arith), IsTested-IsInside file hs t.1 p.1)

-- From a file that the constructor accepts, `read_image` adds to an image a section for each
-- program header of type PT_LOAD that has content, in their order: at the physical address, the
-- bytes of the file and zeros up to the size in memory. There is no exception and no fault. The
-- condition on the headers is that their content does not start at offset 0, and that its end is
-- below 2 ^ 32.
pub construct-read_image :
    (file : List ℕ) (elf : Elf) (image : List Section)
    → construct file ≡ ok elf
    → All IsPlain elf.programs
    → read_image file elf.programs image ≡ ok (image ++ sections_of file elf.programs)
construct-read_image file elf image e p =
    read_image-sections_of file elf.programs image
      (IsTested-IsInside file elf.programs (construct-IsTested file elf e) p)
