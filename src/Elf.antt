-- ===== src/Elf.antt =====
-- src/Elf.cpp and include/Programmer/Elf.hpp: the reader of ELF files.
--
-- The file is its bytes. A failed read throws, so the state of the stream does not matter after
-- it. The image is a list of sections; the span that it returns for a reserved section is written
-- through at once.
pub mod Structs
pub mod Constructed
pub mod Encoding
pub mod Tables
pub mod Encoded
pub mod Loads
pub mod Constants
pub mod Names
pub mod Print
pub mod Printed
pub mod Sections
use programmer.Prelude.{
  ℕ, zero, suc, ◌+◌, ◌*◌, ◌^◌, Bool, not, ◌&&◌, ◌||◌, List, [], ◌∷◌, length, take, drop, overwrite,
  get_or, u32, bit_and, ltb, leb, ◌==◌, if◌then◌else◌,
}
use programmer.Exceptions.{Result, ok, throws, fault, Fault, throw_if, wide_string, ◌>>=◌, ◌>>◌}
use programmer.Image.{Section, process_size}
use programmer.Elf.Constants.{ev_current, sht_nobits, sht_progbits, shf_alloc, pt_load}
use programmer.Elf.Structs.{
  FileHeader, ProgramHeader, SectionHeader, file_header_size, program_header_size,
  section_header_size, file_header_of, program_header_of, section_header_of,
}

-- ElfSection, with its buffer.
pub record ElfSection : Type 0 where
  pub header : SectionHeader
  pub buffer : List ℕ

pub record Elf : Type 0 where
  pub file : List ℕ
  pub file_header : FileHeader
  pub sections : List SectionHeader
  pub strings : ElfSection
  pub programs : List ProgramHeader

-- A read from a position in the file.
unfoldable pub read : List ℕ → ℕ → ℕ → Result (List ℕ)
read file pos size =
    if (size == 0) || leb (pos + size) (length file)
    then ok (take size (drop pos file))
    else throws (wide_string "File read error.")

-- A read from a position that is an off_t, of 32 bits: a negative one makes the read fail.
unfoldable pub read_entry : List ℕ → ℕ → ℕ → Result (List ℕ)
read_entry file pos size =
    if leb (2 ^ 31) (u32 pos)
    then throws (wide_string "File read error.")
    else read file (u32 pos) size

-- The first seven bytes: the magic number, ELFCLASS32, ELFDATA2LSB and EV_CURRENT.
unfoldable pub supported_header : List ℕ → Bool
supported_header ident =
    (get_or ident 0 0 == 0x7F)
    && (get_or ident 1 0 == 0x45)
    && (get_or ident 2 0 == 0x4C)
    && (get_or ident 3 0 == 0x46)
    && (get_or ident 4 0 == 1)
    && (get_or ident 5 0 == 1)
    && (get_or ident 6 0 == 1)

unfoldable pub check_header : FileHeader → ℕ → Result (Unit {0})
check_header h file_size = do
  throw_if (not (supported_header h.ident)) "Unsupported elf file."
  throw_if (not (h.version == ev_current)) "Unsupported file version."
  throw_if (ltb h.ehsize file_header_size) "Invalid file header size."
  throw_if (leb file_size h.phoff) "Invalid program header file offset."
  throw_if (ltb h.phentsize program_header_size) "Invalid program header size."
  throw_if (ltb file_size (h.phoff + h.phnum * program_header_size))
      "Invalid number of program header entries."
  throw_if (leb file_size h.shoff) "Invalid section header file offset."
  throw_if (ltb h.shentsize section_header_size) "Invalid section header size."
  throw_if (ltb file_size (h.shoff + h.shnum * section_header_size))
      "Invalid number of section header entries."
  throw_if (leb h.shnum h.shstrndx) "Invalid section name strings section index."

unfoldable pub read_header : List ℕ → Result FileHeader
read_header file = do
  bytes ← read file 0 file_header_size
  check_header (file_header_of bytes) (length file)
  ok (file_header_of bytes)

-- The sum of the test is one of uint32_t.
unfoldable pub invalid_program : ℕ → ProgramHeader → Bool
invalid_program file_size h =
    ltb h.memsz h.filesz || (not (h.off == 0) && ltb file_size (u32 (h.off + h.filesz)))

-- The loop of `read_programs`: so many headers from a position on.
unfoldable pub read_programs : List ℕ → ℕ → ℕ → ℕ → Result (List ProgramHeader)
read_programs file entsize zero pos = ok []
read_programs file entsize (suc n) pos = do
  bytes ← read_entry file pos program_header_size
  throw_if (invalid_program (length file) (program_header_of bytes)) "Invalid program header."
  rest ← read_programs file entsize n (pos + entsize)
  ok (program_header_of bytes ∷ rest)

unfoldable pub invalid_section : ℕ → SectionHeader → Bool
invalid_section file_size h = not (h.type == sht_nobits) && ltb file_size (u32 (h.off + h.size))

unfoldable pub read_sections : List ℕ → ℕ → ℕ → ℕ → Result (List SectionHeader)
read_sections file entsize zero pos = ok []
read_sections file entsize (suc n) pos = do
  bytes ← read_entry file pos section_header_size
  throw_if (invalid_section (length file) (section_header_of bytes)) "Invalid section header."
  rest ← read_sections file entsize n (pos + entsize)
  ok (section_header_of bytes ∷ rest)

unfoldable pub read_section : List ℕ → FileHeader → List SectionHeader → ℕ → Result ElfSection
read_section file h sections index =
    if leb (length sections) index then throws (wide_string "Invalid section index.") else do
      bytes ← read file (u32 (h.shoff + index * h.shentsize)) section_header_size
      buffer ← read file (section_header_of bytes).off (section_header_of bytes).size
      ok (record { header = section_header_of bytes; buffer = buffer })

-- The constructor of `Elf`, for a file that is open.
unfoldable pub construct : List ℕ → Result Elf
construct file = do
  h ← read_header file
  sections ← read_sections file h.shentsize h.shnum h.shoff
  strings ← read_section file h sections h.shstrndx
  programs ← read_programs file h.phentsize h.phnum h.phoff
  ok (record {
    file = file;
    file_header = h;
    sections = sections;
    strings = strings;
    programs = programs;
  })

-- Bytes written through the span of the section at the end of the image.
unfoldable pub write_span : List Section → List ℕ → List Section
write_span [] bytes = []
write_span (s ∷ []) bytes = record s { bytes = overwrite s.bytes 0 bytes } ∷ []
write_span (s ∷ t ∷ ss) bytes = s ∷ write_span (t ∷ ss) bytes

-- "Use only load headers with content in file".
unfoldable pub is_load : ProgramHeader → Bool
is_load h = (h.type == pt_load) && not (h.filesz == 0)

-- The loop of `read_image` over the program headers.
unfoldable pub read_image : List ℕ → List ProgramHeader → List Section → Result (List Section)
read_image file [] image = ok image
read_image file (h ∷ hs) image =
    let rest = read_image file hs image in
    let next = read file h.off h.filesz >>= λ bytes.
    read_image file hs (write_span (process_size image h.paddr h.memsz) bytes) in
    if not (is_load h) then rest else next

-- The loop of `read_image2` over the section headers.
unfoldable pub read_image2 : List ℕ → List SectionHeader → List Section → Result (List Section)
read_image2 file [] image = ok image
read_image2 file (h ∷ hs) image =
    let rest = read_image2 file hs image in
    let next = read file h.off h.size >>= λ bytes.
    read_image2 file hs (write_span (process_size image h.vaddr h.size) bytes) in
    if not (h.type == sht_progbits)
    then rest
    else if bit_and h.flags shf_alloc == 0
    then fault Fault.assertion
    else next
