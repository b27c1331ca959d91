-- ===== src/Elf/Encoded.antt =====
-- The constructor of `Elf` reads back a file that is laid out as a writer does it.
use programmer.Prelude.{
  ℕ, ◌+◌, ◌*◌, ◌^◌, ◌≤◌, ◌<◌, ◌≡◌, refl, sym, ap, ◌∙◌, true, false, List, ◌++◌, length, take, drop,
  get_elem?, some, All, u32, ltb, leb, ◌==◌, length-append, drop-append, arith,
}
use mathlib.Core.List.{append_assoc}
use programmer.Exceptions.{ok}
use programmer.Elf.{
  ElfSection, construct, read_header, check_header, supported_header, read_sections, read_section,
  read_programs,
}
use programmer.Elf.Tables.{
  IsProgram, IsSection, drop_add, length-programs_bytes, length-sections_bytes, index-lt-length,
  All-get_elem?, drop-sections_bytes, read_programs-programs_bytes, read_sections-sections_bytes,
}
use programmer.Elf.Loads.{read-inside}
use programmer.Elf.Structs.{FileHeader, ProgramHeader, SectionHeader}
use programmer.Elf.Encoding.{
  rest_bytes, section_bytes, programs_bytes, sections_bytes, file_bytes, FitsFile, take-length,
  section_header_of-section_bytes, file_header_of-header_bytes,
}

-- A layout with the header `s` for the section of the names: the tables of the headers follow the
-- file header, the contents lie inside the file, and the file has less than 2 GB.
pub record IsLaidOut (h : FileHeader) (ps : List ProgramHeader) (ss : List SectionHeader)
    (contents : List ℕ) (s : SectionHeader) : Type 0 where
  pub fits : FitsFile h
  pub supported : supported_header h.ident ≡ true
  pub version : h.version ≡ 1
  pub ehsize : 52 ≤ h.ehsize
  pub phoff : h.phoff ≡ 52
  pub phentsize : h.phentsize ≡ 32
  pub phnum : h.phnum ≡ length ps
  pub shoff : h.shoff ≡ 52 + length ps * 32
  pub shentsize : h.shentsize ≡ 40
  pub shnum : h.shnum ≡ length ss
  pub names : get_elem? ss h.shstrndx ≡ some s
  pub programs : All (IsProgram (length (file_bytes h ps ss contents))) ps
  pub sections : All (IsSection (length (file_bytes h ps ss contents))) ss
  pub small : length (file_bytes h ps ss contents) < 2 ^ 31

module _ (h : FileHeader) (ps : List ProgramHeader) (ss : List SectionHeader) (contents : List ℕ)
    (s : SectionHeader) (l : IsLaidOut h ps ss contents s) where
  abbrev file : List ℕ
  file = file_bytes h ps ss contents

  abbrev tables : List ℕ
  tables = programs_bytes ps ++ (sections_bytes ss ++ contents)

  length-header : length (h.ident ++ rest_bytes h) ≡ 52
  unfolding rest_bytes
  length-header = omega (arith, length-append h.ident (rest_bytes h), l.fits.0)

  file-header : file ≡ (h.ident ++ rest_bytes h) ++ tables
  file-header = sym (append_assoc h.ident (rest_bytes h) tables)

  drop-header : drop 52 file ≡ tables
  drop-header =
      ap (drop 52) file-header ∙ rw (← length-header) (drop-append (h.ident ++ rest_bytes h) tables)

  drop-programs : drop (52 + length ps * 32) file ≡ sections_bytes ss ++ contents
  drop-programs =
      drop_add 52 (length ps * 32) file
      ∙ ap (drop (length ps * 32)) drop-header
      ∙ rw (← length-programs_bytes ps)
          (drop-append (programs_bytes ps) (sections_bytes ss ++ contents))

  length-file : length file ≡ 52 + length ps * 32 + length ss * 40 + length contents
  length-file = omega (
    arith,
    ap length file-header,
    length-append (h.ident ++ rest_bytes h) tables,
    length-header,
    length-append (programs_bytes ps) (sections_bytes ss ++ contents),
    length-programs_bytes ps,
    length-append (sections_bytes ss) contents,
    length-sections_bytes ss,
  )

  index : h.shstrndx < length ss
  index = index-lt-length ss h.shstrndx s l.names

  read_header-file : read_header file ≡ ok h
  unfolding read_header check_header
  read_header-file =
      let bytes =
        read-inside file 0 52 (omega (arith, length-file))
        ∙ ap (λ xs. ok (take 52 xs)) file-header
        ∙ ap ok (take-length 52 (h.ident ++ rest_bytes h) tables length-header) in
      let header = file_header_of-header_bytes h l.fits in
      let version : (h.version == 1) ≡ true = ground (arith, l.version) in
      let small : ltb h.ehsize 52 ≡ false = ground (arith, l.ehsize) in
      let phoff : leb (length file) h.phoff ≡ false = ground (arith, l.phoff, length-file, index) in
      let phentsize : ltb h.phentsize 32 ≡ false = ground (arith, l.phentsize) in
      let programs : ltb (length file) (h.phoff + h.phnum * 32) ≡ false =
        ground (arith, l.phoff, l.phnum, length-file) in
      let shoff : leb (length file) h.shoff ≡ false = ground (arith, l.shoff, length-file, index) in
      let shentsize : ltb h.shentsize 40 ≡ false = ground (arith, l.shentsize) in
      let sections : ltb (length file) (h.shoff + h.shnum * 40) ≡ false =
        ground (arith, l.shoff, l.shnum, length-file) in
      let names : leb h.shnum h.shstrndx ≡ false = ground (arith, l.shnum, index) in
      rw
        (
          bytes, header, l.supported, version, small, phoff, phentsize, programs, shoff, shentsize,
          sections, names,
        )
        refl

  abbrev strings : ElfSection
  strings = record { header = s; buffer = take s.size (drop s.off file) }

  read_section-file : read_section file h ss h.shstrndx ≡ ok strings
  unfolding read_section section_bytes
  read_section-file =
      let entry = drop-sections_bytes ss contents h.shstrndx s l.names in
      let pos : u32 (h.shoff + h.shstrndx * h.shentsize) ≡ 52 + length ps * 32 + h.shstrndx * 40 =
        rw (l.shoff, l.shentsize) (omega (arith, length-file, index, l.small)) in
      let at : drop (52 + length ps * 32 + h.shstrndx * 40) file ≡ section_bytes s ++ entry.0 =
        drop_add (52 + length ps * 32) (h.shstrndx * 40) file
        ∙ ap (drop (h.shstrndx * 40)) drop-programs
        ∙ entry.1 in
      let bytes =
        read-inside file (52 + length ps * 32 + h.shstrndx * 40) 40
          (omega (arith, length-file, index))
        ∙ ap (λ xs. ok (take 40 xs)) at in
      let valid = All-get_elem? (IsSection (length file)) ss h.shstrndx s l.names l.sections in
      let header = section_header_of-section_bytes s valid.0 in
      let inside : leb (length ss) h.shstrndx ≡ false = ground (arith, index) in
      rw (inside, pos, bytes, header, read-inside file s.off s.size valid.1) refl

  -- An ELF file that is laid out by its headers is read back: the constructor returns the file header,
  -- the section headers, the program headers, and the section of the names with its contents. Every
  -- field has its width, the file header is that of a supported file with the sizes and the counts of
  -- the tables, which follow it, programs first; it names the header of a section as that of the
  -- names; the contents of programs and sections lie inside the file, no program is larger in the
  -- file than in memory, and the file has less than 2 GB.
  pub construct-file_bytes :
      construct (file_bytes h ps ss contents)
      ≡ ok (record {
        file = file_bytes h ps ss contents;
        file_header = h;
        sections = ss;
        strings = record {
          header = s;
          buffer = take s.size (drop s.off (file_bytes h ps ss contents));
        };
        programs = ps;
      })
  unfolding construct
  construct-file_bytes =
      let sections : read_sections file h.shentsize h.shnum h.shoff ≡ ok ss =
        (λ i. read_sections file (l.shentsize i) (l.shnum i) (l.shoff i))
        ∙ read_sections-sections_bytes file l.small ss contents (52 + length ps * 32) drop-programs
            l.sections in
      let programs : read_programs file h.phentsize h.phnum h.phoff ≡ ok ps =
        (λ i. read_programs file (l.phentsize i) (l.phnum i) (l.phoff i))
        ∙ read_programs-programs_bytes file l.small ps (sections_bytes ss ++ contents) 52
            drop-header l.programs in
      rw (read_header-file, sections, read_section-file, programs) refl
