-- ===== src/Tests/ElfFiles.antt =====
-- A small ELF file, and the theorem on it.
use programmer.Prelude.{ℕ, ◌≡◌, refl, ap, length, List, [], ◌∷◌, ◌++◌, arith}
use programmer.Exceptions.{ok}
use programmer.Protocol.{host16_at, host32_at}
use programmer.Elf.{
  Elf, construct, read, read_entry, read_header, check_header, supported_header, read_programs,
  read_sections, read_section, invalid_program, invalid_section, read_image, is_load,
}
use programmer.Elf.Structs.{
  ProgramHeader, SectionHeader, file_header_of, program_header_of, section_header_of,
}
use programmer.Pipeline.{elf_image}
use programmer.Pipeline.Blocks.{Programs}
use programmer.Pipeline.Files.{read_image-Programs}
use programmer.Elf.Loads.{sections_of, construct-read_image}

-- The file header, one program header, one section header, and two bytes.
abbrev file_header_bytes : List ℕ
file_header_bytes =
    127 ∷ 69 ∷ 76 ∷ 70 ∷ 1 ∷ 1 ∷ 1 ∷ 0 ∷ 0 ∷ 0 ∷ 0 ∷ 0 ∷ 0 ∷ 0 ∷ 0 ∷ 0 ∷ 2 ∷ 0 ∷ 1 ∷ 0 ∷ 1 ∷ 0 ∷ 0
    ∷ 0 ∷ 0 ∷ 0 ∷ 0 ∷ 0 ∷ 52 ∷ 0 ∷ 0 ∷ 0 ∷ 84 ∷ 0 ∷ 0 ∷ 0 ∷ 0 ∷ 0 ∷ 0 ∷ 0 ∷ 52 ∷ 0 ∷ 32 ∷ 0 ∷ 1 ∷ 0
    ∷ 40 ∷ 0 ∷ 1 ∷ 0 ∷ 0 ∷ 0 ∷ []

abbrev program_header_bytes : List ℕ
program_header_bytes =
    1 ∷ 0 ∷ 0 ∷ 0 ∷ 124 ∷ 0 ∷ 0 ∷ 0 ∷ 0 ∷ 0 ∷ 0 ∷ 0 ∷ 0 ∷ 1 ∷ 0 ∷ 0 ∷ 2 ∷ 0 ∷ 0 ∷ 0 ∷ 4 ∷ 0 ∷ 0 ∷ 0
    ∷ 5 ∷ 0 ∷ 0 ∷ 0 ∷ 1 ∷ 0 ∷ 0 ∷ 0 ∷ []

abbrev section_header_bytes : List ℕ
section_header_bytes =
    0 ∷ 0 ∷ 0 ∷ 0 ∷ 3 ∷ 0 ∷ 0 ∷ 0 ∷ 0 ∷ 0 ∷ 0 ∷ 0 ∷ 0 ∷ 0 ∷ 0 ∷ 0 ∷ 124 ∷ 0 ∷ 0 ∷ 0 ∷ 2 ∷ 0 ∷ 0 ∷ 0
    ∷ 0 ∷ 0 ∷ 0 ∷ 0 ∷ 0 ∷ 0 ∷ 0 ∷ 0 ∷ 1 ∷ 0 ∷ 0 ∷ 0 ∷ 0 ∷ 0 ∷ 0 ∷ 0 ∷ []

abbrev file : List ℕ
file = file_header_bytes ++ program_header_bytes ++ section_header_bytes ++ 7 ∷ 9 ∷ []

abbrev program_header : ProgramHeader
program_header = record {
  type = 1;
  off = 124;
  vaddr = 0;
  paddr = 0x100;
  filesz = 2;
  memsz = 4;
  flags = 5;
  align = 1;
}

abbrev section_header : SectionHeader
section_header = record {
  name = 0;
  type = 3;
  flags = 0;
  vaddr = 0;
  off = 124;
  size = 2;
  link = 0;
  info = 0;
  addralign = 1;
  entsize = 0;
}

abbrev elf : Elf
elf = record {
  file = file;
  file_header = record {
    ident = 127 ∷ 69 ∷ 76 ∷ 70 ∷ 1 ∷ 1 ∷ 1 ∷ 0 ∷ 0 ∷ 0 ∷ 0 ∷ 0 ∷ 0 ∷ 0 ∷ 0 ∷ 0 ∷ [];
    type = 2;
    machine = 1;
    version = 1;
    entry = 0;
    phoff = 52;
    shoff = 84;
    flags = 0;
    ehsize = 52;
    phentsize = 32;
    phnum = 1;
    shentsize = 40;
    shnum = 1;
    shstrndx = 0;
  };
  sections = section_header ∷ [];
  strings = record { header = section_header; buffer = 7 ∷ 9 ∷ [] };
  programs = program_header ∷ [];
}

file-elf : construct file ≡ ok elf
unfolding construct read read_entry read_header check_header supported_header read_programs
    read_sections read_section invalid_program invalid_section file_header_of program_header_of
    section_header_of host16_at host32_at
file-elf = refl

construct-read_image_example :
    read_image file elf.programs [] ≡ ok ([] ++ sections_of file elf.programs)
construct-read_image_example =
    construct-read_image file elf [] file-elf ((omega arith, omega arith), tt)

read_image-Programs_example : Programs [] (sections_of file elf.programs) (elf_image file)
unfolding is_load
read_image-Programs_example =
    read_image-Programs [] file elf file-elf ((omega arith, omega arith), tt)
      (λ e. omega (arith, ap length e)) (omega arith, tt) (tt, tt)
