-- ===== src/Tests/ElfLayouts.antt =====
-- An ELF file that is laid out by its headers, and the theorems on it.
use programmer.Prelude.{
  ℕ, ◌≡◌, ◌≢◌, ◌⊎◌, refl, List, [], ◌∷◌, ◌++◌, All, some, get_elem?, drop, bit_and, arith,
}
use programmer.Exceptions.{ok, fault, Fault}
use programmer.Protocol.{host16_at, host32_at}
use programmer.Elf.{
  Elf, construct, read, read_entry, read_header, check_header, supported_header, read_programs,
  read_sections, read_section, invalid_program, invalid_section, read_image2,
}
use programmer.Elf.Structs.{
  FileHeader, ProgramHeader, SectionHeader, file_header_of, program_header_of, section_header_of,
}
use programmer.Elf.Encoding.{file_bytes, rest_bytes, program_bytes, section_bytes}
use programmer.Elf.Encoded.{IsLaidOut, construct-file_bytes}
use programmer.Elf.Names.{type_name, sh_type, equal_names}
use programmer.Elf.Print.{print, print_sections, print_programs, element, get, c_string}
use programmer.Elf.Printed.{Names, NoNul, listing, construct-print}
use programmer.Elf.Sections.{progbits_of, IsUnallocated, construct-read_image2}

abbrev header : FileHeader
header = record {
  ident = 127 ∷ 69 ∷ 76 ∷ 70 ∷ 1 ∷ 1 ∷ 1 ∷ 0 ∷ 0 ∷ 0 ∷ 0 ∷ 0 ∷ 0 ∷ 0 ∷ 0 ∷ 0 ∷ [];
  type = 2;
  machine = 1;
  version = 1;
  entry = 0x100;
  phoff = 52;
  shoff = 84;
  flags = 0;
  ehsize = 52;
  phentsize = 32;
  phnum = 1;
  shentsize = 40;
  shnum = 2;
  shstrndx = 1;
}

abbrev segment : ProgramHeader
segment = record {
  type = 1;
  off = 164;
  vaddr = 0x100;
  paddr = 0x100;
  filesz = 2;
  memsz = 4;
  flags = 5;
  align = 1;
}

-- A section with code, and the section of the names.
abbrev code : SectionHeader
code = record {
  name = 1;
  type = 1;
  flags = 6;
  vaddr = 0x100;
  off = 164;
  size = 2;
  link = 0;
  info = 0;
  addralign = 1;
  entsize = 0;
}

abbrev names : SectionHeader
names = record {
  name = 0;
  type = 3;
  flags = 0;
  vaddr = 0;
  off = 166;
  size = 3;
  link = 0;
  info = 0;
  addralign = 1;
  entsize = 0;
}

abbrev contents : List ℕ
contents = 7 ∷ 9 ∷ 0 ∷ 116 ∷ 0 ∷ []

abbrev bytes : List ℕ
bytes = file_bytes header (segment ∷ []) (code ∷ names ∷ []) contents

abbrev elf : Elf
elf = record {
  file = bytes;
  file_header = header;
  sections = code ∷ names ∷ [];
  strings = record { header = names; buffer = 0 ∷ 116 ∷ 0 ∷ [] };
  programs = segment ∷ [];
}

laid_out : IsLaidOut header (segment ∷ []) (code ∷ names ∷ []) contents names
unfolding supported_header rest_bytes program_bytes section_bytes
laid_out = record {
  fits = omega arith;
  supported = refl;
  version = refl;
  ehsize = omega arith;
  phoff = refl;
  phentsize = refl;
  phnum = refl;
  shoff = refl;
  shentsize = refl;
  shnum = refl;
  names = refl;
  programs = omega arith;
  sections = omega arith;
  small = omega arith;
}

construct-file_bytes_example : construct bytes ≡ ok elf
unfolding rest_bytes program_bytes section_bytes
construct-file_bytes_example =
    construct-file_bytes header (segment ∷ []) (code ∷ names ∷ []) contents names laid_out

bytes-elf : construct bytes ≡ ok elf
unfolding construct read read_entry read_header check_header supported_header read_programs
    read_sections read_section invalid_program invalid_section file_header_of program_header_of
    section_header_of host16_at host32_at rest_bytes program_bytes section_bytes
bytes-elf = refl

construct-print_example :
    ((names : List (List ℕ)) × Names elf.strings.buffer elf.sections names
      × (print elf ≡ ok (listing elf names)))
    ⊎ ((i : ℕ) × (s : SectionHeader) × (get_elem? elf.sections i ≡ some s)
        × NoNul (drop s.name elf.strings.buffer)
        × (print elf ≡ fault Fault.out_of_bounds))
construct-print_example = construct-print bytes elf bytes-elf

construct-read_image2_example :
    (All (λ h. (h.type ≢ 1) ⊎ (bit_and h.flags 2 ≢ 0)) elf.sections
      × (read_image2 bytes elf.sections [] ≡ ok ([] ++ progbits_of bytes elf.sections)))
    ⊎ ((i : ℕ) × (h : SectionHeader) × (get_elem? elf.sections i ≡ some h)
        × IsUnallocated h
        × (read_image2 bytes elf.sections [] ≡ fault Fault.assertion))
construct-read_image2_example = construct-read_image2 bytes elf [] bytes-elf (omega arith)

print-elf : print elf ≡ ok (listing elf ((116 ∷ []) ∷ [] ∷ []))
unfolding print print_sections print_programs element get c_string
print-elf = refl

-- Two names have the value 0x6FFFFFFF, and both are printed.
sh_type_versym : sh_type 0x6FFFFFFF ≡ type_name "SHT_HIOS" ∷ type_name "SHT_GNU_VERSYM" ∷ []
unfolding sh_type equal_names
sh_type_versym = refl
