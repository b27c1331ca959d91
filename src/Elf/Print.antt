-- ===== src/Elf/Print.antt =====
-- `Elf::print` of src/Elf.cpp, and `StringSection::get`.
--
-- What is printed is a list of calls of printf, each kept as its format and its arguments, since
-- formatting belongs to the standard library. A name is read from the buffer of the string section up
-- to the first NUL; a read outside the buffer is a fault.
use programmer.Prelude.{
  ℕ, zero, suc, List, [], ◌∷◌, ◌++◌, Option, none, some, get_elem?, drop, ◌==◌, if◌then◌else◌,
}
use mathlib.Core.Option
use programmer.Exceptions.{Result, ok, fault, Fault, ◌>>=◌}
use programmer.Elf.{Elf, ElfSection}
use programmer.Elf.Names.{Item, titled, line, sh_type, sh_flags, ph_type, ph_flags}
use programmer.Elf.Structs.{FileHeader, SectionHeader, ProgramHeader}

-- The bytes up to the first NUL, when there is one.
unfoldable pub c_string : List ℕ → Option (List ℕ)
c_string [] = none
c_string (b ∷ bs) = let rest = c_string bs in if b == 0 then some [] else Option.map (◌∷◌ b) rest

-- What stands outside a buffer or an array is a fault.
abbrev pub or_fault : {A : Type 0} → Option A → Result A
or_fault none = fault Fault.out_of_bounds
or_fault (some x) = ok x

-- `StringSection::get`, and the text that `print` takes at `strings.buffer.get() + index`.
unfoldable pub get : ElfSection → ℕ → Result (List ℕ)
get section index = or_fault (c_string (drop index section.buffer))

unfoldable pub print_header : FileHeader → List Item
print_header h =
    line "File type: 0x%04x\n" h.type
    ∷ line "Machine architecture: 0x%04x\n" h.machine
    ∷ line "ELF format version: 0x%08x\n" h.version
    ∷ line "Entry point: 0x%08x\n" h.entry
    ∷ line "Program header file offset: 0x%08x\n" h.phoff
    ∷ line "Section header file offset: 0x%08x\n" h.shoff
    ∷ line "Architecture-specific flags: 0x%08x\n" h.flags
    ∷ line "Size of ELF header in bytes: 0x%04x\n" h.ehsize
    ∷ line "Size of program header entry: 0x%04x\n" h.phentsize
    ∷ line "Number of program header entries: 0x%04x\n" h.phnum
    ∷ line "Size of section header entry: 0x%04x\n" h.shentsize
    ∷ line "Number of section header entries: 0x%04x\n" h.shnum
    ∷ line "Section name strings section: 0x%04x\n" h.shstrndx
    ∷ []

-- What is printed for a section with its name.
unfoldable pub section_items : ℕ → SectionHeader → List ℕ → List Item
section_items idx sect name =
    titled "Section %u (%s)\n" idx name
      ∷ line "\tSection name index: 0x%04x\n" sect.name
      ∷ line "\tSection type: 0x%04x " sect.type
      ∷ sh_type sect.type
    ++ line "\tSection flags: 0x%04x\n" sect.flags ∷ sh_flags sect.flags
    ++ line "\tAddress in memory image: 0x%04x\n" sect.vaddr
      ∷ line "\tOffset in file: 0x%04x\n" sect.off
      ∷ line "\tSize in bytes: 0x%04x\n" sect.size
      ∷ line "\tIndex of a related section: 0x%04x\n" sect.link
      ∷ line "\tDepends on section type: 0x%04x\n" sect.info
      ∷ line "\tAlignment in bytes: 0x%04x\n" sect.addralign
      ∷ line "\tSize of each entry in section: 0x%04x\n" sect.entsize
      ∷ []

unfoldable pub program_items : ℕ → ProgramHeader → List Item
program_items idx prog =
    line "Program header %d:\n" idx ∷ line "\tEntry type: 0x%0x\n" prog.type ∷ ph_type prog.type
    ++ line "\tFile offset of contents: 0x%0x\n" prog.off
      ∷ line "\tVirtual address in memory image: 0x%0x\n" prog.vaddr
      ∷ line "\tPhysical address (not used): 0x%0x\n" prog.paddr
      ∷ line "\tSize of contents in file: 0x%0x\n" prog.filesz
      ∷ line "\tSize of contents in memory: 0x%0x\n" prog.memsz
      ∷ line "\tAccess permission flags: 0x%0x\n" prog.flags
      ∷ ph_flags prog.flags
    ++ line "\tAlignment in memory and file: 0x%0x\n" prog.align ∷ []

-- `sections[idx]` and `programs[idx]`.
unfoldable pub element : {A : Type 0} → List A → ℕ → Result A
element xs idx = or_fault (get_elem? xs idx)

-- The loops of `print`: so many rounds from an index on.
unfoldable pub print_sections : ElfSection → List SectionHeader → ℕ → ℕ → Result (List Item)
print_sections strings sections zero idx = ok []
print_sections strings sections (suc n) idx = do
  sect ← element sections idx
  name ← get strings sect.name
  rest ← print_sections strings sections n (suc idx)
  ok (section_items idx sect name ++ rest)

unfoldable pub print_programs : List ProgramHeader → ℕ → ℕ → Result (List Item)
print_programs programs zero idx = ok []
print_programs programs (suc n) idx = do
  prog ← element programs idx
  rest ← print_programs programs n (suc idx)
  ok (program_items idx prog ++ rest)

unfoldable pub print : Elf → Result (List Item)
print elf = do
  sections ← print_sections elf.strings elf.sections elf.file_header.shnum 0
  programs ← print_programs elf.programs elf.file_header.phnum 0
  ok (print_header elf.file_header ++ sections ++ programs)
