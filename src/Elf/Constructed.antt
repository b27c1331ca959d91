-- ===== src/Elf/Constructed.antt =====
-- What the constructor of `Elf` has read when it returns.
use programmer.Prelude.{ℕ, ◌≡◌, subst, List}
use programmer.Exceptions.{ok, >>=-ok_inv, ok-injective}
use programmer.Elf.{Elf, construct, read_header, read_sections, read_section, read_programs}

pub record Constructed (file : List ℕ) (elf : Elf) : Type 0 where
  pub header : read_header file ≡ ok elf.file_header
  pub sections :
      read_sections file elf.file_header.shentsize elf.file_header.shnum elf.file_header.shoff
      ≡ ok elf.sections
  pub strings :
      read_section file elf.file_header elf.sections elf.file_header.shstrndx ≡ ok elf.strings
  pub programs :
      read_programs file elf.file_header.phentsize elf.file_header.phnum elf.file_header.phoff
      ≡ ok elf.programs

pub construct-Constructed :
    (file : List ℕ) (elf : Elf) → construct file ≡ ok elf → Constructed file elf
unfolding construct
construct-Constructed file elf e =
    let header = >>=-ok_inv (read_header file) _ elf e in
    let h = header.0 in
    let sections = >>=-ok_inv (read_sections file h.shentsize h.shnum h.shoff) _ elf header.2 in
    let strings = >>=-ok_inv (read_section file h sections.0 h.shstrndx) _ elf sections.2 in
    let programs = >>=-ok_inv (read_programs file h.phentsize h.phnum h.phoff) _ elf strings.2 in
    subst (Constructed file) (ok-injective _ elf programs.2) (record {
      header = header.1;
      sections = sections.1;
      strings = strings.1;
      programs = programs.1;
    })
