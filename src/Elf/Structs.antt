-- ===== src/Elf/Structs.antt =====
-- Elf32_Ehdr, Elf32_Phdr and Elf32_Shdr of include/Programmer/elf.h, and how they lie in a file.
use programmer.Prelude.{ℕ, List, take}
use programmer.Protocol.{host16_at, host32_at}

pub record FileHeader : Type 0 where
  pub ident : List ℕ
  pub type : ℕ
  pub machine : ℕ
  pub version : ℕ
  pub entry : ℕ
  pub phoff : ℕ
  pub shoff : ℕ
  pub flags : ℕ
  pub ehsize : ℕ
  pub phentsize : ℕ
  pub phnum : ℕ
  pub shentsize : ℕ
  pub shnum : ℕ
  pub shstrndx : ℕ

pub record ProgramHeader : Type 0 where
  pub type : ℕ
  pub off : ℕ
  pub vaddr : ℕ
  pub paddr : ℕ
  pub filesz : ℕ
  pub memsz : ℕ
  pub flags : ℕ
  pub align : ℕ

pub record SectionHeader : Type 0 where
  pub name : ℕ
  pub type : ℕ
  pub flags : ℕ
  pub vaddr : ℕ
  pub off : ℕ
  pub size : ℕ
  pub link : ℕ
  pub info : ℕ
  pub addralign : ℕ
  pub entsize : ℕ

-- The sizes of the three.
abbrev pub file_header_size : ℕ
file_header_size = 52

abbrev pub program_header_size : ℕ
program_header_size = 32

abbrev pub section_header_size : ℕ
section_header_size = 40

unfoldable pub file_header_of : List ℕ → FileHeader
file_header_of bytes = record {
  ident = take 16 bytes;
  type = host16_at bytes 16;
  machine = host16_at bytes 18;
  version = host32_at bytes 20;
  entry = host32_at bytes 24;
  phoff = host32_at bytes 28;
  shoff = host32_at bytes 32;
  flags = host32_at bytes 36;
  ehsize = host16_at bytes 40;
  phentsize = host16_at bytes 42;
  phnum = host16_at bytes 44;
  shentsize = host16_at bytes 46;
  shnum = host16_at bytes 48;
  shstrndx = host16_at bytes 50;
}

unfoldable pub program_header_of : List ℕ → ProgramHeader
program_header_of bytes = record {
  type = host32_at bytes 0;
  off = host32_at bytes 4;
  vaddr = host32_at bytes 8;
  paddr = host32_at bytes 12;
  filesz = host32_at bytes 16;
  memsz = host32_at bytes 20;
  flags = host32_at bytes 24;
  align = host32_at bytes 28;
}

unfoldable pub section_header_of : List ℕ → SectionHeader
section_header_of bytes = record {
  name = host32_at bytes 0;
  type = host32_at bytes 4;
  flags = host32_at bytes 8;
  vaddr = host32_at bytes 12;
  off = host32_at bytes 16;
  size = host32_at bytes 20;
  link = host32_at bytes 24;
  info = host32_at bytes 28;
  addralign = host32_at bytes 32;
  entsize = host32_at bytes 36;
}
