-- ===== src/Elf/Constants.antt =====
-- The constants of include/Programmer/elf.h that src/Elf.cpp uses by their names.
use programmer.Prelude.{ℕ}

abbrev pub sht_null : ℕ
sht_null = 0

abbrev pub sht_progbits : ℕ
sht_progbits = 1

abbrev pub sht_symtab : ℕ
sht_symtab = 2

abbrev pub sht_strtab : ℕ
sht_strtab = 3

abbrev pub sht_rela : ℕ
sht_rela = 4

abbrev pub sht_hash : ℕ
sht_hash = 5

abbrev pub sht_dynamic : ℕ
sht_dynamic = 6

abbrev pub sht_note : ℕ
sht_note = 7

abbrev pub sht_nobits : ℕ
sht_nobits = 8

abbrev pub sht_rel : ℕ
sht_rel = 9

abbrev pub sht_shlib : ℕ
sht_shlib = 10

abbrev pub sht_dynsym : ℕ
sht_dynsym = 11

abbrev pub sht_init_array : ℕ
sht_init_array = 14

abbrev pub sht_fini_array : ℕ
sht_fini_array = 15

abbrev pub sht_preinit_array : ℕ
sht_preinit_array = 16

abbrev pub sht_group : ℕ
sht_group = 17

abbrev pub sht_symtab_shndx : ℕ
sht_symtab_shndx = 18

abbrev pub sht_loos : ℕ
sht_loos = 0x60000000

abbrev pub sht_hios : ℕ
sht_hios = 0x6FFFFFFF

abbrev pub sht_gnu_verdef : ℕ
sht_gnu_verdef = 0x6FFFFFFD

abbrev pub sht_gnu_verneed : ℕ
sht_gnu_verneed = 0x6FFFFFFE

abbrev pub sht_gnu_versym : ℕ
sht_gnu_versym = 0x6FFFFFFF

abbrev pub sht_loproc : ℕ
sht_loproc = 0x70000000

abbrev pub sht_hiproc : ℕ
sht_hiproc = 0x7FFFFFFF

abbrev pub sht_louser : ℕ
sht_louser = 0x80000000

abbrev pub sht_hiuser : ℕ
sht_hiuser = 0xFFFFFFFF

abbrev pub shf_write : ℕ
shf_write = 0x1

abbrev pub shf_alloc : ℕ
shf_alloc = 0x2

abbrev pub shf_execinstr : ℕ
shf_execinstr = 0x4

abbrev pub shf_merge : ℕ
shf_merge = 0x10

abbrev pub shf_strings : ℕ
shf_strings = 0x20

abbrev pub shf_info_link : ℕ
shf_info_link = 0x40

abbrev pub shf_link_order : ℕ
shf_link_order = 0x80

abbrev pub shf_os_nonconforming : ℕ
shf_os_nonconforming = 0x100

abbrev pub shf_group : ℕ
shf_group = 0x200

abbrev pub shf_tls : ℕ
shf_tls = 0x400

abbrev pub shf_maskos : ℕ
shf_maskos = 0x0FF00000

abbrev pub shf_maskproc : ℕ
shf_maskproc = 0xF0000000

abbrev pub pt_null : ℕ
pt_null = 0

abbrev pub pt_load : ℕ
pt_load = 1

abbrev pub pt_dynamic : ℕ
pt_dynamic = 2

abbrev pub pt_interp : ℕ
pt_interp = 3

abbrev pub pt_note : ℕ
pt_note = 4

abbrev pub pt_shlib : ℕ
pt_shlib = 5

abbrev pub pt_phdr : ℕ
pt_phdr = 6

abbrev pub pt_tls : ℕ
pt_tls = 7

abbrev pub pf_x : ℕ
pf_x = 0x1

abbrev pub pf_w : ℕ
pf_w = 0x2

abbrev pub pf_r : ℕ
pf_r = 0x4

abbrev pub ev_current : ℕ
ev_current = 1
