-- ===== src/Elf/Names.antt =====
-- The functions of src/Elf.cpp that print the names of types and flags, and what printf is given.
use Prim.Native.String.{String}
use programmer.Prelude.{ℕ, not, List, [], ◌∷◌, bit_and, ◌==◌, if◌then◌else◌}
use programmer.Elf.Constants.{
  sht_null, sht_progbits, sht_symtab, sht_strtab, sht_rela, sht_hash, sht_dynamic, sht_note,
  sht_nobits, sht_rel, sht_shlib, sht_dynsym, sht_init_array, sht_fini_array, sht_preinit_array,
  sht_group, sht_symtab_shndx, sht_loos, sht_hios, sht_gnu_verdef, sht_gnu_verneed, sht_gnu_versym,
  sht_loproc, sht_hiproc, sht_louser, sht_hiuser, shf_write, shf_alloc, shf_execinstr, shf_merge,
  shf_strings, shf_info_link, shf_link_order, shf_os_nonconforming, shf_group, shf_tls, shf_maskos,
  shf_maskproc, pt_null, pt_load, pt_dynamic, pt_interp, pt_note, pt_shlib, pt_phdr, pt_tls, pf_x,
  pf_w, pf_r,
}

-- printf with numbers, printf with a number and a text, and printf of a name: in front of a newline,
-- as for a type, and behind a space, as for a flag.
pub data Item : Type 0 where
  numbers : String → List ℕ → Item
  titled : String → ℕ → List ℕ → Item
  type_name : String → Item
  flag_name : String → Item

abbrev pub line : String → ℕ → Item
line format n = numbers format (n ∷ [])

abbrev text : String → Item
text s = numbers s []

-- The macro X of `sh_type` and `ph_type`, and that of `sh_flags` and `ph_flags`, for names in a row.
unfoldable pub equal_names : List (String × ℕ) → ℕ → List Item
equal_names [] type = []
equal_names ((name, x) ∷ rest) type =
    let others = equal_names rest type in if type == x then type_name name ∷ others else others

unfoldable pub flag_names : List (String × ℕ) → ℕ → List Item
flag_names [] type = text "\n" ∷ []
flag_names ((name, x) ∷ rest) type =
    let others = flag_names rest type in
    if not (bit_and type x == 0) then flag_name name ∷ others else others

abbrev section_types : List (String × ℕ)
section_types =
    ("SHT_NULL", sht_null)
    ∷ ("SHT_PROGBITS", sht_progbits)
    ∷ ("SHT_SYMTAB", sht_symtab)
    ∷ ("SHT_STRTAB", sht_strtab)
    ∷ ("SHT_RELA", sht_rela)
    ∷ ("SHT_HASH", sht_hash)
    ∷ ("SHT_DYNAMIC", sht_dynamic)
    ∷ ("SHT_NOTE", sht_note)
    ∷ ("SHT_NOBITS", sht_nobits)
    ∷ ("SHT_REL", sht_rel)
    ∷ ("SHT_SHLIB", sht_shlib)
    ∷ ("SHT_DYNSYM", sht_dynsym)
    ∷ ("SHT_INIT_ARRAY", sht_init_array)
    ∷ ("SHT_FINI_ARRAY", sht_fini_array)
    ∷ ("SHT_PREINIT_ARRAY", sht_preinit_array)
    ∷ ("SHT_GROUP", sht_group)
    ∷ ("SHT_SYMTAB_SHNDX", sht_symtab_shndx)
    ∷ ("SHT_LOOS", sht_loos)
    ∷ ("SHT_HIOS", sht_hios)
    ∷ ("SHT_GNU_VERDEF", sht_gnu_verdef)
    ∷ ("SHT_GNU_VERNEED", sht_gnu_verneed)
    ∷ ("SHT_GNU_VERSYM", sht_gnu_versym)
    ∷ ("SHT_LOPROC", sht_loproc)
    ∷ ("SHT_HIPROC", sht_hiproc)
    ∷ ("SHT_LOUSER", sht_louser)
    ∷ ("SHT_HIUSER", sht_hiuser)
    ∷ []

abbrev section_flags : List (String × ℕ)
section_flags =
    ("SHF_WRITE", shf_write)
    ∷ ("SHF_ALLOC", shf_alloc)
    ∷ ("SHF_EXECINSTR", shf_execinstr)
    ∷ ("SHF_MERGE", shf_merge)
    ∷ ("SHF_STRINGS", shf_strings)
    ∷ ("SHF_INFO_LINK", shf_info_link)
    ∷ ("SHF_LINK_ORDER", shf_link_order)
    ∷ ("SHF_OS_NONCONFORMING", shf_os_nonconforming)
    ∷ ("SHF_GROUP", shf_group)
    ∷ ("SHF_TLS", shf_tls)
    ∷ ("SHF_MASKOS", shf_maskos)
    ∷ ("SHF_MASKPROC", shf_maskproc)
    ∷ []

abbrev program_types : List (String × ℕ)
program_types =
    ("PT_NULL", pt_null)
    ∷ ("PT_LOAD", pt_load)
    ∷ ("PT_DYNAMIC", pt_dynamic)
    ∷ ("PT_INTERP", pt_interp)
    ∷ ("PT_NOTE", pt_note)
    ∷ ("PT_SHLIB", pt_shlib)
    ∷ ("PT_PHDR", pt_phdr)
    ∷ ("PT_TLS", pt_tls)
    ∷ []

abbrev program_flags : List (String × ℕ)
program_flags = ("PF_X", pf_x) ∷ ("PF_W", pf_w) ∷ ("PF_R", pf_r) ∷ []

unfoldable pub sh_type : ℕ → List Item
sh_type type = equal_names section_types type

unfoldable pub sh_flags : ℕ → List Item
sh_flags type = flag_names section_flags type

unfoldable pub ph_type : ℕ → List Item
ph_type type = equal_names program_types type

unfoldable pub ph_flags : ℕ → List Item
ph_flags type = flag_names program_flags type
