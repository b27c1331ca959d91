-- ===== src/Elf/Encoding.antt =====
-- An ELF file as its writer lays it out: the file header, the program headers, the section headers
-- and the contents. What is written of each struct is read back.
use programmer.Prelude.{
  ℕ, zero, suc, ◌+◌, ◌*◌, ◌/◌, ◌%◌, ◌^◌, ◌<◌, ◌≡◌, refl, ap, ◌∙◌, List, [], ◌∷◌, ◌++◌, length, take,
  get_or, arith,
}
use programmer.Protocol.{host16, host32, host16_at, host32_at}
use programmer.Elf.Structs.{
  FileHeader, ProgramHeader, SectionHeader, file_header_of, program_header_of, section_header_of,
}

-- The fields of the file header behind the identification.
unfoldable pub rest_bytes : FileHeader → List ℕ
unfolding host16 host32
rest_bytes h =
    host16 h.type
    ++ (host16 h.machine
        ++ (host32 h.version
            ++ (host32 h.entry
                ++ (host32 h.phoff
                    ++ (host32 h.shoff
                        ++ (host32 h.flags
                            ++ (host16 h.ehsize
                                ++ (host16 h.phentsize
                                    ++ (host16 h.phnum
                                        ++ (host16 h.shentsize
                                            ++ (host16 h.shnum ++ host16 h.shstrndx)))))))))))

unfoldable pub program_bytes : ProgramHeader → List ℕ
unfolding host32
program_bytes p =
    host32 p.type
    ++ (host32 p.off
        ++ (host32 p.vaddr
            ++ (host32 p.paddr
                ++ (host32 p.filesz ++ (host32 p.memsz ++ (host32 p.flags ++ host32 p.align))))))

unfoldable pub section_bytes : SectionHeader → List ℕ
unfolding host32
section_bytes s =
    host32 s.name
    ++ (host32 s.type
        ++ (host32 s.flags
            ++ (host32 s.vaddr
                ++ (host32 s.off
                    ++ (host32 s.size
                        ++ (host32 s.link
                            ++ (host32 s.info ++ (host32 s.addralign ++ host32 s.entsize))))))))

abbrev pub programs_bytes : List ProgramHeader → List ℕ
programs_bytes [] = []
programs_bytes (p ∷ ps) = program_bytes p ++ programs_bytes ps

abbrev pub sections_bytes : List SectionHeader → List ℕ
sections_bytes [] = []
sections_bytes (s ∷ ss) = section_bytes s ++ sections_bytes ss

abbrev pub file_bytes : FileHeader → List ProgramHeader → List SectionHeader → List ℕ → List ℕ
file_bytes h ps ss contents =
    h.ident ++ (rest_bytes h ++ (programs_bytes ps ++ (sections_bytes ss ++ contents)))

-- Fields that fit their widths.
abbrev pub FitsFile : FileHeader → Type 0
FitsFile h =
    (length h.ident ≡ 16)
    × (h.type < 2 ^ 16)
    × (h.machine < 2 ^ 16)
    × (h.version < 2 ^ 32)
    × (h.entry < 2 ^ 32)
    × (h.phoff < 2 ^ 32)
    × (h.shoff < 2 ^ 32)
    × (h.flags < 2 ^ 32)
    × (h.ehsize < 2 ^ 16)
    × (h.phentsize < 2 ^ 16)
    × (h.phnum < 2 ^ 16)
    × (h.shentsize < 2 ^ 16)
    × (h.shnum < 2 ^ 16)
    × (h.shstrndx < 2 ^ 16)

abbrev pub FitsProgram : ProgramHeader → Type 0
FitsProgram p =
    (p.type < 2 ^ 32)
    × (p.off < 2 ^ 32)
    × (p.vaddr < 2 ^ 32)
    × (p.paddr < 2 ^ 32)
    × (p.filesz < 2 ^ 32)
    × (p.memsz < 2 ^ 32)
    × (p.flags < 2 ^ 32)
    × (p.align < 2 ^ 32)

abbrev pub FitsSection : SectionHeader → Type 0
FitsSection s =
    (s.name < 2 ^ 32)
    × (s.type < 2 ^ 32)
    × (s.flags < 2 ^ 32)
    × (s.vaddr < 2 ^ 32)
    × (s.off < 2 ^ 32)
    × (s.size < 2 ^ 32)
    × (s.link < 2 ^ 32)
    × (s.info < 2 ^ 32)
    × (s.addralign < 2 ^ 32)
    × (s.entsize < 2 ^ 32)

get_or-append :
    (xs ys : List ℕ) (n i : ℕ) → n ≡ length xs + i → get_or (xs ++ ys) n 0 ≡ get_or ys i 0
get_or-append [] ys n i e = ap (λ k. get_or ys k 0) (omega (arith, e))
get_or-append (x ∷ xs) ys zero i e = absurd (omega (arith, e))
get_or-append (x ∷ xs) ys (suc n) i e = get_or-append xs ys n i (omega (arith, e))

host16_at-append :
    (xs ys : List ℕ) (n i : ℕ) → n ≡ length xs + i → host16_at (xs ++ ys) n ≡ host16_at ys i
unfolding host16_at
host16_at-append xs ys n i e =
    rw (get_or-append xs ys n i e, get_or-append xs ys (n + 1) (i + 1) (omega (arith, e))) refl

host32_at-append :
    (xs ys : List ℕ) (n i : ℕ) → n ≡ length xs + i → host32_at (xs ++ ys) n ≡ host32_at ys i
unfolding host32_at
host32_at-append xs ys n i e =
    rw
      (
        get_or-append xs ys n i e,
        get_or-append xs ys (n + 1) (i + 1) (omega (arith, e)),
        get_or-append xs ys (n + 2) (i + 2) (omega (arith, e)),
        get_or-append xs ys (n + 3) (i + 3) (omega (arith, e)),
      )
      refl

-- Where the bytes of a number stand, the number is read.
bytes16 : (v : ℕ) → v < 2 ^ 16 → v % 256 + v / 256 % 256 * 256 ≡ v
bytes16 v h = omega arith

bytes32 :
    (v : ℕ)
    → v < 2 ^ 32
    → v % 256 + v / 2 ^ 8 % 256 * 2 ^ 8 + v / 2 ^ 16 % 256 * 2 ^ 16 + v / 2 ^ 24 % 256 * 2 ^ 24 ≡ v
bytes32 v h = omega arith

pub program_header_of-program_bytes :
    (p : ProgramHeader) → FitsProgram p → program_header_of (program_bytes p) ≡ p
unfolding program_header_of program_bytes host32_at
program_header_of-program_bytes p f = λ i. record {
  type = bytes32 p.type f.0 i;
  off = bytes32 p.off f.1 i;
  vaddr = bytes32 p.vaddr f.2 i;
  paddr = bytes32 p.paddr f.3 i;
  filesz = bytes32 p.filesz f.4 i;
  memsz = bytes32 p.memsz f.5 i;
  flags = bytes32 p.flags f.6 i;
  align = bytes32 p.align f.7 i;
}

pub section_header_of-section_bytes :
    (s : SectionHeader) → FitsSection s → section_header_of (section_bytes s) ≡ s
unfolding section_header_of section_bytes host32_at
section_header_of-section_bytes s f = λ i. record {
  name = bytes32 s.name f.0 i;
  type = bytes32 s.type f.1 i;
  flags = bytes32 s.flags f.2 i;
  vaddr = bytes32 s.vaddr f.3 i;
  off = bytes32 s.off f.4 i;
  size = bytes32 s.size f.5 i;
  link = bytes32 s.link f.6 i;
  info = bytes32 s.info f.7 i;
  addralign = bytes32 s.addralign f.8 i;
  entsize = bytes32 s.entsize f.9 i;
}

pub take-length : {A : Type 0} (n : ℕ) (xs ys : List A) → length xs ≡ n → take n (xs ++ ys) ≡ xs
take-length zero [] ys e = refl
take-length zero (x ∷ xs) ys e = absurd (omega (arith, e))
take-length (suc n) [] ys e = absurd (omega (arith, e))
take-length (suc n) (x ∷ xs) ys e = ap (◌∷◌ x) (take-length n xs ys (omega (arith, e)))

pub file_header_of-header_bytes :
    (h : FileHeader) → FitsFile h → file_header_of (h.ident ++ rest_bytes h) ≡ h
unfolding file_header_of rest_bytes host16_at host32_at
file_header_of-header_bytes h f =
    let half = λ (n k : ℕ) (e : n ≡ 16 + k).
      host16_at-append h.ident (rest_bytes h) n k (omega (arith, e, f.0)) in
    let whole = λ (n k : ℕ) (e : n ≡ 16 + k).
      host32_at-append h.ident (rest_bytes h) n k (omega (arith, e, f.0)) in
    λ i. record {
      ident = take-length 16 h.ident (rest_bytes h) f.0 i;
      type = (half 16 0 (omega arith) ∙ bytes16 h.type f.1) i;
      machine = (half 18 2 (omega arith) ∙ bytes16 h.machine f.2) i;
      version = (whole 20 4 (omega arith) ∙ bytes32 h.version f.3) i;
      entry = (whole 24 8 (omega arith) ∙ bytes32 h.entry f.4) i;
      phoff = (whole 28 12 (omega arith) ∙ bytes32 h.phoff f.5) i;
      shoff = (whole 32 16 (omega arith) ∙ bytes32 h.shoff f.6) i;
      flags = (whole 36 20 (omega arith) ∙ bytes32 h.flags f.7) i;
      ehsize = (half 40 24 (omega arith) ∙ bytes16 h.ehsize f.8) i;
      phentsize = (half 42 26 (omega arith) ∙ bytes16 h.phentsize f.9) i;
      phnum = (half 44 28 (omega arith) ∙ bytes16 h.phnum f.10) i;
      shentsize = (half 46 30 (omega arith) ∙ bytes16 h.shentsize f.11) i;
      shnum = (half 48 32 (omega arith) ∙ bytes16 h.shnum f.12) i;
      shstrndx = (half 50 34 (omega arith) ∙ bytes16 h.shstrndx f.13) i;
    }
