-- ===== src/Elf/Tables.antt =====
-- The tables of the headers in an ELF file: a row of headers is read back.
use programmer.Prelude.{
  ℕ, zero, suc, ◌+◌, ◌*◌, ◌^◌, ◌≤◌, ◌<◌, ◌≡◌, refl, ap, subst, ◌∙◌, false, List, [], ◌∷◌, ◌++◌,
  length, take, drop, get_elem?, some, All, u32, ltb, leb, length-drop, arith,
}
use programmer.Exceptions.{ok}
use programmer.Elf.{read_sections, read_programs, read_entry, invalid_program, invalid_section}
use programmer.Elf.Loads.{read-inside}
use programmer.Elf.Structs.{ProgramHeader, SectionHeader}
use programmer.Elf.Encoding.{
  program_bytes, section_bytes, programs_bytes, sections_bytes, FitsProgram, FitsSection,
  program_header_of-program_bytes, section_header_of-section_bytes,
}

abbrev pub IsProgram : ℕ → ProgramHeader → Type 0
IsProgram size p = FitsProgram p × (p.filesz ≤ p.memsz) × (p.off + p.filesz ≤ size)

abbrev pub IsSection : ℕ → SectionHeader → Type 0
IsSection size s = FitsSection s × (s.off + s.size ≤ size)

pub drop_add : {A : Type 0} (n k : ℕ) (xs : List A) → drop (n + k) xs ≡ drop k (drop n xs)
drop_add zero k xs = let e : 0 + k ≡ k = omega arith in rw e refl
drop_add (suc n) zero [] = let e : suc n + 0 ≡ suc n = omega arith in rw e refl
drop_add (suc n) (suc k) [] = let e : suc n + suc k ≡ suc (n + suc k) = omega arith in rw e refl
drop_add (suc n) k (x ∷ xs) =
    let e : suc n + k ≡ suc (n + k) = omega arith in rw e (drop_add n k xs)

pub length-programs_bytes : (ps : List ProgramHeader) → length (programs_bytes ps) ≡ length ps * 32
unfolding program_bytes
length-programs_bytes [] = refl
length-programs_bytes (p ∷ ps) = omega (arith, length-programs_bytes ps)

pub length-sections_bytes : (ss : List SectionHeader) → length (sections_bytes ss) ≡ length ss * 40
unfolding section_bytes
length-sections_bytes [] = refl
length-sections_bytes (s ∷ ss) = omega (arith, length-sections_bytes ss)

pub index-lt-length :
    {A : Type 0} (xs : List A) (i : ℕ) (x : A) → get_elem? xs i ≡ some x → i < length xs
index-lt-length [] i x e = cc
index-lt-length (y ∷ xs) zero x e = omega arith
index-lt-length (y ∷ xs) (suc i) x e = omega (arith, index-lt-length xs i x e)

pub All-get_elem? :
    {A : Type 0} (P : A → Type 0) (xs : List A) (i : ℕ) (x : A)
    → get_elem? xs i ≡ some x
    → All P xs
    → P x
All-get_elem? P [] i x e a = absurd (omega (arith, index-lt-length [] i x e))
All-get_elem? P (y ∷ xs) zero x e a = subst P (cc) a.0
All-get_elem? P (y ∷ xs) (suc i) x e a = All-get_elem? P xs i x e a.1

-- The header of a section in the table of the headers.
pub drop-sections_bytes :
    (ss : List SectionHeader) (more : List ℕ) (i : ℕ) (s : SectionHeader)
    → get_elem? ss i ≡ some s
    → (rest : List ℕ) × (drop (i * 40) (sections_bytes ss ++ more) ≡ section_bytes s ++ rest)
unfolding section_bytes
drop-sections_bytes [] more i s e = absurd (omega (arith, index-lt-length [] i s e))
drop-sections_bytes (t ∷ ss) more zero s e =
    let same : t ≡ s = cc in
    (sections_bytes ss ++ more, ap (λ x. section_bytes x ++ (sections_bytes ss ++ more)) same)
drop-sections_bytes (t ∷ ss) more (suc i) s e =
    let next = drop-sections_bytes ss more i s e in
    let far : suc i * 40 ≡ 40 + i * 40 = omega arith in
    (
      next.0,
      rw far (drop_add 40 (i * 40) (section_bytes t ++ (sections_bytes ss ++ more)) ∙ next.1),
    )

module _ (file : List ℕ) (small : length file < 2 ^ 31) where
  read_entry-inside :
      (pos size : ℕ)
      → 1 ≤ size
      → pos + size ≤ length file
      → read_entry file pos size ≡ ok (take size (drop pos file))
  unfolding read_entry
  read_entry-inside pos size n l =
      let low : leb (2 ^ 31) (u32 pos) ≡ false = ground arith in
      let same : u32 pos ≡ pos = omega arith in rw low (rw same (read-inside file pos size l))

  pub read_programs-programs_bytes :
      (ps : List ProgramHeader) (more : List ℕ) (pos : ℕ)
      → drop pos file ≡ programs_bytes ps ++ more
      → All (IsProgram (length file)) ps
      → read_programs file 32 (length ps) pos ≡ ok ps
  unfolding read_programs invalid_program program_bytes
  read_programs-programs_bytes [] more pos e a = refl
  read_programs-programs_bytes (p ∷ ps) more pos e a =
      let room : pos + 32 ≤ length file = omega (arith, ap length e, length-drop pos file) in
      let bytes = read_entry-inside pos 32 (omega arith) room ∙ ap (λ xs. ok (take 32 xs)) e in
      let header = program_header_of-program_bytes p a.0.0 in
      let inside = a.0 in
      let long : ltb p.memsz p.filesz ≡ false = ground arith in
      let far : ltb (length file) (u32 (p.off + p.filesz)) ≡ false = ground arith in
      let rest =
        read_programs-programs_bytes ps more (pos + 32) (drop_add pos 32 file ∙ ap (drop 32) e)
          a.1 in
      rw (bytes, header, long, far, rest) (ground arith)

  pub read_sections-sections_bytes :
      (ss : List SectionHeader) (more : List ℕ) (pos : ℕ)
      → drop pos file ≡ sections_bytes ss ++ more
      → All (IsSection (length file)) ss
      → read_sections file 40 (length ss) pos ≡ ok ss
  unfolding read_sections invalid_section section_bytes
  read_sections-sections_bytes [] more pos e a = refl
  read_sections-sections_bytes (s ∷ ss) more pos e a =
      let room : pos + 40 ≤ length file = omega (arith, ap length e, length-drop pos file) in
      let bytes = read_entry-inside pos 40 (omega arith) room ∙ ap (λ xs. ok (take 40 xs)) e in
      let header = section_header_of-section_bytes s a.0.0 in
      let inside = a.0 in
      let far : ltb (length file) (u32 (s.off + s.size)) ≡ false = ground arith in
      let rest =
        read_sections-sections_bytes ss more (pos + 40) (drop_add pos 40 file ∙ ap (drop 40) e)
          a.1 in
      rw (bytes, header, far, rest) (ground arith)
