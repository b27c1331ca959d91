-- ===== src/Elf/Printed.antt =====
-- What `Elf::print` prints of a file that the constructor accepted.
use programmer.Prelude.{
  ℕ, zero, suc, ◌+◌, ◌≡◌, ◌≢◌, ◌⊎◌, refl, sym, ap, ◌∙◌, inl, inr, Bool-cases, List, [], ◌∷◌, ◌++◌,
  none, some, length, get_elem?, drop, All, ◌==◌, arith,
}
use programmer.Exceptions.{ok, fault, Fault, >>=-ok_inv, ok-injective, throw_if-ok}
use programmer.Elf.{Elf, ElfSection, construct, read_sections, read_programs, read_entry}
use programmer.Elf.Constructed.{construct-Constructed}
use programmer.Elf.Structs.{SectionHeader, ProgramHeader}
use programmer.Elf.Names.{Item}
use programmer.Elf.Print.{
  c_string, get, print, print_header, print_sections, print_programs, section_items, program_items,
  element,
}

abbrev pub NoNul : List ℕ → Type 0
NoNul = All (λ b. b ≢ 0)

-- A text in a buffer: it ends at the first NUL after its start.
abbrev pub TextAt : List ℕ → ℕ → List ℕ → Type 0
TextAt buffer i name = NoNul name × ((rest : List ℕ) × (drop i buffer ≡ name ++ 0 ∷ rest))

-- The names of sections, in their order.
abbrev pub Names : List ℕ → List SectionHeader → List (List ℕ) → Type 0
Names buffer [] [] = Unit {0}
Names buffer [] (name ∷ names) = ⊥
Names buffer (s ∷ ss) [] = ⊥
Names buffer (s ∷ ss) (name ∷ names) = TextAt buffer s.name name × Names buffer ss names

abbrev pub list_sections : ℕ → List SectionHeader → List (List ℕ) → List Item
list_sections idx [] names = []
list_sections idx (s ∷ ss) [] = []
list_sections idx (s ∷ ss) (name ∷ names) =
    section_items idx s name ++ list_sections (suc idx) ss names

abbrev pub list_programs : ℕ → List ProgramHeader → List Item
list_programs idx [] = []
list_programs idx (p ∷ ps) = program_items idx p ++ list_programs (suc idx) ps

-- The file header, each section with its name, and each program header.
abbrev pub listing : Elf → List (List ℕ) → List Item
listing elf names =
    print_header elf.file_header
    ++ list_sections 0 elf.sections names
    ++ list_programs 0 elf.programs

c_string-cases :
    (bs : List ℕ)
    → ((name : List ℕ) × (c_string bs ≡ some name)
        × NoNul name
        × ((rest : List ℕ) × (bs ≡ name ++ 0 ∷ rest)))
      ⊎ ((c_string bs ≡ none) × NoNul bs)
unfolding c_string
c_string-cases [] = inr (refl, tt)
c_string-cases (b ∷ bs) = elim (Bool-cases (b == 0)) [
  | inl e ↦ let z : b ≡ 0 = ground arith in inl ([], rw e refl, tt, (bs, ap (λ x. x ∷ bs) z))
  | inr e ↦
      let nz : b ≢ 0 = λ z. absurd (ground arith) in
      elim (c_string-cases bs) [
        | inl (name, f, clean, (rest, g)) ↦
            inl (b ∷ name, rw (e, f) refl, (nz, clean), (rest, ap (◌∷◌ b) g))
        | inr (f, clean) ↦ inr (rw (e, f) refl, (nz, clean))
      ]
]

drop-next :
    {A : Type 0} (xs : List A) (i : ℕ) (y : A) (ys : List A)
    → drop i xs ≡ y ∷ ys
    → (get_elem? xs i ≡ some y) × (drop (suc i) xs ≡ ys)
drop-next [] zero y ys e = absurd (omega (arith, ap length e))
drop-next [] (suc i) y ys e = absurd (omega (arith, ap length e))
drop-next (x ∷ xs) zero y ys e = (cc, cc)
drop-next (x ∷ xs) (suc i) y ys e = drop-next xs i y ys e

module _ (strings : ElfSection) (sections : List SectionHeader) where
  -- The loop over the sections that are left.
  print_sections-cases :
      (ss : List SectionHeader) (idx : ℕ)
      → drop idx sections ≡ ss
      → ((names : List (List ℕ)) × Names strings.buffer ss names
          × (print_sections strings sections (length ss) idx ≡ ok (list_sections idx ss names)))
        ⊎ ((i : ℕ) × (s : SectionHeader) × (get_elem? sections i ≡ some s)
            × NoNul (drop s.name strings.buffer)
            × (print_sections strings sections (length ss) idx ≡ fault Fault.out_of_bounds))
  unfolding print_sections element get
  print_sections-cases [] idx e = inl ([], tt, refl)
  print_sections-cases (s ∷ ss) idx e =
      let next = drop-next sections idx s ss e in
      elim (c_string-cases (drop s.name strings.buffer)) [
        | inl (name, f, clean, (rest, g)) ↦ elim (print_sections-cases ss (suc idx) next.1) [
          | inl (names, named, r) ↦
              inl (name ∷ names, ((clean, (rest, g)), named), rw (next.0, f, r) refl)
          | inr (i, t, at, none', r) ↦ inr (i, t, at, none', rw (next.0, f, r) refl)
        ]
        | inr (f, clean) ↦ inr (idx, s, next.0, clean, rw (next.0, f) refl)
      ]

print_programs-list_programs :
    (programs ps : List ProgramHeader) (idx : ℕ)
    → drop idx programs ≡ ps
    → print_programs programs (length ps) idx ≡ ok (list_programs idx ps)
unfolding print_programs element
print_programs-list_programs programs [] idx e = refl
print_programs-list_programs programs (p ∷ ps) idx e =
    let next = drop-next programs idx p ps e in
    rw (next.0, print_programs-list_programs programs ps (suc idx) next.1) refl

length-read_sections :
    (file : List ℕ) (entsize n pos : ℕ) (hs : List SectionHeader)
    → read_sections file entsize n pos ≡ ok hs
    → length hs ≡ n
unfolding read_sections
length-read_sections file entsize zero pos hs e = ap length (sym (ok-injective [] hs e))
length-read_sections file entsize (suc n) pos hs e =
    let entry = >>=-ok_inv (read_entry file pos 40) _ hs e in
    let tested = throw_if-ok _ "Invalid section header." _ hs entry.2 in
    let rest = >>=-ok_inv (read_sections file entsize n (pos + entsize)) _ hs tested.1 in
    ap length (sym (ok-injective _ hs rest.2))
    ∙ ap suc (length-read_sections file entsize n (pos + entsize) rest.0 rest.1)

length-read_programs :
    (file : List ℕ) (entsize n pos : ℕ) (hs : List ProgramHeader)
    → read_programs file entsize n pos ≡ ok hs
    → length hs ≡ n
unfolding read_programs
length-read_programs file entsize zero pos hs e = ap length (sym (ok-injective [] hs e))
length-read_programs file entsize (suc n) pos hs e =
    let entry = >>=-ok_inv (read_entry file pos 32) _ hs e in
    let tested = throw_if-ok _ "Invalid program header." _ hs entry.2 in
    let rest = >>=-ok_inv (read_programs file entsize n (pos + entsize)) _ hs tested.1 in
    ap length (sym (ok-injective _ hs rest.2))
    ∙ ap suc (length-read_programs file entsize n (pos + entsize) rest.0 rest.1)

-- The constructor reads as many headers as the file header counts.
pub construct-length :
    (file : List ℕ) (elf : Elf)
    → construct file ≡ ok elf
    → (length elf.sections ≡ elf.file_header.shnum) × (length elf.programs ≡ elf.file_header.phnum)
construct-length file elf e =
    let c = construct-Constructed file elf e in
    let h = elf.file_header in
    (
      length-read_sections file h.shentsize h.shnum h.shoff elf.sections c.sections,
      length-read_programs file h.phentsize h.phnum h.phoff elf.programs c.programs,
    )

-- `print` of a file that the constructor accepted either prints the file header, every section with
-- its name, which the string section holds up to a NUL, and every program header; or a section has a
-- name with no NUL behind it in the string section, and `print` reads past the end of it. It never
-- reads outside the headers.
pub construct-print :
    (file : List ℕ) (elf : Elf)
    → construct file ≡ ok elf
    → ((names : List (List ℕ)) × Names elf.strings.buffer elf.sections names
        × (print elf ≡ ok (listing elf names)))
      ⊎ ((i : ℕ) × (s : SectionHeader) × (get_elem? elf.sections i ≡ some s)
          × NoNul (drop s.name elf.strings.buffer)
          × (print elf ≡ fault Fault.out_of_bounds))
unfolding print
construct-print file elf e =
    let counts = construct-length file elf e in
    let programs : print_programs elf.programs elf.file_header.phnum 0
        ≡ ok (list_programs 0 elf.programs) =
      rw (← counts.1) (print_programs-list_programs elf.programs elf.programs 0 refl) in
    elim (print_sections-cases elf.strings elf.sections elf.sections 0 refl) [
      | inl (names, named, r) ↦ inl (names, named, rw (← counts.0, r, programs) refl)
      | inr (i, s, at, clean, r) ↦ inr (i, s, at, clean, rw (← counts.0, r) refl)
    ]
