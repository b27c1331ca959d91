-- ===== src/Elf/Sections.antt =====
-- The image that `read_image2` makes of a file.
use programmer.Prelude.{
  ℕ, zero, suc, ◌+◌, ◌-◌, ◌^◌, ◌≤◌, ◌<◌, ◌≡◌, ◌⊎◌, ◌≢◌, some, get_elem?, refl, sym, subst, ap, ◌∙◌,
  false, List, [], ◌∷◌, ◌++◌, length, take, drop, replicate, All, ◌==◌, bit_and, if◌then◌else◌,
  Bool-cases, inl, inr, arith,
}
use mathlib.Core.List.{append-nil, append_assoc}
use programmer.Exceptions.{ok, fault, Fault, >>=-ok_inv, ok-injective, throw_if-ok}
use programmer.Image.{Section, process_size}
use programmer.Elf.Constructed.{construct-Constructed}
use programmer.Elf.Structs.{SectionHeader, section_header_of}
use programmer.Elf.{
  Elf, construct, read_sections, read_entry, read_image2, write_span, invalid_section,
}
use programmer.Elf.Loads.{write_span-process_size, read-inside}

-- The section of a header: its bytes in the file, at its virtual address.
abbrev pub contents_of : List ℕ → SectionHeader → Section
contents_of file h = record { address = h.vaddr; bytes = take h.size (drop h.off file) }

abbrev pub progbits_of : List ℕ → List SectionHeader → List Section
progbits_of file [] = []
progbits_of file (h ∷ hs) =
    let rest = progbits_of file hs in if h.type == 1 then contents_of file h ∷ rest else rest

-- A section with content, which lies inside the file.
abbrev pub IsInside : List ℕ → SectionHeader → Type 0
IsInside file h = ((h.type == 1) ≡ false) ⊎ (h.off + h.size ≤ length file)

write_span-contents_of :
    (file : List ℕ) (h : SectionHeader) (image : List Section)
    → h.off + h.size ≤ length file
    → write_span (process_size image h.vaddr h.size) (take h.size (drop h.off file))
      ≡ image ++ contents_of file h ∷ []
write_span-contents_of file h image i =
    let none' : h.size - h.size ≡ 0 = omega arith in
    write_span-process_size file image h.vaddr h.off h.size h.size (omega arith) i
    ∙ ap (λ bs. image ++ record { address = h.vaddr; bytes = bs } ∷ [])
        (ap (λ n. take h.size (drop h.off file) ++ replicate n 0) none'
          ∙ append-nil (take h.size (drop h.off file)))

-- A header that `read_image2` stops at: SHT_PROGBITS without SHF_ALLOC.
abbrev pub IsUnallocated : SectionHeader → Type 0
IsUnallocated h = (h.type ≡ 1) × (bit_and h.flags 2 ≡ 0)

read_image2-cases :
    (file : List ℕ) (hs : List SectionHeader) (image : List Section)
    → All (IsInside file) hs
    → (All (λ h. (h.type ≢ 1) ⊎ (bit_and h.flags 2 ≢ 0)) hs
        × (read_image2 file hs image ≡ ok (image ++ progbits_of file hs)))
      ⊎ ((i : ℕ) × (h : SectionHeader) × (get_elem? hs i ≡ some h)
          × IsUnallocated h
          × (read_image2 file hs image ≡ fault Fault.assertion))
unfolding read_image2
read_image2-cases file [] image i = inl (tt, ap ok (sym (append-nil image)))
read_image2-cases file (h ∷ hs) image i = elim (Bool-cases (h.type == 1)) [
  | inr e ↦
      let other : h.type ≢ 1 = λ z. absurd (ground arith) in
      elim (read_image2-cases file hs image i.1) [
        | inl (all, r) ↦ inl ((inl other, all), rw e r)
        | inr (k, g, at, bad, r) ↦ inr (suc k, g, at, bad, rw e r)
      ]
  | inl e ↦ elim (Bool-cases (bit_and h.flags 2 == 0)) [
    | inl f ↦ inr (0, h, refl, (ground arith, ground arith), rw (e, f) refl)
    | inr f ↦
        let allocated : bit_and h.flags 2 ≢ 0 = λ z. absurd (ground arith) in
        let inside : h.off + h.size ≤ length file = elim i.0 [
          | inl n ↦ absurd (ground arith)
          | inr l ↦ l
        ] in
        let more = image ++ contents_of file h ∷ [] in
        elim (read_image2-cases file hs more i.1) [
          | inl (all, r) ↦ inl (
            (inr allocated, all),
            rw
                (
                  e,
                  f,
                  read-inside file h.off h.size inside,
                  write_span-contents_of file h image inside,
                )
                (r ∙ ap ok (append_assoc image (contents_of file h ∷ []) (progbits_of file hs))),
          )
          | inr (k, g, at, bad, r) ↦ inr (
            suc k,
            g,
            at,
            bad,
            rw
                (
                  e,
                  f,
                  read-inside file h.off h.size inside,
                  write_span-contents_of file h image inside,
                )
                r,
          )
        ]
  ]
]

-- What the test of `read_sections` lets through.
abbrev IsTested : ℕ → SectionHeader → Type 0
IsTested file_size h = invalid_section file_size h ≡ false

read_sections-IsTested :
    (file : List ℕ) (entsize n pos : ℕ) (hs : List SectionHeader)
    → read_sections file entsize n pos ≡ ok hs
    → All (IsTested (length file)) hs
unfolding read_sections
read_sections-IsTested file entsize zero pos hs e =
    subst (All (IsTested (length file))) (ok-injective [] hs e) tt
read_sections-IsTested file entsize (suc n) pos hs e =
    let entry = >>=-ok_inv (read_entry file pos 40) _ hs e in
    let tested = throw_if-ok _ "Invalid section header." _ hs entry.2 in
    let rest = >>=-ok_inv (read_sections file entsize n (pos + entsize)) _ hs tested.1 in
    let all : All (IsTested (length file)) (section_header_of entry.0 ∷ rest.0) =
      (tested.0, read_sections-IsTested file entsize n (pos + entsize) rest.0 rest.1) in
    subst (All (IsTested (length file))) (ok-injective _ hs rest.2) all

construct-IsTested :
    (file : List ℕ) (elf : Elf)
    → construct file ≡ ok elf
    → All (IsTested (length file)) elf.sections
construct-IsTested file elf e =
    read_sections-IsTested file elf.file_header.shentsize elf.file_header.shnum
      elf.file_header.shoff elf.sections (construct-Constructed file elf e).sections

-- A section whose end does not wrap.
abbrev pub IsPlain : SectionHeader → Type 0
IsPlain h = h.off + h.size < 2 ^ 32

IsTested-IsInside :
    (file : List ℕ) (hs : List SectionHeader)
    → All (IsTested (length file)) hs
    → All IsPlain hs
    → All (IsInside file) hs
unfolding invalid_section
IsTested-IsInside file [] t p = tt
IsTested-IsInside file (h ∷ hs) t p =
    let rest = IsTested-IsInside file hs t.1 p.1 in
    let plain = p.0 in
    let test = t.0 in
    elim (Bool-cases (h.type == 1)) [ inl e ↦ (inr (ground arith), rest) | inr e ↦ (inl e, rest) ]

-- From a file that the constructor accepts, `read_image2` adds to an image a section for each
-- header of type SHT_PROGBITS, in their order: at the virtual address, the bytes of the file. There is no
-- exception and no fault, and all these headers have SHF_ALLOC; or one of them has not, and its
-- assertion fails. The condition on the headers is that the end of their content is below 2 ^ 32.
pub construct-read_image2 :
    (file : List ℕ) (elf : Elf) (image : List Section)
    → construct file ≡ ok elf
    → All IsPlain elf.sections
    → (All (λ h. (h.type ≢ 1) ⊎ (bit_and h.flags 2 ≢ 0)) elf.sections
        × (read_image2 file elf.sections image ≡ ok (image ++ progbits_of file elf.sections)))
      ⊎ ((i : ℕ) × (h : SectionHeader) × (get_elem? elf.sections i ≡ some h)
          × IsUnallocated h
          × (read_image2 file elf.sections image ≡ fault Fault.assertion))
construct-read_image2 file elf image e p =
    read_image2-cases file elf.sections image
      (IsTested-IsInside file elf.sections (construct-IsTested file elf e) p)
