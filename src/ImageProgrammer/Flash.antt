-- ===== src/ImageProgrammer/Flash.antt =====
-- What the operations that `program` emits do to a flash memory, and what they should do.
use programmer.Prelude.{
  ℕ, ◌+◌, ◌-◌, ◌/◌, ◌≡◌, refl, Bool, false, ◌&&◌, ◌||◌, none, some, List, [], ◌∷◌, ◌++◌, get_or,
  leb, ltb, ◌==◌, if◌then◌else◌,
}
use programmer.Image.{Section}
use programmer.Image.Contents.{lookup}
use programmer.ImageProgrammer.{Operation, erased, written}

abbrev pub Flash : Type 0
Flash = ℕ → ℕ

-- Erasing sets the 1024 bytes of a page to 0xFF; writing stores the 64 bytes of a sector.
unfoldable pub apply : Operation → Flash → Flash
apply (erased p) f a = if leb p a && ltb a (p + 1024) then 0xFF else f a
apply (written p bytes) f a = if leb p a && ltb a (p + 64) then get_or bytes (a - p) 0 else f a

unfoldable pub run : List Operation → Flash → Flash
run [] f = f
run (o ∷ os) f = run os (apply o f)

pub run-append :
    (os : List Operation) (o : Operation) (f : Flash) → run (os ++ o ∷ []) f ≡ apply o (run os f)
unfolding run
run-append [] o f = refl
run-append (p ∷ os) o f = run-append os o (apply p f)

-- One of the bytes from `start` on lies in the page of `a`.
unfoldable pub touches : ℕ → List ℕ → ℕ → Bool
touches start [] a = false
touches start (x ∷ xs) a = (a / 1024 == start / 1024) || touches (start + 1) xs a

unfoldable pub touched : List Section → ℕ → Bool
touched [] a = false
touched (s ∷ ss) a = touches s.address s.bytes a || touched ss a

-- The flash that the image asks for: its bytes, 0xFF in the rest of the pages that it touches,
-- and no change elsewhere.
unfoldable pub programmed : List Section → Flash → Flash
programmed ss f a = elim (lookup ss a) [ some b ↦ b | none ↦ if touched ss a then 0xFF else f a ]
