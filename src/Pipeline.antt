-- ===== src/Pipeline.antt =====
-- From a file to the flash: the last blocks of `main` in src/Main.cpp, under `if (0)`. A file is read
-- into an Image (class Image of include/Programmer/Image.hpp), which an ImageProgrammer programs.
pub mod Touched
pub mod Blocks
pub mod Files
use programmer.Prelude.{ℕ, List, [], ◌∷◌, Option}
use programmer.Exceptions.{Result, ok, ◌>>=◌}
use programmer.Image
use programmer.Image.{Section}
use programmer.Hex
use programmer.Hex.{ImageInterface}
use programmer.Elf.{construct, read_image, read_image2}

-- Class Image as the interface that the readers use.
abbrev pub image : ImageInterface
image = record { State = List Section; process = Image.process }

-- Blocks that are put into an image, one after the other.
unfoldable pub process_all : List Section → List Section → Result (List Section)
process_all ss [] = ok ss
process_all ss (b ∷ bs) = Image.process ss b.address b.bytes >>= λ ss'. process_all ss' bs

-- The image of each block of `main`, from the contents of its file; the second is programmed.
unfoldable pub elf_sections_image : List ℕ → Result (List Section)
elf_sections_image file = construct file >>= λ elf. read_image2 file elf.sections []

unfoldable pub elf_image : List ℕ → Result (List Section)
elf_image file = construct file >>= λ elf. read_image file elf.programs []

unfoldable pub hex_image : Option (List (List ℕ)) → Result (List Section)
hex_image file = Hex.read image file []
