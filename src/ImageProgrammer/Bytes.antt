-- ===== src/ImageProgrammer/Bytes.antt =====
-- `program` one byte at a time: the reference that the copying loop is compared with.
use programmer.Prelude.{
  ℕ, zero, suc, ◌+◌, ◌-◌, ◌/◌, ◌^◌, ◌≤◌, ◌<◌, ◌≡◌, refl, ap, Bool, true, false, ◌||◌, Option, none,
  some, List, [], ◌∷◌, ◌++◌, get_elem?, set, arith, ◌==◌, if◌then◌else◌,
}
use programmer.Image.{Section}
use programmer.Image.Contents.{or_else, byte_at, lookup}
use programmer.ImageProgrammer.{Cursor, switch_sector}
use programmer.ImageProgrammer.Flash.{touches, touched}

abbrev pub Cells : Type 0
Cells = List (ℕ × ℕ)

unfoldable pub put : Cursor → ℕ → ℕ → Cursor
put c a b =
    let c' = switch_sector c a in record c' { buffer = set c'.buffer (a - c'.sector_addr) b }

unfoldable pub put_all : Cursor → Cells → Cursor
put_all c [] = c
put_all c ((a, b) ∷ r) = put_all (put c a b) r

unfoldable pub cells : ℕ → List ℕ → Cells
cells start [] = []
cells start (x ∷ xs) = (start, x) ∷ cells (start + 1) xs

unfoldable pub all_cells : List Section → Cells
all_cells [] = []
all_cells (s ∷ ss) = cells s.address s.bytes ++ all_cells ss

unfoldable pub find : Cells → ℕ → Option ℕ
find [] a = none
find ((p, b) ∷ r) a = if a == p then some b else find r a

unfoldable pub near : Cells → ℕ → Bool
near [] a = false
near ((p, b) ∷ r) a = (a / 1024 == p / 1024) || near r a

-- The addresses rise, from `lo` on, below 2 ^ 32.
abbrev pub Ascends : ℕ → Cells → Type 0
Ascends lo [] = Unit {0}
Ascends lo ((a, b) ∷ r) = (lo ≤ a) × (a < 2 ^ 32) × Ascends (a + 1) r

pub put_all-append : (c : Cursor) (p q : Cells) → put_all c (p ++ q) ≡ put_all (put_all c p) q
unfolding put_all
put_all-append c [] q = refl
put_all-append c ((a, b) ∷ p) q = put_all-append (put c a b) p q

sub_sub : (p q a : ℕ) → a - p - q ≡ a - (p + q)
sub_sub p q a = omega arith

get_elem?-cons : (x : ℕ) (xs : List ℕ) (i : ℕ) → 0 < i → get_elem? (x ∷ xs) i ≡ get_elem? xs (i - 1)
get_elem?-cons x xs zero h = absurd (omega arith)
get_elem?-cons x xs (suc i) h = ap (get_elem? xs) (omega arith)

byte_at-cons :
    (start x : ℕ) (xs : List ℕ) (a : ℕ)
    → byte_at (record { address = start; bytes = x ∷ xs }) a
      ≡ (if a == start then some x else byte_at (record { address = start + 1; bytes = xs }) a)
unfolding byte_at
byte_at-cons start x xs a =
    ground (arith, get_elem?-cons x xs (a - start), ap (get_elem? xs) (sub_sub start 1 a))

find-append : (p q : Cells) (a : ℕ) → find (p ++ q) a ≡ or_else (find p a) (find q a)
unfolding find
find-append [] q a = refl
find-append ((i, b) ∷ p) q a = ground (arith, find-append p q a)

find-cells :
    (start : ℕ) (xs : List ℕ) (a : ℕ)
    → find (cells start xs) a ≡ byte_at (record { address = start; bytes = xs }) a
unfolding find cells
find-cells start [] a = unfold byte_at in ground arith
find-cells start (x ∷ xs) a = ground (arith, find-cells (start + 1) xs a, byte_at-cons start x xs a)

pub find-all_cells : (ss : List Section) (a : ℕ) → find (all_cells ss) a ≡ lookup ss a
unfolding all_cells lookup
find-all_cells [] a = unfold find in refl
find-all_cells (s ∷ ss) a = ground (
  arith,
  find-append (cells s.address s.bytes) (all_cells ss) a,
  find-cells s.address s.bytes a,
  find-all_cells ss a,
)

near-append : (p q : Cells) (a : ℕ) → near (p ++ q) a ≡ (near p a || near q a)
unfolding near
near-append [] q a = refl
near-append ((i, b) ∷ p) q a = ground (arith, near-append p q a)

near-cells : (start : ℕ) (xs : List ℕ) (a : ℕ) → near (cells start xs) a ≡ touches start xs a
unfolding near cells touches
near-cells start [] a = refl
near-cells start (x ∷ xs) a = ground (arith, near-cells (start + 1) xs a)

pub near-all_cells : (ss : List Section) (a : ℕ) → near (all_cells ss) a ≡ touched ss a
unfolding all_cells touched
near-all_cells [] a = unfold near in refl
near-all_cells (s ∷ ss) a = ground (
  arith,
  near-append (cells s.address s.bytes) (all_cells ss) a,
  near-cells s.address s.bytes a,
  near-all_cells ss a,
)

pub find_below : (lo : ℕ) (r : Cells) (a : ℕ) → Ascends lo r → a < lo → find r a ≡ none
unfolding find
find_below lo [] a h k = refl
find_below lo ((p, b) ∷ r) a h k = ground (arith, find_below (p + 1) r a h.2)

pub near_page : (lo : ℕ) (r : Cells) (a : ℕ) → Ascends lo r → near r a ≡ true → lo / 1024 ≤ a / 1024
unfolding near
near_page lo [] a h k = cc
near_page lo ((p, b) ∷ r) a h k = ground (arith, near_page (p + 1) r a h.2)
