-- ===== src/Image.antt =====
-- MemoryBlock, Section and Image of include/Programmer/Image.hpp and src/Image.cpp.
--
-- The state of an `Image` is its list of sections. Addresses are size_t of 64 bits. Output to
-- std::cout is left out.
pub mod Contents
pub mod Join
use programmer.Prelude.{
  ℕ, Bool, ◌&&◌, List, [], ◌∷◌, ◌++◌, length, replicate, size_add, leb, ◌==◌, if◌then◌else◌,
}
use programmer.Exceptions.{Result, ok, ◌>>=◌, throw}

pub record MemoryBlock : Type 0 where
  pub address : ℕ
  pub bytes : List ℕ

pub record Section : Type 0 where
  pub address : ℕ
  pub bytes : List ℕ

unfoldable pub block_end_address : MemoryBlock → ℕ
block_end_address b = size_add b.address (length b.bytes)

unfoldable pub end_address : Section → ℕ
end_address s = size_add s.address (length s.bytes)

-- The two constructors of `Section`.
unfoldable pub of_block : MemoryBlock → Section
of_block b = record { address = b.address; bytes = b.bytes }

unfoldable pub of_size : ℕ → ℕ → Section
of_size address size = record { address = address; bytes = replicate size 0 }

unfoldable pub add : Section → MemoryBlock → Result Section
add s b =
    if block_end_address b == s.address
    then ok (record { address = b.address; bytes = b.bytes ++ s.bytes })
    else if b.address == end_address s
    then ok (record { address = s.address; bytes = s.bytes ++ b.bytes })
    else throw "Overlapping memory blocks."

unfoldable pub joinable : Section → MemoryBlock → Bool
joinable s b = leb s.address (block_end_address b) && leb b.address (end_address s)

-- The loop over the sections: the block goes to the first that it can be joined to, and becomes
-- a section of its own where there is none.
unfoldable pub join_first : List Section → MemoryBlock → Result (List Section)
join_first [] b = ok (of_block b ∷ [])
join_first (s ∷ ss) b =
    if joinable s b
    then (add s b >>= λ s'. ok (s' ∷ ss))
    else (join_first ss b >>= λ ss'. ok (s ∷ ss'))

unfoldable pub process : List Section → ℕ → List ℕ → Result (List Section)
process ss address [] = ok ss
process ss address (x ∷ xs) = join_first ss (record { address = address; bytes = x ∷ xs })

-- The overload that reserves a section; the caller then writes through the span of its bytes.
unfoldable pub process_size : List Section → ℕ → ℕ → List Section
process_size ss address size = ss ++ of_size address size ∷ []
