-- ===== src/Programmer.antt =====
-- class Programmer and class IProgrammerStrategy of src/Programmer.cpp and
-- include/Programmer/Programmer.hpp.
--
-- The strategy is a record of its virtual methods over a state of its own; `Programmer` is a client
-- of any strategy.
pub mod Guards
use programmer.Prelude.{
  ℕ, ◌%◌, not, ◌||◌, List, [], ◌∷◌, length, ltb, ◌==◌, if◌then◌else◌, size_add, size_sub,
}
use programmer.Exceptions.{Result, Part, throw, rethrow, text}
use programmer.DeviceDescriptor.{erase_size, write_size}

pub record ProgrammerDescriptor : Type 0 where
  pub max_write : ℕ
  pub max_read : ℕ

-- class IProgrammerStrategy.
pub record ProgrammerStrategy (State : Type 0) : Type 0 where
  pub read : ℕ → ℕ → State → State × Result (List ℕ)
  pub write : ℕ → List ℕ → State → State × Result (Unit {0})
  pub erase : ℕ → State → State × Result (Unit {0})
  pub reset : State → State × Result (Unit {0})
  pub checksum : ℕ → ℕ → State → State × Result ℕ
  pub chip_erase : State → State × Result (Unit {0})
  pub erase_write : ℕ → List ℕ → State → State × Result (Unit {0})
  pub descriptor : ProgrammerDescriptor

-- What IProgrammerStrategy does for the methods that a strategy may leave out.
unfoldable pub not_supported {ℓ} : {State : Type 0} {A : Type ℓ} → State → State × Result A
not_supported s = (s, throw "Operation is not supported.")

-- A call with the exception of its result explained.
abbrev pub explain {ℓ} : {State : Type 0} {A : Type ℓ} → Part → State × Result A → State × Result A
explain part r = (r.0, rethrow part r.1)

module _ {State : Type 0} (programmer : ProgrammerStrategy State) where
  unfoldable pub read : ℕ → ℕ → State → State × Result (List ℕ)
  read address size s =
      explain
        (record {
          format = "Unable to read {} bytes from address {:#06X}.";
          args = size ∷ address ∷ [];
        })
        (if ltb programmer.descriptor.max_read size
          then (s, throw "Read size exceeds limit.")
          else programmer.read address size s)

  unfoldable pub write : ℕ → List ℕ → State → State × Result (Unit {0})
  write address buffer s =
      explain
        (record {
          format = "Write {} bytes at address {:#06X} failed.";
          args = length buffer ∷ address ∷ [];
        })
        (if not (address % write_size == 0)
          then (s, throw "Address isn't aligned to the sector size.")
          else if not (length buffer % write_size == 0)
          then (s, throw "Size isn't aligned to the sector size.")
          else if ltb programmer.descriptor.max_write (length buffer)
          then (s, throw "Size is beyond the capabilities of the programmer.")
          else programmer.write address buffer s)

  unfoldable pub erase : ℕ → State → State × Result (Unit {0})
  erase address s =
      explain
        (record { format = "Erase device memory at address {:#06X} failed."; args = address ∷ [] })
        (if not (address % erase_size == 0)
          then (s, throw "Address isn't aligned to erase block.")
          else programmer.erase address s)

  unfoldable pub chip_erase : State → State × Result (Unit {0})
  chip_erase s = explain (text "Chip erase failed.") (programmer.chip_erase s)

  -- The last call is `write`, as in the source.
  unfoldable pub erase_write : ℕ → List ℕ → State → State × Result (Unit {0})
  erase_write address buffer s =
      explain
        (record {
          format = "Erase and write {} bytes at address {:#06X} failed.";
          args = length buffer ∷ address ∷ [];
        })
        (if not (address % erase_size == 0)
          then (s, throw "Address isn't aligned to erase size.")
          else if not (length buffer % write_size == 0)
          then (s, throw "Size isn't aligned to the sector size.")
          else if ltb programmer.descriptor.max_write (length buffer)
              || ltb erase_size (length buffer)
          then (s, throw "Size is beyond the capabilities of the programmer.")
          else programmer.write address buffer s)

  unfoldable pub reset : State → State × Result (Unit {0})
  reset s = explain (text "Unable to reset device.") (programmer.reset s)

  unfoldable pub checksum : ℕ → ℕ → State → State × Result ℕ
  checksum address size s =
      explain
        (record {
          format = "Unable to checksum memory region {:#X} - {:#X}.";
          args = address ∷ size_sub (size_add address size) 1 ∷ [];
        })
        (programmer.checksum address size s)
