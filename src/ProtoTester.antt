-- ===== src/ProtoTester.antt =====
-- class TargetProtoTester of src/TargetTester.cpp, and `main` of src/Main.cpp, which runs it (as
-- BOOT_TESTER is defined there).
--
-- The strategy is the network programmer, to which `run_tests` casts it. A test is a method call
-- and the status that is expected of the device. Output to stdout is left out.
pub mod Expected
pub mod Judged
use programmer.Prelude.{
  ℕ, ◌+◌, ◌-◌, ◌*◌, ◌%◌, ◌^◌, List, [], ◌∷◌, length, replicate, u32, ltb, ◌==◌, if◌then◌else◌,
  Option, some, none,
}
use programmer.Exceptions.{
  Result, ok, throws, fault, Fault, throw, exception, target_error, socket_exception, wide_string,
}
use programmer.Protocol.Status
use programmer.NetworkProgrammer
use programmer.NetworkProgrammer.{NetworkProgrammer, Action, ◌>>◌, ◌>>=◌}
use programmer.TargetTester.{same_bytes}

-- The comparison at the end of `run_test`. What a test assigns is kept, where it returned.
unfoldable pub expect {ℓ} : {A : Type ℓ} → Option A → ℕ → ℕ → Result (Option A)
expect value expected status =
    if status == expected
    then ok value
    else throws (
        exception (
          record { format = "Invalid result {}. Expected {}."; args = status ∷ expected ∷ [] }
          ∷ []))

-- `catch (ETarget& err)`: the others pass.
unfoldable pub judge {ℓ} : {A : Type ℓ} → ℕ → Result A → Result (Option A)
judge expected (ok a) = expect (some a) expected Status.done
judge expected (throws (exception m)) = throws (exception m)
judge expected (throws (target_error s m)) = expect none expected s
judge expected (throws socket_exception) = throws socket_exception
judge expected (throws (wide_string s)) = throws (wide_string s)
judge expected (fault f) = fault f

unfoldable pub run_test {ℓ} : {A : Type ℓ} → ℕ → Action A → Action (Option A)
run_test expected fun p = ((fun p).0, judge expected (fun p).1)

-- A test whose value is not kept.
abbrev pub run {ℓ} : {A : Type ℓ} → ℕ → Action A → Action (Unit {0})
run expected fun = run_test expected fun >>= λ value p. (p, ok tt)

-- `boot_base &= ~(2048 - 1)`.
unfoldable pub boot_base_of : ℕ → ℕ
boot_base_of address = address - address % 2048

-- uint32_t.
unfoldable pub below : ℕ → ℕ → ℕ
below address n = u32 (address + 2 ^ 32 - n)

abbrev pub tmp63 : List ℕ
tmp63 = replicate 63 0x55

abbrev pub tmp64 : List ℕ
tmp64 = replicate 64 0xAA

abbrev pub tmp128 : List ℕ
tmp128 = replicate 128 0xAA

-- The reads.
unfoldable pub run_read_tests : Action (Unit {0})
run_read_tests = do
  run Status.inv_addr (NetworkProgrammer.read 0x01000000 4)
  run Status.inv_addr (NetworkProgrammer.read 0x00400000 4)
  run Status.inv_length (NetworkProgrammer.read 1024 1024)
  run Status.inv_length (NetworkProgrammer.read 1024 63)
  run Status.done (NetworkProgrammer.read 1024 64)

-- The erases.
unfoldable pub run_erase_tests : ℕ → Action (Unit {0})
run_erase_tests boot_base = do
  run Status.inv_addr (NetworkProgrammer.erase 1)
  run Status.inv_addr (NetworkProgrammer.erase 512)
  run Status.inv_addr (NetworkProgrammer.erase 0x200000)
  run Status.protected_addr (NetworkProgrammer.erase boot_base)
  run Status.protected_addr (NetworkProgrammer.erase (u32 (boot_base + 1024)))
  run Status.done (NetworkProgrammer.erase 1024)
  run Status.done (NetworkProgrammer.erase (u32 (boot_base + 2048)))

-- The writes.
unfoldable pub run_write_tests : ℕ → Action (Unit {0})
run_write_tests boot_base = do
  run Status.inv_addr (NetworkProgrammer.write 63 tmp64)
  run Status.inv_length (NetworkProgrammer.write 64 tmp63)
  run Status.protected_addr (NetworkProgrammer.write (below boot_base 64) tmp128)
  run Status.protected_addr (NetworkProgrammer.write (u32 (boot_base + 1984)) tmp128)
  run Status.protected_addr (NetworkProgrammer.write boot_base tmp64)
  run Status.protected_addr (NetworkProgrammer.write (u32 (boot_base + 1984)) tmp64)
  run Status.protected_addr (NetworkProgrammer.write (u32 (boot_base + 1088)) tmp64)
  run Status.done (NetworkProgrammer.write (below boot_base 64) tmp64)
  run Status.done (NetworkProgrammer.write 64 tmp64)

-- The memcmp with `tmp64` of what was read: of a span that is empty before.
unfoldable pub compare_read : Option (List ℕ) → Result (Unit {0})
compare_read none = ok tt
compare_read (some rcv) =
    if ltb 64 (length rcv)
    then fault Fault.out_of_bounds
    else if same_bytes rcv tmp64
    then ok tt
    else throw "Received invalid data."

unfoldable pub run_last_test : Action (Unit {0})
run_last_test = do
  rcv ← run_test Status.done (NetworkProgrammer.read 1152 64)
  λ p. (p, compare_read rcv)

unfoldable pub run_tests : Action (Unit {0})
run_tests p =
    let boot_base = boot_base_of p.bootloader.address in
    (run_read_tests >> (run_erase_tests boot_base >> (run_write_tests boot_base >> run_last_test)))
      p

-- `catch (std::exception& err)`: a wide string is none.
unfoldable pub exit_code : Result (Unit {0}) → Result ℕ
exit_code (ok done) = ok 0
exit_code (throws (exception m)) = ok 0
exit_code (throws (target_error s m)) = ok 0
exit_code (throws socket_exception) = ok 0
exit_code (throws (wide_string s)) = throws (wide_string s)
exit_code (fault f) = fault f

-- 10.11.12.3, as inet_pton leaves it in memory; the programmer is made of what memory holds.
unfoldable pub main : NetworkProgrammer → NetworkProgrammer × Result ℕ
main garbage =
    let ip = 10 + 11 * 2 ^ 8 + 12 * 2 ^ 16 + 3 * 2 ^ 24 in
    let r =
      (NetworkProgrammer.configure_device ip 666 >> run_tests) (NetworkProgrammer.create garbage) in
    (r.0, exit_code r.1)
