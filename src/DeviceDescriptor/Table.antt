-- ===== src/DeviceDescriptor/Table.antt =====
-- What the table of the supported devices guarantees of a device that is found.
use mathlib.Core.List.{Mem, mem-cons_self, mem-cons_of_mem}
use mathlib.Core.Option.{some-injective, none-ne-some}
use programmer.Prelude.{
  ℕ, ◌+◌, ◌*◌, ◌/◌, ◌%◌, ◌^◌, ◌<◌, ◌≤◌, ◌≡◌, ◌≢◌, refl, sym, subst, none, List, [], ◌∷◌, ◌==◌,
  arith, All, Bool-cases, inl, inr, ◌⊎◌, some, Option-cases, Bool, true, leb, ◌&&◌,
}
use programmer.Exceptions.{ok, throw}
use programmer.DeviceDescriptor.{
  DeviceDescriptor, supported_devices, kb, find, find_device, from_option, get_id, get_revision,
}

-- What holds of each device of a list holds of the one that is found, which has the id.
find_device-All :
    (P : DeviceDescriptor → Type 0) (ds : List DeviceDescriptor) (id : ℕ) (d : DeviceDescriptor)
    → All P ds
    → find_device ds id ≡ some d
    → P d × (d.dev_id ≡ id)
unfolding find_device
find_device-All P [] id d ps e = absurd (none-ne-some d e)
find_device-All P (x ∷ ds) id d ps e = elim (Bool-cases (x.dev_id == id)) [
  | inl h ↦
      let same : x ≡ d = some-injective x d (rw h at e) in
      (subst P same ps.0, subst (λ y. y.dev_id ≡ id) same (ground arith))
  | inr h ↦ find_device-All P ds id d ps.1 (rw h at e)
]

-- The layout of a device: whole pages of 1024 bytes below the last program address, and eight
-- bytes of configuration words at the end of the last page.
pub record IsLaidOut (d : DeviceDescriptor) : Type 0 where
  pub pages : d.flash_size % 1024 ≡ 0
  pub config : d.config_address + 8 ≡ d.flash_size
  pub bounds : d.flash_size ≤ 0x1FFFFF + 1

abbrev is_laid_out : DeviceDescriptor → Bool
is_laid_out d =
    (d.flash_size % 1024 == 0)
    && (d.config_address + 8 == d.flash_size)
    && leb d.flash_size 0x200000

laid_out : (d : DeviceDescriptor) → is_laid_out d ≡ true → IsLaidOut d
laid_out d h = record { pages = ground arith; config = ground arith; bounds = ground arith }

abbrev every : (DeviceDescriptor → Bool) → List DeviceDescriptor → Bool
every p [] = true
every p (d ∷ ds) = p d && every p ds

every-All :
    (P : DeviceDescriptor → Type 0) (p : DeviceDescriptor → Bool)
    → ((d : DeviceDescriptor) → p d ≡ true → P d)
    → (ds : List DeviceDescriptor) → every p ds ≡ true
    → All P ds
every-All P p h [] e = tt
every-All P p h (d ∷ ds) e = (h d (ground arith), every-All P p h ds (ground arith))

supported_devices-IsLaidOut : All IsLaidOut supported_devices
unfolding supported_devices kb
supported_devices-IsLaidOut = every-All IsLaidOut is_laid_out laid_out supported_devices refl

find_device-Mem :
    (ds : List DeviceDescriptor) (id : ℕ) (d : DeviceDescriptor)
    → find_device ds id ≡ some d
    → Mem d ds
unfolding find_device
find_device-Mem [] id d e = absurd (none-ne-some d e)
find_device-Mem (x ∷ ds) id d e = elim (Bool-cases (x.dev_id == id)) [
  | inl h ↦
      let same : x ≡ d = some-injective x d (rw h at e) in
      subst (λ y. Mem y (x ∷ ds)) same mem-cons_self
  | inr h ↦ mem-cons_of_mem x (find_device-Mem ds id d (rw h at e))
]

find_device-none :
    (ds : List DeviceDescriptor) (id : ℕ) → find_device ds id ≡ none → All (λ d. d.dev_id ≢ id) ds
unfolding find_device
find_device-none [] id e = tt
find_device-none (x ∷ ds) id e = elim (Bool-cases (x.dev_id == id)) [
  | inl h ↦ absurd (none-ne-some x (sym (rw h at e)))
  | inr h ↦ ((λ same. ground (arith, h, same)), find_device-none ds id (rw h at e))
]

-- `find` of a word returns a device of the table whose id and the word's revision make up the word, and
-- which is laid out; or no device of the table has the word's id, and `find` throws.
pub find_lem :
    (dev_id : ℕ)
    → ((d : DeviceDescriptor) × (find dev_id ≡ ok d)
        × Mem d supported_devices
        × IsLaidOut d
        × (d.dev_id * 2 ^ 5 + get_revision dev_id ≡ dev_id))
      ⊎ ((find dev_id ≡ throw "Unknown device id.")
          × All (λ d. d.dev_id ≢ dev_id / 2 ^ 5) supported_devices)
unfolding find get_id get_revision from_option
find_lem dev_id = elim (Option-cases (find_device supported_devices (dev_id / 2 ^ 5))) [
  | inl e ↦ inr ((rw e refl), find_device-none supported_devices (dev_id / 2 ^ 5) e)
  | inr (d, e) ↦
      let found =
        find_device-All IsLaidOut supported_devices (dev_id / 2 ^ 5) d supported_devices-IsLaidOut
          e in
      let listed = find_device-Mem supported_devices (dev_id / 2 ^ 5) d e in
      inl (d, rw e refl, listed, found.0, omega (arith, found.1))
]

found :
    (d : DeviceDescriptor) (rev : ℕ)
    → rev < 2 ^ 5
    → find_device supported_devices d.dev_id ≡ some d
    → find (d.dev_id * 2 ^ 5 + rev) ≡ ok d
unfolding find get_id from_option
found d rev h e = let id : (d.dev_id * 2 ^ 5 + rev) / 2 ^ 5 ≡ d.dev_id = omega arith in rw (id, e)

-- Each supported device is found by its id with any revision below 32.
pub find-supported_devices :
    All (λ d. (rev : ℕ) → rev < 2 ^ 5 → find (d.dev_id * 2 ^ 5 + rev) ≡ ok d) supported_devices
unfolding supported_devices find_device
find-supported_devices = (
  (λ rev h. found _ rev h refl),
  (
    (λ rev h. found _ rev h refl),
    (
      (λ rev h. found _ rev h refl),
      (
        (λ rev h. found _ rev h refl),
        (
          (λ rev h. found _ rev h refl),
          (
            (λ rev h. found _ rev h refl),
            (
              (λ rev h. found _ rev h refl),
              ((λ rev h. found _ rev h refl), ((λ rev h. found _ rev h refl), tt)),
            ),
          ),
        ),
      ),
    ),
  ),
)
