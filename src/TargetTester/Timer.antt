-- ===== src/TargetTester/Timer.antt =====
-- Class Timer of src/TargetTester.cpp.
--
-- The calls of the system are a parameter, on a state of the system. `failed` stands for the
-- std::system_error with the code. The time is not negative; the due time that is passed is
-- negative, which makes it relative, and stands here without its sign.
use programmer.Prelude.{
  ℕ, ◌*◌, ◌≡◌, Bool, true, false, Option, none, some, u32, ◌==◌, if◌then◌else◌,
}
use programmer.Network.Socket.{Outcome, done, failed}

-- CreateWaitableTimer returns null or a handle, SetWaitableTimer is given the handle, the due time in
-- steps of 100 ns and the period in ms, and WaitForSingleObject the handle.
pub record Waitable (S : Type 0) : Type 0 where
  pub create_timer : S → S × Option ℕ
  pub set_timer : ℕ → ℕ → ℕ → S → S × Bool
  pub wait : ℕ → S → S × ℕ
  pub close : ℕ → S → S
  pub last_error : S → ℕ

abbrev pub wait_object_0 : ℕ
wait_object_0 = 0

abbrev pub wait_timeout : ℕ
wait_timeout = 0x102

module _ {S : Type 0} (system : Waitable S) where
  -- The second half of the constructor.
  unfoldable pub arm : ℕ → S × Option ℕ → S × Outcome ℕ
  arm time (s, none) = (s, failed (system.last_error s))
  arm time (s, some handle) =
      let r = system.set_timer handle (time * 100) (u32 time) s in
      (r.0, if r.1 then done handle else failed (system.last_error r.0))

  -- The constructor, which returns the handle.
  unfoldable pub create : ℕ → S → S × Outcome ℕ
  create time s = arm time (system.create_timer s)

  unfoldable pub destroy : ℕ → S → S
  destroy handle s = system.close handle s

  unfoldable pub check : ℕ → S → S × Outcome Bool
  check handle s =
      let r = system.wait handle s in
      (
        r.0,
        if r.1 == wait_object_0
            then done true
            else if r.1 == wait_timeout
            then done false
            else failed (system.last_error r.0),
      )

-- What is known of open handles: a new timer is open, and to set it does not close it.
pub record Opening {S : Type 0} (system : Waitable S) (IsOpen : S → ℕ → Type 0) : Type 0 where
  pub created :
      (s : S) (handle : ℕ)
      → (system.create_timer s).1 ≡ some handle
      → IsOpen (system.create_timer s).0 handle
  pub kept : (s : S) (h due period : ℕ) → IsOpen s h → IsOpen (system.set_timer h due period s).0 h

arm-IsOpen :
    {S : Type 0} (system : Waitable S) (IsOpen : S → ℕ → Type 0) (laws : Opening system IsOpen)
    (time : ℕ) (r : S × Option ℕ) (handle : ℕ)
    → r.1 ≡ some handle
    → IsOpen r.0 handle
    → IsOpen (arm system time r).0 handle
unfolding arm
arm-IsOpen system IsOpen laws time (s, none) handle e o = cc
arm-IsOpen system IsOpen laws time (s, some h) handle e o =
    let same : h ≡ handle = cc in rw same (laws.kept s handle (time * 100) (u32 time) o)

-- A handle that CreateWaitableTimer returned is open after the constructor of Timer, also where the
-- constructor throws, so that no destructor will close it.
pub create-IsOpen :
    {S : Type 0} (system : Waitable S) (IsOpen : S → ℕ → Type 0) (laws : Opening system IsOpen)
    (time : ℕ) (s : S) (handle : ℕ)
    → (system.create_timer s).1 ≡ some handle
    → IsOpen (create system time s).0 handle
unfolding create
create-IsOpen system IsOpen laws time s handle e =
    arm-IsOpen system IsOpen laws time (system.create_timer s) handle e (laws.created s handle e)
