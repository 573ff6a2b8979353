-- ===== src/Library/Device/Scope.antt =====
-- Programs that use the class of lib/device.hpp, and who owns which handle.
use pcie_sim.Base.{
  ℕ, ℤ, List, [], ◌∷◌, ◌++◌, Option, none, some, ◌>>=◌, get_elem?, set, ◌==◌, if◌then◌else◌,
}
use pcie_sim.Library.Backend.{Backend}
use pcie_sim.Library.Device.{
  Result, returned, thrown, Device, move_new, device_new, device_drop, move_assign, transfer,
  get_statistics, reset_statistics,
}

-- A statement on the devices of a scope, which are numbered as they were made. An exception is
-- caught where it is thrown.
pub data Statement : Type 0 where
  constructs : ℤ → Statement
  moves_new : ℕ → Statement
  moves_assign : ℕ → ℕ → Statement
  transfers : ℕ → ℕ → ℕ → Statement
  gets_statistics : ℕ → Statement
  resets_statistics : ℕ → Statement

module _ (b : Backend) where
  abbrev pub made : b.State → List Device → Result Device → b.State × List Device
  made s devices (returned device) = (s, devices ++ (device ∷ []))
  made s devices (thrown e) = (s, devices)

  -- A function of the device at an index; a device that is not there is not in the program's text.
  abbrev pub with_device :
      b.State
      → List Device
      → ℕ
      → (Device → Option (b.State × List Device))
      → Option (b.State × List Device)
  with_device s devices i f = elim (get_elem? devices i) [
    | none ↦ some (s, devices)
    | some device ↦ f device
  ]

  unfoldable pub execute : b.State → List Device → Statement → Option (b.State × List Device)
  execute s devices (constructs id) = device_new b s id >>= (λ (s', r). some (made s' devices r))
  execute s devices (moves_new j) = with_device s devices j (λ other.
      let (device, other') = move_new other in some (s, set devices j other' ++ (device ∷ [])))
  execute s devices (moves_assign i j) = with_device s devices i (λ this.
      with_device s devices j (λ other.
        if i == j
        then some (s, devices)
        else move_assign b s this other
          >>= (λ (s', this', other'). some (s', set (set devices i this') j other'))))
  execute s devices (transfers i size direction) =
      with_device s devices i
        (λ device. transfer b s device size direction >>= (λ (s', r). some (s', devices)))
  execute s devices (gets_statistics i) =
      with_device s devices i
        (λ device. get_statistics b s device >>= (λ (s', r). some (s', devices)))
  execute s devices (resets_statistics i) =
      with_device s devices i
        (λ device. reset_statistics b s device >>= (λ (s', r). some (s', devices)))

  -- The end of the scope: every device is destroyed.
  unfoldable pub leave : b.State → List Device → Option b.State
  leave s [] = some s
  leave s (device ∷ devices) = leave s devices >>= (λ s'. device_drop b s' device)

  -- The statements, and then the end of the scope.
  unfoldable pub scope : b.State → List Device → List Statement → Option b.State
  scope s devices [] = leave s devices
  scope s devices (statement ∷ statements) =
      execute s devices statement >>= (λ (s', devices'). scope s' devices' statements)
