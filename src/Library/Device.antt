-- ===== src/Library/Device.antt =====
-- lib/device.hpp: the C++ class that owns a handle, and the manager of devices. A function returns
-- or throws; `none` is undefined behaviour.
pub mod Owners
pub mod Members
pub mod Scope
pub mod Ownership
pub mod Manager
use Prim.Native.Nat.{zero, suc}
use pcie_sim.Base.{
  ℕ, ℤ, pos, negsuc, ◌+◌, ◌*◌, Bool, true, false, List, [], ◌∷◌, Option, none, some, ◌>>=◌, is_some,
  u64,
}
use pcie_sim.Api.{Error, Stats, success, to_device, from_device}
use pcie_sim.Library.Backend.{Backend}

-- A function returns, or throws a `DeviceError` with its code.
pub data Result {ℓ} (A : Type ℓ) : Type ℓ where
  returned : A → Result A
  thrown : Error → Result A

-- `Device`
pub record Device : Type 0 where
  pub handle : Option ℕ

-- `handle_ = nullptr`
abbrev pub empty : Device
empty = record { handle = none }

-- `if (err != PCIE_SIM_SUCCESS) throw DeviceError(err);`
abbrev pub checked {ℓ} : {A : Type ℓ} → Error → A → Result A
checked success a = returned a
checked e a = thrown e

-- The same before a local variable is read: it was never written if nothing was stored.
abbrev pub checked_value {ℓ} : {A : Type ℓ} → Error → Option A → Option (Result A)
checked_value success none = none
checked_value success (some a) = some (returned a)
checked_value e a = some (thrown e)

-- The move constructor: the new device, and the one that was moved.
unfoldable pub move_new : Device → Device × Device
move_new other = (record { handle = other.handle }, empty)

-- is_valid
unfoldable pub is_valid : Device → Bool
is_valid device = is_some device.handle

module _ (b : Backend) where
  -- The constructor.
  unfoldable pub device_new : b.State → ℤ → Option (b.State × Result Device)
  device_new s device_id =
      b.opens s device_id true >>= (λ (s', e, h). some (s', checked e (record { handle = h })))

  -- The destructor.
  unfoldable pub device_drop : b.State → Device → Option b.State
  device_drop s device = elim device.handle [
    | none ↦ some s
    | some p ↦ b.closes s (some p) >>= (λ (s', e). some s')
  ]

  -- The move assignment of another object than `*this`.
  unfoldable pub move_assign : b.State → Device → Device → Option (b.State × Device × Device)
  move_assign s this other =
      device_drop s this >>= (λ s'. some (s', record { handle = other.handle }, empty))

  -- Device::transfer
  unfoldable pub transfer : b.State → Device → ℕ → ℕ → Option (b.State × Result ℕ)
  transfer s device size direction =
      b.transfers s device.handle true size direction true
      >>= (λ (s', e, latency). checked_value e latency >>= (λ r. some (s', r)))

  -- Device::write and Device::read, of so many elements of such a size.
  unfoldable pub write : b.State → Device → ℕ → ℕ → Option (b.State × Result ℕ)
  write s device elements element_size = transfer s device (u64 (elements * element_size)) to_device

  unfoldable pub read : b.State → Device → ℕ → ℕ → Option (b.State × Result ℕ)
  read s device elements element_size =
      transfer s device (u64 (elements * element_size)) from_device

  -- Device::get_statistics
  unfoldable pub get_statistics : b.State → Device → Option (b.State × Result Stats)
  get_statistics s device =
      b.gets_stats s device.handle true
      >>= (λ (s', e, stats). checked_value e stats >>= (λ r. some (s', r)))

  -- Device::reset_statistics
  unfoldable pub reset_statistics : b.State → Device → Option (b.State × Result (Unit {0}))
  reset_statistics s device =
      b.resets_stats s device.handle >>= (λ (s', e). some (s', checked e tt))

  -- What follows the construction of a device: an exception ends the loop.
  abbrev pub then_rest :
      b.State → Result Device → Option (b.State × List Device) → Option (b.State × List Device)
  then_rest s (thrown e) rest = some (s, [])
  then_rest s (returned device) rest = rest >>= (λ (s', devices). some (s', device ∷ devices))

  -- The loop of DeviceManager::open_all_devices: so many devices from a number on.
  unfoldable pub open_from : b.State → ℕ → ℕ → Option (b.State × List Device)
  open_from s i zero = some (s, [])
  open_from s i (suc more) =
      device_new s (pos i) >>= (λ (s', r). then_rest s' r (open_from s' (i + 1) more))

  -- DeviceManager::open_all_devices
  unfoldable pub open_all_devices : b.State → ℤ → Option (b.State × List Device)
  open_all_devices s (pos max_devices) = open_from s 0 max_devices
  open_all_devices s (negsuc n) = some (s, [])
