-- ===== src/Kernel/Ledger.antt =====
-- What the driver holds of the kernel, counted: what a call of the kernel hands out adds 1, and what
-- is handed back takes 1 away, a fault where none is held.
use pcie_sim.Base.{ℕ, zero, suc, Option, none, some, ◌>>=◌}

pub record Ledger : Type 0 where
  pub memory : ℕ
  pub cdevs : ℕ
  pub nodes : ℕ
  pub proc_entries : ℕ
  pub regions : ℕ
  pub classes : ℕ
  pub drivers : ℕ
  pub platform_devices : ℕ

abbrev pub one_less : ℕ → Option ℕ
one_less zero = none
one_less (suc n) = some n

-- kfree()
abbrev pub free_memory : Ledger → Option Ledger
free_memory l = one_less l.memory >>= (λ n. some (record l { memory = n }))

-- cdev_del()
abbrev pub cdev_del : Ledger → Option Ledger
cdev_del l = one_less l.cdevs >>= (λ n. some (record l { cdevs = n }))

-- device_destroy()
abbrev pub device_destroy : Ledger → Option Ledger
device_destroy l = one_less l.nodes >>= (λ n. some (record l { nodes = n }))

-- proc_remove()
abbrev pub proc_remove : Ledger → Option Ledger
proc_remove l = one_less l.proc_entries >>= (λ n. some (record l { proc_entries = n }))

-- unregister_chrdev_region()
abbrev pub unregister_region : Ledger → Option Ledger
unregister_region l = one_less l.regions >>= (λ n. some (record l { regions = n }))

-- class_destroy()
abbrev pub class_destroy : Ledger → Option Ledger
class_destroy l = one_less l.classes >>= (λ n. some (record l { classes = n }))

-- platform_driver_unregister()
abbrev pub driver_unregister : Ledger → Option Ledger
driver_unregister l = one_less l.drivers >>= (λ n. some (record l { drivers = n }))

-- platform_device_put(), and the end of platform_device_unregister()
abbrev pub platform_device_put : Ledger → Option Ledger
platform_device_put l =
    one_less l.platform_devices >>= (λ n. some (record l { platform_devices = n }))
