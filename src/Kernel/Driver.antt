-- ===== src/Kernel/Driver.antt =====
-- kernel/driver.c: the life of the platform devices and of the module. What the kernel's calls
-- return is an argument. The driver core, which is not in the repository, calls the probe when a
-- platform device is added, calls the removal of a bound device when it is unregistered, and
-- clears the device's driver data when a probe fails and after a removal.
pub mod Probe
pub mod Module
use pcie_sim.Base.{
  ℕ, ◌+◌, zero, suc, Bool, true, false, not, List, [], ◌∷◌, Option, none, some, ◌>>=◌,
  if◌then◌else◌, leb, get_elem?, set, Errno, Ret, success, fail, einval, enomem,
}
use pcie_sim.Kernel.Ring.{Ring}
use pcie_sim.Kernel.Device.{Device, Stats, null, zero_stats}
use pcie_sim.Kernel.Ledger.{
  Ledger, free_memory, unregister_region, class_destroy, driver_unregister, platform_device_put,
}
use pcie_sim.Kernel.Nodes.{NodeAnswers, char_init, char_cleanup, proc_init, proc_cleanup}

-- DEVICE_COUNT
abbrev pub device_count : ℕ
device_count = 1

abbrev zero_ring : Ring
zero_ring = record {
  descriptors = none;
  desc_dma_addr = 0;
  size = 0;
  head = 0;
  tail = 0;
  count = 0;
  submissions = 0;
  completions = 0;
  overruns = 0;
}

-- The device that kzalloc returns, with what the probe writes to it first.
abbrev pub new_device : ℕ → Device
new_device id = record {
  devt = 0;
  dev = null;
  mutex = false;
  stats = zero_stats;
  proc_dir = null;
  proc_stats = null;
  bar0_virt = none;
  bar0_size = 0;
  tx_ring = zero_ring;
  rx_ring = zero_ring;
  pending_interrupts = 0;
  dma_active = 0;
  simulate_errors = false;
  fault_injection_rate = 0;
  error_scenario = 0;
  error_probability = 0;
  error_recovery_time_ms = 0;
  enabled = true;
  device_id = id;
}

-- One device number: whether pcie_sim_devices[] and driver_state.devices[] hold a pointer there,
-- whether the platform device has driver data, whether it is bound to the driver, and the device
-- structure that both pointers lead to, unless it is freed.
pub record Slot : Type 0 where
  pub platform : Bool
  pub bound : Bool
  pub drvdata : Bool
  pub listed : Bool
  pub mem : Option Device

-- What the kernel answers for one device: kzalloc, the files, platform_device_alloc and
-- platform_device_add.
pub record DeviceAnswers : Type 0 where
  pub memory : Bool
  pub nodes : NodeAnswers
  pub platform_alloc : Bool
  pub platform_add : Ret

-- The label err_char of the probe.
abbrev err_char : Errno → Ledger → Slot → Option (Ret × Ledger × Slot)
err_char e l s =
    free_memory l >>= (λ l'. some (fail e, l', record s { listed = false; mem = none }))

-- The probe after pcie_sim_char_init and after pcie_sim_proc_init.
abbrev probe_proc : Slot → Ret → Ledger → Device → Option (Ret × Ledger × Slot)
probe_proc s none l dev = some (success, l, record s { mem = some dev })
probe_proc s (some e) l dev = char_cleanup l dev >>= (λ (l', dev'). err_char e l' s)

abbrev probe_char : NodeAnswers → Slot → Ret → Ledger → Device → Option (Ret × Ledger × Slot)
probe_char a s (some e) l dev = err_char e l s
probe_char a s none l dev = proc_init a l dev >>= (λ (ret, l', dev'). probe_proc s ret l' dev')

-- pcie_sim_probe; `devt` is MKDEV of the driver's major number and of `id`.
unfoldable pub probe : DeviceAnswers → ℕ → ℕ → Ledger → Slot → Option (Ret × Ledger × Slot)
probe a devt id l s =
    if leb device_count id
    then some (fail einval, l, s)
    else (if not a.memory
        then some (fail enomem, l, s)
        else char_init a.nodes devt (record l { memory = suc l.memory }) (new_device id)
          >>= (λ (ret, l', dev).
              probe_char a.nodes
                (record s { drvdata = true; listed = true; mem = some (new_device id) }) ret l'
                dev))

-- pcie_sim_remove
unfoldable pub remove : Ledger → Slot → Option (Ledger × Slot)
remove l s =
    if not s.drvdata
    then some (l, s)
    else s.mem >>= (λ dev. proc_cleanup l dev >>= (λ (l', dev').
      char_cleanup l' dev' >>= (λ (l'', dev'').
        free_memory l'' >>= (λ l'''. some (l''', record s { listed = false; mem = none })))))

-- platform_device_add() of a device that the kernel takes: the core probes it.
abbrev pub bind : Ret × Ledger × Slot → Ledger × Slot
bind (none, l, s) = (l, record s { bound = true })
bind (some e, l, s) = (l, record s { drvdata = false })

-- platform_device_unregister(): the core removes a bound device.
abbrev pub unregister : Ledger → Slot → Option (Ledger × Slot)
unregister l s = (if s.bound then remove l s else some (l, s)) >>= (λ (l', s').
    platform_device_put l'
    >>= (λ l''. some (l'', record s' { platform = false; bound = false; drvdata = false })))

-- The loop body of destroy_platform_devices and of the clean-up in create_platform_devices.
abbrev pub destroy_one : Ledger → Slot → Option (Ledger × Slot)
destroy_one l s = if s.platform then unregister l s else some (l, s)

-- `pcie_sim_devices[i]` is unregistered and cleared.
abbrev pub destroy_at : ℕ → Ledger → List Slot → Option (Ledger × List Slot)
destroy_at i l slots =
    get_elem? slots i >>= (λ s. destroy_one l s >>= (λ (l', s'). some (l', set slots i s')))

-- `while (--i >= 0)` of create_platform_devices.
unfoldable pub unwind : ℕ → Ledger → List Slot → Option (Ledger × List Slot)
unwind zero l slots = some (l, slots)
unwind (suc i) l slots = destroy_at i l slots >>= (λ (l', slots'). unwind i l' slots')

-- What allocating and adding device `i` comes to; the last result says whether the loop goes on.
unfoldable pub create_one : DeviceAnswers → ℕ → ℕ → Ledger → Slot → Option (Ret × Ledger × Slot)
create_one a devt i l s =
    if not a.platform_alloc
    then some (fail enomem, l, record s { platform = false })
    else add (record l { platform_devices = suc l.platform_devices }) a.platform_add
  where
    add : Ledger → Ret → Option (Ret × Ledger × Slot)
    add l' (some e) =
        platform_device_put l' >>= (λ l''. some (fail e, l'', record s { platform = false }))
    add l' none =
        probe a devt i l' (record s { platform = true })
        >>= (λ out. let (l'', s') = bind out in some (success, l'', s'))

-- What the kernel answers while the module is loaded: alloc_chrdev_region, class_create,
-- platform_driver_register, what it answers for each device, and MKDEV for each device.
pub record ModuleAnswers : Type 0 where
  pub region : Ret
  pub class_create : Option Errno
  pub driver_register : Ret
  pub devices : ℕ → DeviceAnswers
  pub mkdev : ℕ → ℕ

-- The loop of create_platform_devices from device `i` on, with `n` devices to go.
unfoldable pub create_from :
    ModuleAnswers → ℕ → ℕ → Ledger → List Slot → Option (Ret × Ledger × List Slot)
create_from a zero i l slots = some (success, l, slots)
create_from a (suc n) i l slots = get_elem? slots i >>= (λ s.
    create_one (a.devices i) (a.mkdev i) i l s >>= (λ (ret, l', s'). elim ret [
      | none ↦ create_from a n (suc i) l' (set slots i s')
      | some e ↦ unwind i l' (set slots i s') >>= (λ (l'', slots'). some (fail e, l'', slots'))
    ]))

-- create_platform_devices
unfoldable pub create_platform_devices :
    ModuleAnswers → Ledger → List Slot → Option (Ret × Ledger × List Slot)
unfolding create_from
create_platform_devices a l slots = create_from a device_count 0 l slots

-- The loop of destroy_platform_devices.
unfoldable pub destroy_from : ℕ → ℕ → Ledger → List Slot → Option (Ledger × List Slot)
destroy_from zero i l slots = some (l, slots)
destroy_from (suc n) i l slots =
    destroy_at i l slots >>= (λ (l', slots'). destroy_from n (suc i) l' slots')

-- destroy_platform_devices
unfoldable pub destroy_platform_devices : Ledger → List Slot → Option (Ledger × List Slot)
unfolding destroy_from
destroy_platform_devices l slots = destroy_from device_count 0 l slots

-- The labels err_class and err_driver of the module's initialization.
abbrev err_class : Errno → Ledger → List Slot → Option (Ret × Ledger × List Slot)
err_class e l slots = unregister_region l >>= (λ l'. some (fail e, l', slots))

abbrev err_driver : Errno → Ledger → List Slot → Option (Ret × Ledger × List Slot)
err_driver e l slots = class_destroy l >>= (λ l'. err_class e l' slots)

abbrev err_devices : Errno → Ledger → List Slot → Option (Ret × Ledger × List Slot)
err_devices e l slots = driver_unregister l >>= (λ l'. err_driver e l' slots)

-- The initialization after create_platform_devices.
abbrev devices_created : Ret × Ledger × List Slot → Option (Ret × Ledger × List Slot)
devices_created (none, l, slots) = some (success, l, slots)
devices_created (some e, l, slots) = err_devices e l slots

abbrev driver_registered :
    ModuleAnswers → Ret → Ledger → List Slot → Option (Ret × Ledger × List Slot)
driver_registered a (some e) l slots = err_driver e l slots
driver_registered a none l slots =
    create_platform_devices a (record l { drivers = suc l.drivers }) slots >>= devices_created

abbrev class_created :
    ModuleAnswers → Option Errno → Ledger → List Slot → Option (Ret × Ledger × List Slot)
class_created a (some e) l slots = err_class e l slots
class_created a none l slots =
    driver_registered a a.driver_register (record l { classes = suc l.classes }) slots

abbrev region_allocated :
    ModuleAnswers → Ret → Ledger → List Slot → Option (Ret × Ledger × List Slot)
region_allocated a (some e) l slots = some (fail e, l, slots)
region_allocated a none l slots =
    class_created a a.class_create (record l { regions = suc l.regions }) slots

-- pcie_sim_init of kernel/driver.c
unfoldable pub module_init : ModuleAnswers → Ledger → List Slot → Option (Ret × Ledger × List Slot)
module_init a l slots = region_allocated a a.region l slots

-- pcie_sim_exit
unfoldable pub module_exit : Ledger → List Slot → Option (Ledger × List Slot)
module_exit l slots = destroy_platform_devices l slots >>= (λ (l₁, slots').
    driver_unregister l₁
    >>= (λ l₂. class_destroy l₂ >>= (λ l₃. unregister_region l₃ >>= (λ l₄. some (l₄, slots')))))
