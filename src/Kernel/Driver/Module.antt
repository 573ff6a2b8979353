-- ===== src/Kernel/Driver/Module.antt =====
-- Loading and unloading the module of kernel/driver.c.
use pcie_sim.Base.{
  ℕ, suc, ◌≡◌, ◌⊎◌, inl, inr, refl, Bool, true, false, List, [], ◌∷◌, Option, none, some, Errno,
  Ret, success, fail, enomem, arith, Returns, Returns-some,
}
use pcie_sim.Kernel.Ledger.{Ledger}
use pcie_sim.Kernel.Nodes.{char_init, char_cleanup, proc_init, proc_cleanup}
use pcie_sim.Kernel.Driver.{
  Slot, DeviceAnswers, ModuleAnswers, probe, remove, destroy_one, create_one, create_from,
  create_platform_devices, destroy_from, destroy_platform_devices, unwind, module_init, module_exit,
}
use pcie_sim.Kernel.Driver.Probe.{answers}

-- A device number before the module is loaded.
abbrev pub empty_slot : Slot
empty_slot = record { platform = false; bound = false; drvdata = false; listed = false; mem = none }

-- A platform device was created, and destroying it gives everything back; or nothing was taken.
abbrev Created : Ledger → Ret × Ledger × Slot → Type 0
Created l (ret, l', s') =
    ((ret ≡ success) × (destroy_one l' s' ≡ some (l, empty_slot)))
    ⊎ ((e : Errno) × (ret ≡ fail e) × (l' ≡ l) × (s' ≡ empty_slot))

create_cases :
    (memory : Bool) (cdev : Ret) (file_node : Option Errno) (dir file alloc : Bool) (add : Ret)
    (devt : ℕ) (l : Ledger)
    → Returns
        (create_one (answers memory cdev file_node dir file alloc add) devt 0 l empty_slot)
        (Created l)
unfolding create_one probe char_init char_cleanup proc_init proc_cleanup remove
create_cases memory cdev file_node dir file false add devt l = inr (enomem, refl, refl, refl)
create_cases memory cdev file_node dir file true (some e) devt l = inr (e, refl, refl, refl)
create_cases false cdev file_node dir file true none devt l = inl (refl, refl)
create_cases true (some e) file_node dir file true none devt l = inl (refl, refl)
create_cases true none (some e) dir file true none devt l = inl (refl, refl)
create_cases true none none false file true none devt l = inl (refl, refl)
create_cases true none none true false true none devt l = inl (refl, refl)
create_cases true none none true true true none devt l = inl (refl, refl)

create_lem :
    (a : DeviceAnswers) (devt : ℕ) (l : Ledger)
    → Returns (create_one a devt 0 l empty_slot) (Created l)
create_lem a devt l =
    create_cases a.memory a.nodes.cdev_add a.nodes.device_create a.nodes.proc_mkdir
      a.nodes.proc_create_data a.platform_alloc a.platform_add devt l

-- The module is loaded, and unloading it gives everything back; or nothing was taken.
abbrev pub Loaded : Ledger → Ret × Ledger × List Slot → Type 0
Loaded l (ret, l', slots') =
    ((ret ≡ success) × (module_exit l' slots' ≡ some (l, empty_slot ∷ [])))
    ⊎ ((e : Errno) × (ret ≡ fail e) × (l' ≡ l) × (slots' ≡ empty_slot ∷ []))

abbrev three_held : Ledger → Ledger
three_held l = record l {
  regions = suc l.regions;
  classes = suc l.classes;
  drivers = suc l.drivers;
}

abbrev loading : Ret → Option Errno → Ret → (ℕ → DeviceAnswers) → (ℕ → ℕ) → ModuleAnswers
loading region created driver devices mkdev = record {
  region = region;
  class_create = created;
  driver_register = driver;
  devices = devices;
  mkdev = mkdev;
}

-- The module's initialization once all but the platform devices is there.
after_create :
    (devices : ℕ → DeviceAnswers) (mkdev : ℕ → ℕ) (l : Ledger) (out : Ret × Ledger × Slot)
    → Created (three_held l) out
    → create_one (devices 0) (mkdev 0) 0 (three_held l) empty_slot ≡ some out
    → Returns (module_init (loading none none none devices mkdev) l (empty_slot ∷ [])) (Loaded l)
unfolding module_init module_exit create_platform_devices create_from destroy_platform_devices
    destroy_from unwind
after_create devices mkdev l (none, l', s') (inl (r, d)) e = rw e (inl (refl, rw d refl))
after_create devices mkdev l (none, l', s') (inr (x, r, _, _)) e = absurd (ground arith)
after_create devices mkdev l (some x, l', s') (inl (r, d)) e = absurd (ground arith)
after_create devices mkdev l (some x, l', s') (inr (y, r, el, es)) e =
    rw (e, el, es) (inr (x, refl, refl, refl))

init_cases :
    (region : Ret) (created : Option Errno) (driver : Ret) (devices : ℕ → DeviceAnswers)
    (mkdev : ℕ → ℕ) (l : Ledger)
    → Returns
        (module_init (loading region created driver devices mkdev) l (empty_slot ∷ []))
        (Loaded l)
unfolding module_init module_exit
init_cases (some e) created driver devices mkdev l = inr (e, refl, refl, refl)
init_cases none (some e) driver devices mkdev l = inr (e, refl, refl, refl)
init_cases none none (some e) devices mkdev l = inr (e, refl, refl, refl)
init_cases none none none devices mkdev l =
    let (out, e, made) =
      Returns-some (Created (three_held l))
        (create_one (devices 0) (mkdev 0) 0 (three_held l) empty_slot)
        (create_lem (devices 0) (mkdev 0) (three_held l)) in
    after_create devices mkdev l out made e

-- Whatever the kernel answers, loading the module never gives back what it does not hold. If it
-- fails, everything that was taken is given back, and no pointer is left in the driver's tables;
-- if it succeeds, even where the probe of its device failed, unloading it gives everything back.
pub module_init_all_or_nothing :
    (a : ModuleAnswers) (l : Ledger) → Returns (module_init a l (empty_slot ∷ [])) (Loaded l)
module_init_all_or_nothing a l =
    init_cases a.region a.class_create a.driver_register a.devices a.mkdev l
