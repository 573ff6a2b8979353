-- ===== src/Kernel/Driver/Probe.antt =====
-- A probe of kernel/driver.c takes all or nothing, and the removal gives back what it took.
use pcie_sim.Base.{
  ℕ, suc, ◌≡◌, ◌⊎◌, inl, inr, refl, Bool, true, false, Option, none, some, Errno, Ret, success,
  fail, enomem, Returns,
}
use pcie_sim.Kernel.Device.{Device, valid}
use pcie_sim.Kernel.Ledger.{Ledger}
use pcie_sim.Kernel.Nodes.{char_init, char_cleanup, proc_init, proc_cleanup}
use pcie_sim.Kernel.Driver.{Slot, DeviceAnswers, probe, remove}

-- What a device that was probed holds.
abbrev pub held : Ledger → Ledger
held l = record l {
  memory = suc l.memory;
  cdevs = suc l.cdevs;
  nodes = suc l.nodes;
  proc_entries = suc (suc l.proc_entries);
}

-- A device with all of its files.
pub data HasFiles : Option Device → Type 0 where
  has_files :
      (dev : Device)
      → dev.dev ≡ valid
      → dev.proc_dir ≡ valid
      → dev.proc_stats ≡ valid
      → HasFiles (some dev)

-- The answers of the kernel, one by one.
abbrev pub answers : Bool → Ret → Option Errno → Bool → Bool → Bool → Ret → DeviceAnswers
answers memory cdev file_node dir file alloc add = record {
  memory = memory;
  nodes = (record {
    cdev_add = cdev;
    device_create = file_node;
    proc_mkdir = dir;
    proc_create_data = file;
  });
  platform_alloc = alloc;
  platform_add = add;
}

-- A probe that took everything, or nothing.
abbrev pub Probed : Ledger → Ret × Ledger × Slot → Type 0
Probed l (ret, l', s') =
    ((ret ≡ success) × (l' ≡ held l) × (s'.listed ≡ true) × (s'.drvdata ≡ true) × HasFiles s'.mem)
    ⊎ ((e : Errno) × (ret ≡ fail e) × (l' ≡ l) × (s'.listed ≡ false) × (s'.mem ≡ none))

probe_cases :
    (memory : Bool) (cdev : Ret) (file_node : Option Errno) (dir file alloc : Bool) (add : Ret)
    (devt : ℕ) (l : Ledger) (s : Slot)
    → s.listed ≡ false
    → s.mem ≡ none
    → Returns (probe (answers memory cdev file_node dir file alloc add) devt 0 l s) (Probed l)
unfolding probe char_init char_cleanup proc_init
probe_cases false cdev file_node dir file alloc add devt l s q m = inr (enomem, refl, refl, q, m)
probe_cases true (some e) file_node dir file alloc add devt l s q m =
    inr (e, refl, refl, refl, refl)
probe_cases true none (some e) dir file alloc add devt l s q m = inr (e, refl, refl, refl, refl)
probe_cases true none none false file alloc add devt l s q m = inr (enomem, refl, refl, refl, refl)
probe_cases true none none true false alloc add devt l s q m = inr (enomem, refl, refl, refl, refl)
probe_cases true none none true true alloc add devt l s q m =
    inl (refl, refl, refl, refl, has_files _ refl refl refl)

-- Where no device structure is kept, a probe of device 0 never gives back what it does not hold.
-- If it succeeds, it holds the device structure, the character device, its file_node and two
-- procfs entries; if it fails, it holds what it held before, no pointer to the device is left in
-- the driver's table, and the structure is freed.
pub probe_all_or_nothing :
    (a : DeviceAnswers) (devt : ℕ) (l : Ledger) (s : Slot)
    → s.listed ≡ false
    → s.mem ≡ none
    → Returns (probe a devt 0 l s) (Probed l)
probe_all_or_nothing a devt l s q m =
    probe_cases a.memory a.nodes.cdev_add a.nodes.device_create a.nodes.proc_mkdir
      a.nodes.proc_create_data a.platform_alloc a.platform_add devt l s q m

-- The removal of a device that has all of its files gives them back with the device structure.
pub remove-held :
    (l : Ledger) (s : Slot)
    → s.drvdata ≡ true
    → HasFiles s.mem
    → remove (held l) s ≡ some (l, record s { listed = false; mem = none })
unfolding remove char_cleanup proc_cleanup
remove-held l s d h = from_files s.mem h refl
  where
    from_files :
        (m : Option Device)
        → HasFiles m
        → s.mem ≡ m
        → remove (held l) s ≡ some (l, record s { listed = false; mem = none })
    from_files _ (has_files dev file_node dir file) e = rw (d, e, file_node, dir, file) refl
