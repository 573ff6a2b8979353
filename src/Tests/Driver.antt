-- ===== src/Tests/Driver.antt =====
-- Runs of kernel/driver.c.
use pcie_sim.Base.{◌+◌, ◌*◌, ◌^◌, refl, true, false, [], ◌∷◌, none, some, success, Returns}
use pcie_sim.Kernel.Ledger.{Ledger}
use pcie_sim.Kernel.Driver.{Slot, DeviceAnswers, ModuleAnswers, probe, module_init}
use pcie_sim.Kernel.Driver.Probe.{Probed, probe_all_or_nothing}
use pcie_sim.Kernel.Driver.Module.{empty_slot, Loaded, module_init_all_or_nothing}
use pcie_sim.Kernel.Device.{Device, valid}
use pcie_sim.Tests.Data.{plain_device}

abbrev nothing_held : Ledger
nothing_held = record {
  memory = 0;
  cdevs = 0;
  nodes = 0;
  proc_entries = 0;
  regions = 0;
  classes = 0;
  drivers = 0;
  platform_devices = 0;
}

-- Everything works but the file in procfs.
abbrev no_stats_file : DeviceAnswers
no_stats_file = record {
  memory = true;
  nodes = (record {
    cdev_add = success;
    device_create = none;
    proc_mkdir = true;
    proc_create_data = false;
  });
  platform_alloc = true;
  platform_add = success;
}

abbrev loading : ModuleAnswers
loading = record {
  region = success;
  class_create = none;
  driver_register = success;
  devices = λ i. no_stats_file;
  mkdev = λ i. 240 * 2 ^ 20 + i;
}

probe_all_or_nothing_example :
    Returns (probe no_stats_file 251658240 0 nothing_held empty_slot) (Probed nothing_held)
probe_all_or_nothing_example =
    probe_all_or_nothing no_stats_file 251658240 nothing_held empty_slot refl refl

module_init_all_or_nothing_example :
    Returns (module_init loading nothing_held (empty_slot ∷ [])) (Loaded nothing_held)
module_init_all_or_nothing_example = module_init_all_or_nothing loading nothing_held

abbrev open_device : Device
open_device = record plain_device { dev = valid; proc_dir = valid; proc_stats = valid }

abbrev bound_slot : Slot
bound_slot = record {
  platform = true;
  bound = true;
  drvdata = true;
  listed = true;
  mem = some open_device;
}
