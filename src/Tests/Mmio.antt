-- ===== src/Tests/Mmio.antt =====
-- Runs of kernel/mmio.c.
use pcie_sim.Base.{
  ℕ, ◌<◌, ◌≡◌, ◌↔◌, refl, true, false, List, none, some, arith, success, Returns, bit,
}
use pcie_sim.Kernel.Device.{Device}
use pcie_sim.Kernel.Memory.{zeroed, load, store, readl, writel, length-zeroed, AllBytes-zeroed}
use pcie_sim.Kernel.Mmio.{
  bar0_bytes, reg_status, reg_control, reg_interrupt_status, mmio_init, read32, write32, update_dma,
}
use pcie_sim.Kernel.Mmio.Bounds.{IsMapped, accesses_fault}
use pcie_sim.Kernel.Mmio.Registers.{reg, stored, flag, write32_registers, read32_status}
use pcie_sim.Kernel.Mmio.Update.{Reported, update_dma_registers}
use pcie_sim.Kernel.Mmio.Interrupts.{start, next, report, pending_bit_is_true}
use pcie_sim.Tests.Data.{device_with, plain_device, request}

abbrev mapped_device : Device
mapped_device = device_with (some (zeroed bar0_bytes)) bar0_bytes 0

mapped_device-IsMapped : IsMapped mapped_device
mapped_device-IsMapped = record {
  sized = length-zeroed bar0_bytes;
  size = refl;
  bytes = AllBytes-zeroed bar0_bytes;
}

accesses_fault_example :
    ((read32 mapped_device 0xffe ≡ none) ↔ ((0xffc < 0xffe) × (0xffe < 0x1000)))
    × ((write32 mapped_device 0xffe 7 ≡ none) ↔ ((0xffc < 0xffe) × (0xffe < 0x1000)))
accesses_fault_example = accesses_fault mapped_device 0xffe 7 mapped_device-IsMapped

write32_registers_example : Returns (write32 mapped_device reg_control 5) (λ dev'.
    IsMapped dev' × (reg dev' reg_control ≡ stored reg_control 5 (reg mapped_device reg_control)))
write32_registers_example =
    write32_registers mapped_device reg_control reg_control 5 mapped_device-IsMapped (omega arith)
      (omega arith) (omega arith)

read32_status_example : Returns (read32 mapped_device reg_status) (λ value. bit 1 value ≡ flag 1)
read32_status_example = read32_status mapped_device 1 mapped_device-IsMapped (omega arith)

update_dma_registers_example :
    Returns
      (update_dma mapped_device (some request) true)
      (λ dev'. Reported mapped_device (some request) true dev')
update_dma_registers_example =
    update_dma_registers mapped_device (some request) true mapped_device-IsMapped

-- The device after the set-up, and after a failed transfer was reported on it.
abbrev ready_bar : List ℕ
ready_bar =
    store (store (store (store (store (zeroed bar0_bytes) 0 0x1234ABCD) 4 1) 8 1) 0x1c 0) 0x24 3

abbrev ready : Device
ready = device_with (some ready_bar) bar0_bytes 0

abbrev failed : Device
failed = device_with (some (store (store ready_bar 4 5) 0x20 2)) bar0_bytes 1

initialized : mmio_init true plain_device ≡ some (success, ready)
unfolding mmio_init writel store zeroed
initialized = refl

reported : update_dma ready none false ≡ some failed
unfolding update_dma readl writel load store zeroed
reported = refl

pending_bit_is_true_example :
    Returns
      (read32 failed reg_status)
      (λ value. bit 3 value ≡ flag (reg failed reg_interrupt_status))
pending_bit_is_true_example =
    pending_bit_is_true plain_device ready failed refl initialized
      (next start (report none false reported))
