-- ===== src/Kernel/Mmio/Reset.antt =====
-- The registers of kernel/mmio.c after pcie_sim_mmio_init.
use pcie_sim.Base.{ℕ, ◌≡◌, refl, arith, ◌==◌, true, if◌then◌else◌, Returns, success}
use pcie_sim.Kernel.Device.{Device}
use pcie_sim.Kernel.Memory.{zeroed, load-zeroed, AllBytes-zeroed, length-zeroed}
use pcie_sim.Kernel.Mmio.{
  bar0_bytes, reg_device_id, reg_status, reg_control, reg_dma_control, reg_interrupt_enable,
  mmio_init,
}
use pcie_sim.Kernel.Mmio.Bounds.{IsMapped}
use pcie_sim.Kernel.Mmio.Registers.{reg, IsReg}
use pcie_sim.Kernel.Mmio.Words.{Holds, store-Holds, writel-Holds}

zeroed-Holds : Holds (zeroed bar0_bytes) (λ u. 0)
zeroed-Holds = record {
  sized = length-zeroed bar0_bytes;
  bytes = AllBytes-zeroed bar0_bytes;
  words = λ u ru. load-zeroed bar0_bytes u;
}

-- The word that the set-up leaves at offset `u`.
abbrev pub initial : ℕ → ℕ
initial u =
    if u == 0x024
    then 3
    else (if u == 0x01c
        then 0
        else (if u == 0x008
            then 1
            else (if u == 0x004 then 1 else (if u == 0 then 0x1234ABCD else 0))))

-- Where memory is found, the set-up of BAR0 faults at nothing and returns 0 with a mapped device:
-- the identification register holds 0x1234ABCD, the status register says ready, the control
-- register enabled, both DMA interrupts are enabled, and every other register is 0. Nothing
-- else of the device changes: not the count of pending interrupts either.
pub mmio_init_registers :
    (dev : Device) (u : ℕ)
    → IsReg u
    → Returns (mmio_init true dev) (λ out.
      (out.0 ≡ success)
      × IsMapped out.1
      × (reg out.1 u ≡ initial u)
      × (out.1.pending_interrupts ≡ dev.pending_interrupts))
unfolding mmio_init
mmio_init_registers dev u ru =
    let f₀ = zeroed-Holds in
    let f₁ = store-Holds reg_device_id 0x1234ABCD (omega arith) (omega arith) f₀ in
    let f₂ = store-Holds reg_status 1 (omega arith) (omega arith) f₁ in
    let f₃ = store-Holds reg_control 1 (omega arith) (omega arith) f₂ in
    let f₄ = store-Holds reg_dma_control 0 (omega arith) (omega arith) f₃ in
    let f₅ = store-Holds reg_interrupt_enable 3 (omega arith) (omega arith) f₄ in
    rw
      (
        writel-Holds reg_device_id 0x1234ABCD (omega arith) f₀,
        writel-Holds reg_status 1 (omega arith) f₁,
        writel-Holds reg_control 1 (omega arith) f₂,
        writel-Holds reg_dma_control 0 (omega arith) f₃,
        writel-Holds reg_interrupt_enable 3 (omega arith) f₄,
      )
      (refl, record { sized = f₅.sized; size = refl; bytes = f₅.bytes }, f₅.words u ru, refl)
