-- ===== src/Kernel/Mmio/Interrupts.antt =====
-- The interrupt status register of kernel/mmio.c and the device's flag for pending interrupts
-- agree, whatever sequence of register writes and finished transfers came before.
use pcie_sim.Base.{
  ℕ, ◌<◌, ◌^◌, ◌≡◌, ◌≢◌, refl, sym, ◌∙◌, some, none, Option, arith, ◌==◌, Bool, true, false,
  if◌then◌else◌, bit, bit_and, not32, bit-bit_or, zero-bit_and, Returns, Returns-of, Returns-map,
  success, ◌↔◌,
}
use pcie_sim.Kernel.Device.{Device, TransferReq}
use pcie_sim.Kernel.Mmio.{
  reg_status, reg_interrupt_status, mmio_init, read32, write32, update_dma, update_irq,
}
use pcie_sim.Kernel.Mmio.Bounds.{IsMapped}
use pcie_sim.Kernel.Mmio.Registers.{
  reg, IsReg, written, flag, write32_lem, written-IsMapped, reg-written, read32_status,
}
use pcie_sim.Kernel.Mmio.Reset.{mmio_init_registers}
use pcie_sim.Kernel.Mmio.Update.{updated, update_dma_words}

-- The flag is down exactly when the register is 0.
pub record IsSynced (dev : Device) : Type 0 where
  pub mapped : IsMapped dev
  pub synced : (dev.pending_interrupts ≡ 0) ↔ (reg dev reg_interrupt_status ≡ 0)

-- One access: a write of a u32 to a register, or the report of a finished transfer.
pub data Access (dev dev' : Device) : Type 0 where
  write :
      (o value : ℕ) → IsReg o → value < 2 ^ 32 → write32 dev o value ≡ some dev' → Access dev dev'
  report :
      (req : Option TransferReq) (done : Bool)
      → update_dma dev req done ≡ some dev'
      → Access dev dev'

pub data Accesses (dev : Device) : Device → Type 0 where
  start : Accesses dev dev
  next : {dev' dev'' : Device} → Accesses dev dev' → Access dev' dev'' → Accesses dev dev''

written_pending :
    (dev : Device) (o value : ℕ)
    → (written dev o value).pending_interrupts ≡ (
        if o == reg_interrupt_status
        then (if bit_and (reg dev o) (not32 value) == 0 then 0 else dev.pending_interrupts)
        else dev.pending_interrupts)
written_pending dev o value = ground arith

-- A write keeps the flag and the register in step.
pub written-IsSynced :
    (dev : Device) (o value : ℕ)
    → IsReg o
    → value < 2 ^ 32
    → IsSynced dev
    → IsSynced (written dev o value)
written-IsSynced dev o value r p s = record {
  mapped = written-IsMapped dev o value s.mapped;
  synced = ground (
    arith,
    written_pending dev o value,
    reg-written dev o reg_interrupt_status value s.mapped r (omega arith) p,
    zero-bit_and (not32 value),
  );
}

update_irq-ne-zero : (done : Bool) (v : ℕ) → update_irq done v ≢ 0
update_irq-ne-zero true v e = omega (arith, bit-bit_or 0 v 1)
update_irq-ne-zero false v e = omega (arith, bit-bit_or 1 v 2)

irq-updated :
    (dev : Device) (req : Option TransferReq) (done : Bool)
    → updated dev req done reg_interrupt_status ≡ update_irq done (reg dev reg_interrupt_status)
irq-updated dev none done = refl
irq-updated dev (some req) false = refl
irq-updated dev (some req) true = refl

Access-IsSynced : {dev dev' : Device} → Access dev dev' → IsSynced dev → IsSynced dev'
Access-IsSynced {dev} (write o value r p e) s =
    Returns-of IsSynced
      (rw (write32_lem dev o value s.mapped r) (written-IsSynced dev o value r p s)) e
Access-IsSynced {dev} (report req done e) s =
    let (m, pending, word) =
      Returns-of _ (update_dma_words dev req done reg_interrupt_status s.mapped (omega arith)) e in
    let irq = word ∙ irq-updated dev req done in
    record {
      mapped = m;
      synced = (
        λ zero. absurd (omega (arith, pending)),
        λ zero. absurd (update_irq-ne-zero done (reg dev reg_interrupt_status) (sym irq ∙ zero)),
      );
    }

-- Every sequence of accesses keeps the flag and the register in step.
pub Accesses-IsSynced : {dev dev' : Device} → IsSynced dev → Accesses dev dev' → IsSynced dev'
Accesses-IsSynced s start = s
Accesses-IsSynced s (next before last) = Access-IsSynced last (Accesses-IsSynced s before)

-- From the set-up of BAR0 on a device with no interrupt pending, whatever words are then written
-- to registers and whatever transfers are reported, in any order: reading the status register
-- faults at nothing, and says in bit 3 that an interrupt is pending exactly when the interrupt
-- status register is not 0.
pub pending_bit_is_true :
    (dev ready dev' : Device)
    → dev.pending_interrupts ≡ 0
    → mmio_init true dev ≡ some (success, ready)
    → Accesses ready dev'
    → Returns (read32 dev' reg_status) (λ value. bit 3 value ≡ flag (reg dev' reg_interrupt_status))
pending_bit_is_true dev ready dev' idle e run =
    let (_, mapped, irq, same) =
      Returns-of _ (mmio_init_registers dev reg_interrupt_status (omega arith)) e in
    let s : IsSynced ready = record { mapped = mapped; synced = (λ _. irq, λ _. same ∙ idle) } in
    let s' = Accesses-IsSynced s run in
    Returns-map (read32 dev' reg_status) (λ value shown. shown ∙ ground (arith, s'))
      (read32_status dev' 3 s'.mapped (omega arith))
