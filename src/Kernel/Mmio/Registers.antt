-- ===== src/Kernel/Mmio/Registers.antt =====
-- What a write to one register of kernel/mmio.c does to it and to the others, and what a read of
-- a register returns.
use pcie_sim.Base.{
  ℕ, ◌%◌, ◌^◌, ◌<◌, ◌≡◌, refl, ◌∙◌, List, some, arith, length, ◌==◌, true, false, if◌then◌else◌,
  bit, bit_and, bit_or, not32, bit_and-lt, bit-bit_and, bit-bit_or, bit-le-one, bit-zero, bit-not32,
  zero, suc, Returns,
}
use pcie_sim.Kernel.Device.{Device}
use pcie_sim.Kernel.Memory.{
  load, store, length-store, load-store_self, load-store_apart, AllBytes-store, load-lt,
}
use pcie_sim.Kernel.Mmio.{
  bar0_bytes, reg_status, reg_control, reg_interrupt_status, reg_error_inject, control_dma_reset,
  dynamic_status, read32, write32,
}
use pcie_sim.Kernel.Mmio.Bounds.{block, IsMapped, readl-some, writel-some}

-- The word that BAR0 holds for the register at offset `o`.
abbrev pub reg : Device → ℕ → ℕ
reg dev o = load (block dev.bar0_virt) o

-- The registers are the words at the offsets that 4 divides.
abbrev pub IsReg : ℕ → Type 0
IsReg o = (o % 4 ≡ 0) × (o < bar0_bytes)

-- What BAR0 holds at `o` after `value` was written there over `old`.
abbrev pub stored : ℕ → ℕ → ℕ → ℕ
stored o value old =
    if o == reg_control
    then (if bit_and value control_dma_reset == 0
        then value
        else bit_and value (not32 control_dma_reset))
    else (if o == reg_interrupt_status then bit_and old (not32 value) else value)

abbrev pub put : Device → ℕ → ℕ → Device
put dev o v = record dev { bar0_virt = some (store (block dev.bar0_virt) o v) }

-- The fields of the device that a write changes besides BAR0.
abbrev pub react : Device → ℕ → ℕ → Device
react dev o value =
    if o == reg_control
    then (if bit_and value control_dma_reset == 0 then dev else record dev { dma_active = 0 })
    else (if o == reg_interrupt_status
        then (if bit_and (reg dev o) (not32 value) == 0
            then record dev { pending_interrupts = 0 }
            else dev)
        else (if o == reg_error_inject
            then (if bit_and value 0xFF == 0
                then record dev { simulate_errors = false }
                else record dev {
                  fault_injection_rate = bit_and value 0xFF;
                  simulate_errors = true;
                })
            else dev))

pub write32_lem :
    (dev : Device) (o value : ℕ)
    → IsMapped dev
    → IsReg o
    → write32 dev o value ≡ some (put (react dev o value) o (stored o value (reg dev o)))
unfolding write32
write32_lem dev o value m r = ground (
  arith,
  writel-some (stored o value (reg dev o)) (block dev.bar0_virt) o,
  readl-some (block dev.bar0_virt) o,
)

-- A register of a block after one register was written.
pub load-store :
    (bar : List ℕ) (o u v : ℕ)
    → length bar ≡ bar0_bytes
    → IsReg o
    → IsReg u
    → v < 2 ^ 32
    → load (store bar o v) u ≡ (if u == o then v else load bar u)
load-store bar o u v l ro ru p = ground (arith, load-store_self bar u v, load-store_apart bar o u v)

stored-lt : (o value old : ℕ) → value < 2 ^ 32 → old < 2 ^ 32 → stored o value old < 2 ^ 32
stored-lt o value old p q =
    ground (arith, bit_and-lt value (not32 control_dma_reset), bit_and-lt old (not32 value))

react_keeps :
    (dev : Device) (o value : ℕ)
    → ((react dev o value).bar0_virt ≡ dev.bar0_virt)
      × ((react dev o value).bar0_size ≡ dev.bar0_size)
react_keeps dev o value = ground arith

-- The device after a write, where the write is in bounds.
abbrev pub written : Device → ℕ → ℕ → Device
written dev o value = put (react dev o value) o (stored o value (reg dev o))

pub written-IsMapped : (dev : Device) (o value : ℕ) → IsMapped dev → IsMapped (written dev o value)
written-IsMapped dev o value m = record {
  sized = rw (length-store, (react_keeps dev o value).0) m.sized;
  size = (react_keeps dev o value).1 ∙ m.size;
  bytes = AllBytes-store _ o _ (rw (react_keeps dev o value).0 m.bytes);
}

pub reg-written :
    (dev : Device) (o u value : ℕ)
    → IsMapped dev
    → IsReg o
    → IsReg u
    → value < 2 ^ 32
    → reg (written dev o value) u ≡ (if u == o then stored o value (reg dev o) else reg dev u)
reg-written dev o u value m ro ru p = rw (react_keeps dev o value).0 (
    load-store (block dev.bar0_virt) o u (stored o value (reg dev o)) m.sized ro ru
      (stored-lt o value (reg dev o) p (load-lt (block dev.bar0_virt) o m.bytes)))

-- On a mapped device a write of a u32 to a register `o` does not fault, leaves the device mapped,
-- leaves every other register `u` as it was, and stores the value: at the control register without
-- the reset bit, and at the interrupt status register the old word without the value's bits.
pub write32_registers :
    (dev : Device) (o u value : ℕ)
    → IsMapped dev
    → IsReg o
    → IsReg u
    → value < 2 ^ 32
    → Returns (write32 dev o value) (λ dev'.
      IsMapped dev' × (reg dev' u ≡ (if u == o then stored o value (reg dev o) else reg dev u)))
write32_registers dev o u value m r ru p =
    rw (write32_lem dev o value m r)
      (written-IsMapped dev o value m, reg-written dev o u value m r ru p)

pub bit_of_two : (k : ℕ) → bit k 2 ≡ (if k == 1 then 1 else 0)
bit_of_two zero = refl
bit_of_two (suc zero) = refl
bit_of_two (suc (suc k)) = ground (arith, bit-zero k)

bit_of_eight : (k : ℕ) → bit k 8 ≡ (if k == 3 then 1 else 0)
bit_of_eight zero = refl
bit_of_eight (suc zero) = refl
bit_of_eight (suc (suc zero)) = refl
bit_of_eight (suc (suc (suc zero))) = refl
bit_of_eight (suc (suc (suc (suc k)))) = ground (arith, bit-zero k)

-- 1 for an atomic_t that is not 0
abbrev pub flag : ℕ → ℕ
flag n = if n == 0 then 0 else 1

dynamic_bit :
    (dev : Device) (value k : ℕ)
    → k < 32
    → value < 2 ^ 32
    → bit k (dynamic_status dev value) ≡ (
        if k == 1
        then flag dev.dma_active
        else (if k == 3 then flag dev.pending_interrupts else bit k value))
dynamic_bit dev value k h p = ground (
  arith,
  bit-bit_and k value (not32 10),
  bit-not32 k 10,
  bit-bit_or k 2 8,
  bit_of_two k,
  bit_of_eight k,
  bit-bit_or k idle 2,
  bit-bit_or k idle 8,
  bit-bit_or k (bit_or idle 2) 8,
  bit-le-one k value,
)
  where
    idle : ℕ
    idle = bit_and value (not32 10)

read32-status :
    (dev : Device)
    → IsMapped dev
    → read32 dev reg_status ≡ some (dynamic_status dev (reg dev reg_status))
unfolding read32
read32-status dev m = ground (arith, readl-some (block dev.bar0_virt) reg_status)

-- On a mapped device a read of the status register returns the stored word with two bits
-- replaced: bit 1 says whether DMA is active, and bit 3 whether an interrupt is pending.
pub read32_status :
    (dev : Device) (k : ℕ)
    → IsMapped dev
    → k < 32
    → Returns (read32 dev reg_status) (λ value. bit k value ≡ (
        if k == 1
        then flag dev.dma_active
        else (if k == 3 then flag dev.pending_interrupts else bit k (reg dev reg_status))))
read32_status dev k m h =
    rw (read32-status dev m)
      (dynamic_bit dev (reg dev reg_status) k h (load-lt (block dev.bar0_virt) reg_status m.bytes))
