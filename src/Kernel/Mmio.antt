-- ===== src/Kernel/Mmio.antt =====
-- kernel/mmio.c: the registers in BAR0. Offsets and values are u32; `none` is an access outside
-- of the block that kzalloc returned.
pub mod Bounds
pub mod Registers
pub mod Words
pub mod Reset
pub mod Update
pub mod Interrupts
use pcie_sim.Base.{
  ℕ, ◌/◌, ◌==◌, Bool, true, false, ◌||◌, List, Option, none, some, if◌then◌else◌, leb, u32, not32,
  bit_and, bit_or, Ret, success, fail, enomem, ◌>>=◌,
}
use pcie_sim.Kernel.Device.{Device, TransferReq}
use pcie_sim.Kernel.Memory.{readl, writel, zeroed}

abbrev pub bar0_bytes : ℕ
bar0_bytes = 0x1000

-- Offsets of the control registers that the code names.
abbrev pub reg_device_id : ℕ
reg_device_id = 0x000

abbrev pub reg_status : ℕ
reg_status = 0x004

abbrev pub reg_control : ℕ
reg_control = 0x008

abbrev pub reg_dma_control : ℕ
reg_dma_control = 0x01c

abbrev pub reg_interrupt_status : ℕ
reg_interrupt_status = 0x020

abbrev pub reg_interrupt_enable : ℕ
reg_interrupt_enable = 0x024

abbrev pub reg_perf_latency : ℕ
reg_perf_latency = 0x030

abbrev pub reg_perf_count : ℕ
reg_perf_count = 0x034

abbrev pub reg_error_inject : ℕ
reg_error_inject = 0x044

-- Bits of the status register.
abbrev pub status_device_ready : ℕ
status_device_ready = 1

abbrev pub status_dma_busy : ℕ
status_dma_busy = 2

abbrev pub status_error : ℕ
status_error = 4

abbrev pub status_interrupt_pending : ℕ
status_interrupt_pending = 8

-- Bits of the control register.
abbrev pub control_device_enable : ℕ
control_device_enable = 1

abbrev pub control_dma_reset : ℕ
control_dma_reset = 4

-- Bits of the interrupt registers.
abbrev pub irq_dma_complete : ℕ
irq_dma_complete = 1

abbrev pub irq_dma_error : ℕ
irq_dma_error = 2

abbrev pub is_null : Option (List ℕ) → Bool
is_null none = true
is_null (some _) = false

-- The test `!dev->bar0_virt || offset >= dev->bar0_size` of both accessors.
abbrev pub is_invalid : Device → ℕ → Bool
is_invalid dev offset = is_null dev.bar0_virt || leb dev.bar0_size offset

-- pcie_sim_mmio_init; the Boolean says whether kzalloc found memory.
unfoldable pub mmio_init : Bool → Device → Option (Ret × Device)
mmio_init false dev = some (fail enomem, record dev { bar0_virt = none })
mmio_init true dev = do
  b₁ ← writel 0x1234ABCD (zeroed bar0_bytes) reg_device_id
  b₂ ← writel status_device_ready b₁ reg_status
  b₃ ← writel control_device_enable b₂ reg_control
  b₄ ← writel 0 b₃ reg_dma_control
  b₅ ← writel (bit_or irq_dma_complete irq_dma_error) b₄ reg_interrupt_enable
  some (success, record dev { bar0_virt = some b₅; bar0_size = bar0_bytes })

-- pcie_sim_mmio_cleanup; the device is `none` where the pointer is NULL.
unfoldable pub mmio_cleanup : Option Device → Option Device
mmio_cleanup none = none
mmio_cleanup (some dev) = some (record dev { bar0_virt = none; bar0_size = 0 })

-- The dynamic bits of the status register.
abbrev pub dynamic_status : Device → ℕ → ℕ
dynamic_status dev value =
    let cleared : ℕ = bit_and value (not32 (bit_or status_dma_busy status_interrupt_pending)) in
    let busy : ℕ = if dev.dma_active == 0 then cleared else bit_or cleared status_dma_busy in
    if dev.pending_interrupts == 0 then busy else bit_or busy status_interrupt_pending

-- pcie_sim_mmio_read32
unfoldable pub read32 : Device → ℕ → Option ℕ
read32 dev offset = if is_invalid dev offset then some 0xFFFFFFFF else do
  bar ← dev.bar0_virt
  value ← readl bar offset
  some (
      if offset == reg_status
      then dynamic_status dev value
      else (if offset == reg_perf_latency
          then u32 (dev.stats.avg_latency_ns / 1000)
          else (if offset == reg_perf_count then u32 dev.stats.total_transfers else value)))

abbrev write_bar : Device → List ℕ → ℕ → ℕ → Option Device
write_bar dev bar offset value = do
  bar' ← writel value bar offset
  some (record dev { bar0_virt = some bar' })

-- The case REG_CONTROL; starting DMA does nothing.
abbrev write_control : Device → List ℕ → ℕ → Option Device
write_control dev bar value =
    if bit_and value control_dma_reset == 0
    then write_bar dev bar reg_control value
    else write_bar (record dev { dma_active = 0 }) bar reg_control
        (bit_and value (not32 control_dma_reset))

-- The case REG_INTERRUPT_STATUS: written bits are cleared.
abbrev write_interrupt_status : Device → List ℕ → ℕ → Option Device
write_interrupt_status dev bar value = do
  current ← readl bar reg_interrupt_status
  let new_status = bit_and current (not32 value)
  dev' ← write_bar dev bar reg_interrupt_status new_status
  some (if new_status == 0 then record dev' { pending_interrupts = 0 } else dev')

-- The case REG_ERROR_INJECT.
abbrev write_error_inject : Device → List ℕ → ℕ → Option Device
write_error_inject dev bar value =
    if bit_and value 0xFF == 0
    then write_bar (record dev { simulate_errors = false }) bar reg_error_inject value
    else write_bar
        (record dev { fault_injection_rate = bit_and value 0xFF; simulate_errors = true }) bar
        reg_error_inject value

-- pcie_sim_mmio_write32
unfoldable pub write32 : Device → ℕ → ℕ → Option Device
write32 dev offset value = if is_invalid dev offset then some dev else do
  bar ← dev.bar0_virt
  if offset == reg_control
      then write_control dev bar value
      else (if offset == reg_interrupt_status
          then write_interrupt_status dev bar value
          else (if offset == reg_error_inject
              then write_error_inject dev bar value
              else write_bar dev bar offset value))

abbrev pub update_status : Bool → ℕ → ℕ
update_status done status =
    let idle : ℕ = bit_and status (not32 status_dma_busy) in
    if done then idle else bit_or idle status_error

abbrev pub update_irq : Bool → ℕ → ℕ
update_irq done irq_status =
    if done then bit_or irq_status irq_dma_complete else bit_or irq_status irq_dma_error

-- The performance registers, written only on success and with a request.
abbrev pub update_perf : Device → Option TransferReq → Bool → List ℕ → Option (List ℕ)
update_perf dev none done bar = some bar
update_perf dev (some req) false bar = some bar
update_perf dev (some req) true bar = do
  bar' ← writel (u32 (req.latency_ns / 1000)) bar reg_perf_latency
  writel (u32 dev.stats.total_transfers) bar' reg_perf_count

-- Its register updates, with BAR0 there.
abbrev pub update_bar : Device → Option TransferReq → Bool → List ℕ → Option Device
update_bar dev req done bar = do
  status ← readl bar reg_status
  bar₁ ← writel (update_status done status) bar reg_status
  irq_status ← readl bar₁ reg_interrupt_status
  bar₂ ← writel (update_irq done irq_status) bar₁ reg_interrupt_status
  bar₃ ← update_perf dev req done bar₂
  some (record dev { bar0_virt = some bar₃; pending_interrupts = 1 })

-- pcie_sim_mmio_update_dma; the request is `none` where the pointer is NULL.
unfoldable pub update_dma : Device → Option TransferReq → Bool → Option Device
update_dma dev req done = elim dev.bar0_virt [
  | none ↦ some dev
  | some bar ↦ update_bar dev req done bar
]
