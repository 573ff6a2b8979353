-- ===== src/Kernel/Mmio/Update.antt =====
-- What pcie_sim_mmio_update_dma of kernel/mmio.c leaves in the registers.
use pcie_sim.Base.{
  ℕ, ◌/◌, ◌<◌, ◌^◌, ◌≡◌, refl, List, Option, none, some, arith, ◌==◌, Bool, true, false,
  if◌then◌else◌, u32, bit_and, not32, bit_and-lt, bit_or-lt, Returns, length, bit, bit-zero,
  bit-bit_and, bit-not32, bit-bit_or, bit-le-one, zero, suc, ◌≢◌, ◌∙◌,
}
use pcie_sim.Kernel.Device.{Device, TransferReq}
use pcie_sim.Kernel.Memory.{store, load-lt}
use pcie_sim.Kernel.Mmio.{
  reg_status, reg_interrupt_status, reg_perf_latency, reg_perf_count, status_dma_busy,
  update_status, update_irq, update_dma, update_perf, update_bar, bar0_bytes,
}
use pcie_sim.Kernel.Mmio.Bounds.{block, IsMapped}
use pcie_sim.Kernel.Mmio.Registers.{reg, IsReg, bit_of_two}
use pcie_sim.Kernel.Mmio.Words.{Holds, store-Holds, readl-Holds, writel-Holds, IsMapped-Holds}

-- The performance registers over the words that were there.
abbrev pub perf_word : Device → Option TransferReq → Bool → (ℕ → ℕ) → ℕ → ℕ
perf_word dev none done word u = word u
perf_word dev (some req) false word u = word u
perf_word dev (some req) true word u =
    if u == reg_perf_count
    then u32 dev.stats.total_transfers
    else (if u == reg_perf_latency then u32 (req.latency_ns / 1000) else word u)

-- The register at `u` after a transfer is reported.
abbrev pub updated : Device → Option TransferReq → Bool → ℕ → ℕ
updated dev req done = perf_word dev req done (λ u.
    if u == reg_interrupt_status
    then update_irq done (reg dev reg_interrupt_status)
    else (if u == reg_status then update_status done (reg dev reg_status) else reg dev u))

update_perf-Holds :
    (dev : Device) (req : Option TransferReq) (done : Bool) {bar : List ℕ} {word : ℕ → ℕ}
    → Holds bar word
    → (bar' : List ℕ) × (update_perf dev req done bar ≡ some bar')
      × Holds bar' (perf_word dev req done word)
update_perf-Holds dev none done {bar} f = (bar, refl, f)
update_perf-Holds dev (some req) false {bar} f = (bar, refl, f)
update_perf-Holds dev (some req) true {bar} f =
    let f₁ =
      store-Holds reg_perf_latency (u32 (req.latency_ns / 1000)) (omega arith) (omega arith) f in
    (
      store (store bar reg_perf_latency (u32 (req.latency_ns / 1000))) reg_perf_count
          (u32 dev.stats.total_transfers),
      rw (
        writel-Holds reg_perf_latency (u32 (req.latency_ns / 1000)) (omega arith) f,
        writel-Holds reg_perf_count (u32 dev.stats.total_transfers) (omega arith) f₁,
      ),
      store-Holds reg_perf_count (u32 dev.stats.total_transfers) (omega arith) (omega arith) f₁,
    )

update_status-lt : (done : Bool) (v : ℕ) → v < 2 ^ 32 → update_status done v < 2 ^ 32
update_status-lt done v p =
    ground
      (arith, bit_and-lt v (not32 status_dma_busy), bit_or-lt (bit_and v (not32 status_dma_busy)) 4)

update_irq-lt : (done : Bool) (v : ℕ) → v < 2 ^ 32 → update_irq done v < 2 ^ 32
update_irq-lt done v p = ground (arith, bit_or-lt v 1, bit_or-lt v 2)

status-lt :
    (dev : Device) (done : Bool) → IsMapped dev → update_status done (reg dev reg_status) < 2 ^ 32
status-lt dev done m = update_status-lt done _ (load-lt (block dev.bar0_virt) reg_status m.bytes)

irq-lt :
    (dev : Device) (done : Bool)
    → IsMapped dev
    → update_irq done (reg dev reg_interrupt_status) < 2 ^ 32
irq-lt dev done m =
    update_irq-lt done _ (load-lt (block dev.bar0_virt) reg_interrupt_status m.bytes)

update_dma-mapped :
    (dev : Device) (req : Option TransferReq) (done : Bool)
    → IsMapped dev
    → update_dma dev req done ≡ update_bar dev req done (block dev.bar0_virt)
unfolding update_dma
update_dma-mapped dev req done m = go dev.bar0_virt m.sized
  where
    go :
        (o : Option (List ℕ))
        → length (block o) ≡ bar0_bytes
        → (elim o [ none ↦ some dev | some bar ↦ update_bar dev req done bar ])
          ≡ update_bar dev req done (block o)
    go none e = absurd (omega arith)
    go (some bar) e = refl

-- The words that the registers hold afterwards.
pub update_dma_words :
    (dev : Device) (req : Option TransferReq) (done : Bool) (u : ℕ)
    → IsMapped dev
    → IsReg u
    → Returns (update_dma dev req done) (λ dev'.
      IsMapped dev' × (dev'.pending_interrupts ≡ 1) × (reg dev' u ≡ updated dev req done u))
update_dma_words dev req done u m ru =
    let f = IsMapped-Holds dev m in
    let status = update_status done (reg dev reg_status) in
    let irq = update_irq done (reg dev reg_interrupt_status) in
    let f₁ = store-Holds reg_status status (omega arith) (status-lt dev done m) f in
    let f₂ = store-Holds reg_interrupt_status irq (omega arith) (irq-lt dev done m) f₁ in
    let (bar, e, f₃) = update_perf-Holds dev req done f₂ in
    rw
      (
        update_dma-mapped dev req done m,
        readl-Holds reg_status (omega arith) f,
        writel-Holds reg_status status (omega arith) f,
        readl-Holds reg_interrupt_status (omega arith) f₁,
        writel-Holds reg_interrupt_status irq (omega arith) f₁,
        e,
      )
      (record { sized = f₃.sized; size = m.size; bytes = f₃.bytes }, refl, f₃.words u ru)

-- Bit `k` of the status register and of the interrupt status register, after a transfer that
-- succeeded or not and over what the bit was.
abbrev pub status_bit : Bool → ℕ → ℕ → ℕ
status_bit true k v = if k == 1 then 0 else v
status_bit false k v = if k == 1 then 0 else (if k == 2 then 1 else v)

abbrev pub irq_bit : Bool → ℕ → ℕ → ℕ
irq_bit true k v = if k == 0 then 1 else v
irq_bit false k v = if k == 1 then 1 else v

bit_of_four : (k : ℕ) → bit k 4 ≡ (if k == 2 then 1 else 0)
bit_of_four zero = refl
bit_of_four (suc zero) = refl
bit_of_four (suc (suc zero)) = refl
bit_of_four (suc (suc (suc k))) = ground (arith, bit-zero k)

bit_of_one : (k : ℕ) → bit k 1 ≡ (if k == 0 then 1 else 0)
bit_of_one zero = refl
bit_of_one (suc k) = ground (arith, bit-zero k)

bit-update_status :
    (done : Bool) (k v : ℕ)
    → k < 32
    → v < 2 ^ 32
    → bit k (update_status done v) ≡ status_bit done k (bit k v)
bit-update_status done k v h p = ground (
  arith,
  bit-bit_and k v (not32 2),
  bit-not32 k 2,
  bit_of_two k,
  bit_of_four k,
  bit-bit_or k (bit_and v (not32 2)) 4,
  bit-le-one k v,
)

bit-update_irq : (done : Bool) (k v : ℕ) → bit k (update_irq done v) ≡ irq_bit done k (bit k v)
bit-update_irq done k v =
    ground (arith, bit-bit_or k v 1, bit-bit_or k v 2, bit_of_one k, bit_of_two k, bit-le-one k v)

-- What a reported transfer leaves of the registers.
pub record Reported (dev : Device) (req : Option TransferReq) (done : Bool) (dev' : Device)
    : Type 0 where
  pub mapped : IsMapped dev'
  pub pending : dev'.pending_interrupts ≡ 1
  pub status :
      (k : ℕ)
      → k < 32
      → bit k (reg dev' reg_status) ≡ status_bit done k (bit k (reg dev reg_status))
  pub irq :
      (k : ℕ)
      → bit k (reg dev' reg_interrupt_status)
        ≡ irq_bit done k (bit k (reg dev reg_interrupt_status))
  pub others :
      (u : ℕ)
      → IsReg u
      → u ≢ reg_status
      → u ≢ reg_interrupt_status
      → reg dev' u ≡ perf_word dev req done (reg dev) u

updated-others :
    (dev : Device) (req : Option TransferReq) (done : Bool) (u : ℕ)
    → u ≢ reg_status
    → u ≢ reg_interrupt_status
    → updated dev req done u ≡ perf_word dev req done (reg dev) u
updated-others dev none done u n m = ground arith
updated-others dev (some req) false u n m = ground arith
updated-others dev (some req) true u n m = ground arith

updated-status :
    (dev : Device) (req : Option TransferReq) (done : Bool)
    → updated dev req done reg_status ≡ update_status done (reg dev reg_status)
updated-status dev none done = refl
updated-status dev (some req) false = refl
updated-status dev (some req) true = refl

pub updated-irq :
    (dev : Device) (req : Option TransferReq) (done : Bool)
    → updated dev req done reg_interrupt_status ≡ update_irq done (reg dev reg_interrupt_status)
updated-irq dev none done = refl
updated-irq dev (some req) false = refl
updated-irq dev (some req) true = refl

-- On a mapped device, reporting a transfer faults at nothing and leaves an interrupt pending. In
-- the status register it clears bit 1, busy, and sets bit 2, error, if the transfer failed; in the
-- interrupt status register it sets bit 0, completion, or bit 1, error; the other bits of both are
-- kept. After a success with a request it also writes the transfers and the latency in
-- microseconds to the performance registers, and it writes no others.
pub update_dma_registers :
    (dev : Device) (req : Option TransferReq) (done : Bool)
    → IsMapped dev
    → Returns (update_dma dev req done) (λ dev'. Reported dev req done dev')
update_dma_registers dev req done m =
    by_words (update_dma dev req done) (update_dma_words dev req done)
  where
    word-lt : (u : ℕ) → reg dev u < 2 ^ 32
    word-lt u = load-lt (block dev.bar0_virt) u m.bytes

    by_words :
        (o : Option Device)
        → ((u : ℕ)
            → IsMapped dev
            → IsReg u
            → Returns o (λ dev'.
              IsMapped dev'
              × (dev'.pending_interrupts ≡ 1)
              × (reg dev' u ≡ updated dev req done u)))
        → Returns o (λ dev'. Reported dev req done dev')
    by_words none words = words reg_status m (omega arith)
    by_words (some dev') words =
        let (mapped, pending, status) = words reg_status m (omega arith) in
        let irq = (words reg_interrupt_status m (omega arith)).2 in
        record {
          mapped = mapped;
          pending = pending;
          status = (λ k h.
              rw (status ∙ updated-status dev req done)
                (bit-update_status done k (reg dev reg_status) h (word-lt reg_status)));
          irq = (λ k.
              rw (irq ∙ updated-irq dev req done)
                (bit-update_irq done k (reg dev reg_interrupt_status)));
          others = (λ u r n n'. (words u m r).2 ∙ updated-others dev req done u n n');
        }
