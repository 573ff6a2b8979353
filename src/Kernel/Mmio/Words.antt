-- ===== src/Kernel/Mmio/Words.antt =====
-- Blocks described by the words of their registers, and what readl() and writel() do to that.
use pcie_sim.Base.{ℕ, ◌<◌, ◌^◌, ◌≡◌, refl, ap, ◌∙◌, List, some, arith, length, ◌==◌, if◌then◌else◌}
use pcie_sim.Kernel.Device.{Device}
use pcie_sim.Kernel.Memory.{AllBytes, readl, writel, load, store, length-store, AllBytes-store}
use pcie_sim.Kernel.Mmio.{bar0_bytes}
use pcie_sim.Kernel.Mmio.Bounds.{block, IsMapped, readl-some, writel-some}
use pcie_sim.Kernel.Mmio.Registers.{reg, IsReg, load-store}

-- A block of BAR0's size whose register at `u` holds the word `word u`.
pub record Holds (bar : List ℕ) (word : ℕ → ℕ) : Type 0 where
  pub sized : length bar ≡ bar0_bytes
  pub bytes : AllBytes bar
  pub words : (u : ℕ) → IsReg u → load bar u ≡ word u

pub store-Holds :
    {bar : List ℕ} {word : ℕ → ℕ} (o v : ℕ)
    → IsReg o
    → v < 2 ^ 32
    → Holds bar word
    → Holds (store bar o v) (λ u. if u == o then v else word u)
store-Holds {bar} {word} o v ro p f = record {
  sized = length-store bar o v ∙ f.sized;
  bytes = AllBytes-store bar o v f.bytes;
  words = λ u ru. ground (arith, load-store bar o u v f.sized ro ru p, f.words u ru);
}

pub writel-Holds :
    {bar : List ℕ} {word : ℕ → ℕ} (o v : ℕ)
    → IsReg o
    → Holds bar word
    → writel v bar o ≡ some (store bar o v)
writel-Holds {bar} o v ro f = writel-some v bar o (omega (arith, f.sized))

pub readl-Holds :
    {bar : List ℕ} {word : ℕ → ℕ} (o : ℕ) → IsReg o → Holds bar word → readl bar o ≡ some (word o)
readl-Holds {bar} o ro f = readl-some bar o (omega (arith, f.sized)) ∙ ap some (f.words o ro)

pub IsMapped-Holds : (dev : Device) → IsMapped dev → Holds (block dev.bar0_virt) (reg dev)
IsMapped-Holds dev m = record { sized = m.sized; bytes = m.bytes; words = λ u ru. refl }

pub IsMapped-some : (dev : Device) → IsMapped dev → dev.bar0_virt ≡ some (block dev.bar0_virt)
IsMapped-some dev m = ground arith
