-- ===== src/Kernel/Mmio/Bounds.antt =====
-- Which accesses of kernel/mmio.c stay inside BAR0.
use pcie_sim.Base.{ℕ, ◌+◌, ◌≤◌, ◌<◌, ◌≡◌, ◌↔◌, List, [], Option, none, some, arith, length}
use pcie_sim.Kernel.Device.{Device}
use pcie_sim.Kernel.Memory.{AllBytes, readl, writel, load, store}
use pcie_sim.Kernel.Mmio.{bar0_bytes, read32, write32}

-- The bytes behind a pointer, none behind NULL.
abbrev pub block : Option (List ℕ) → List ℕ
block none = []
block (some bar) = bar

-- BAR0 is there, as pcie_sim_mmio_init left it in size.
pub record IsMapped (dev : Device) : Type 0 where
  pub sized : length (block dev.bar0_virt) ≡ bar0_bytes
  pub size : dev.bar0_size ≡ bar0_bytes
  pub bytes : AllBytes (block dev.bar0_virt)

pub readl-some : (bar : List ℕ) (o : ℕ) → o + 4 ≤ length bar → readl bar o ≡ some (load bar o)
unfolding readl
readl-some bar o h = ground arith

pub writel-some :
    (v : ℕ) (bar : List ℕ) (o : ℕ) → o + 4 ≤ length bar → writel v bar o ≡ some (store bar o v)
unfolding writel
writel-some v bar o h = ground arith

-- On a mapped device a read goes outside of the block exactly at the last three offsets that the
-- guard lets through.
pub read32_faults :
    (dev : Device) (offset : ℕ)
    → IsMapped dev
    → (read32 dev offset ≡ none) ↔ ((0xffc < offset) × (offset < 0x1000))
unfolding read32 readl
read32_faults dev offset m = ground arith

pub write32_faults :
    (dev : Device) (offset value : ℕ)
    → IsMapped dev
    → (write32 dev offset value ≡ none) ↔ ((0xffc < offset) × (offset < 0x1000))
unfolding write32 readl writel
write32_faults dev offset value m = ground arith

-- On a mapped device, whatever its other fields, pcie_sim_mmio_read32 and pcie_sim_mmio_write32
-- reach outside of BAR0 exactly at the offsets 0xffd, 0xffe and 0xfff.
pub accesses_fault :
    (dev : Device) (offset value : ℕ)
    → IsMapped dev
    → ((read32 dev offset ≡ none) ↔ ((0xffc < offset) × (offset < 0x1000)))
      × ((write32 dev offset value ≡ none) ↔ ((0xffc < offset) × (offset < 0x1000)))
accesses_fault dev offset value m = (read32_faults dev offset m, write32_faults dev offset value m)
