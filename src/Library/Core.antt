-- ===== src/Library/Core.antt =====
-- lib/core.c where it is not built for Windows: the calls are passed on to sim/linux_sim.c.
pub mod Replies
pub mod Promises
pub mod Programs
use pcie_sim.Base.{
  ℕ, ℤ, pos, negsuc, ◌+◌, ◌≡◌, Bool, true, false, Option, none, some, ◌>>=◌, List, [], ◌∷◌, Has,
  ◌==◌, if◌then◌else◌,
}
use pcie_sim.Api.{Error, Stats}
use pcie_sim.Sim.Linux.{
  Timespec, Clock, Handle, Sim, open_linux, close_linux, transfer_linux, get_stats_linux,
  reset_stats_linux,
}
use pcie_sim.Library.Backend.{Backend}

-- The environment: what malloc answers, by the blocks that live and the number of the call, what
-- the clock answers, by the number of the reading, and what snprintf writes for a device number.
pub record Host : Type 0 where
  pub malloc : List ℕ → ℕ → Option ℕ
  pub clock : ℕ → Timespec
  pub print_name : ℤ → List ℕ

-- The backend's state, how often the environment was asked, and the blocks that malloc gave and
-- that were not freed.
pub record World : Type 0 where
  pub sim : Sim
  pub asked : ℕ
  pub blocks : List ℕ

-- malloc never gives the address of a block that lives.
pub record IsHost (host : Host) : Type 0 where
  pub malloc_fresh : (blocks : List ℕ) (n p : ℕ) → host.malloc blocks n ≡ some p → ¬ Has p blocks

abbrev pub allocated : Option ℕ → List ℕ → List ℕ
allocated none blocks = blocks
allocated (some p) blocks = p ∷ blocks

abbrev pub freed : Option ℕ → List ℕ → List ℕ
freed none blocks = blocks
freed (some p) [] = []
freed (some p) (q ∷ blocks) = let rest = freed (some p) blocks in if q == p then rest else q ∷ rest

module _ (host : Host) where
  -- pcie_sim_open
  unfoldable pub pcie_sim_open : World → ℤ → Bool → Option (World × Error × Option ℕ)
  pcie_sim_open w device_id handle_given =
      open_linux host.print_name w.sim device_id handle_given (host.malloc w.blocks w.asked)
        (host.clock w.asked)
      >>= (λ (sim, e, h).
          some (record { sim = sim; asked = w.asked + 1; blocks = allocated h w.blocks }, e, h))

  -- pcie_sim_close
  unfoldable pub pcie_sim_close : World → Option ℕ → Option (World × Error)
  pcie_sim_close w handle =
      close_linux w.sim handle
      >>= (λ (sim, e). some (record w { sim = sim; blocks = freed handle w.blocks }, e))

  -- pcie_sim_transfer
  unfoldable pub pcie_sim_transfer :
      World → Option ℕ → Bool → ℕ → ℕ → Bool → Option (World × Error × Option ℕ)
  pcie_sim_transfer w handle buffer_given size direction latency_given =
      transfer_linux w.sim handle buffer_given size direction latency_given
        (record { before = host.clock w.asked; after = host.clock (w.asked + 1) })
      >>= (λ (sim, e, delay, latency).
          some (record w { sim = sim; asked = w.asked + 2 }, e, latency))

  -- pcie_sim_get_stats
  unfoldable pub pcie_sim_get_stats :
      World → Option ℕ → Bool → Option (World × Error × Option Stats)
  pcie_sim_get_stats w handle stats_given =
      get_stats_linux w.sim handle stats_given >>= (λ (e, stats). some (w, e, stats))

  -- pcie_sim_reset_stats
  unfoldable pub pcie_sim_reset_stats : World → Option ℕ → Option (World × Error)
  pcie_sim_reset_stats w handle =
      reset_stats_linux w.sim handle >>= (λ (sim, e). some (record w { sim = sim }, e))

  abbrev pub linux_core : Backend
  linux_core = record {
    State = World;
    opens = pcie_sim_open;
    closes = pcie_sim_close;
    transfers = pcie_sim_transfer;
    gets_stats = pcie_sim_get_stats;
    resets_stats = pcie_sim_reset_stats;
  }
