-- ===== src/Tests/Windows.antt =====
-- Runs of sim/windows_sim.c.
use pcie_sim.Base.{
  ◌≡◌, refl, arith, true, false, pos, List, [], ◌∷◌, none, some, replicate, Returns, ◌>>=◌,
}
use pcie_sim.Api.{success, error_device}
use pcie_sim.Sim.Linux.History.{Transfer}
use pcie_sim.Sim.Windows.{
  DeviceState, Sim, fresh_stats, open_impl, close_impl, transfer_impl, get_timestamp_ns,
  record_transfer,
}
use pcie_sim.Sim.Windows.Average.{stats_of, IsSummary, windows_history}
use pcie_sim.Sim.Windows.Exclusive.{opened, closed, open-close_exclusive}

abbrev pub idle_device : DeviceState
idle_device = record { active = false; stats = fresh_stats; frequency = 10000000 }

abbrev initialized : Sim
initialized = record { devices = replicate 8 idle_device; heap = (λ p. none) }

abbrev earlier : List Transfer
earlier = record { size = 32; latency = 100 } ∷ []

abbrev last_transfer : Transfer
last_transfer = record { size = 64; latency = 301 }

windows_history_example :
    Returns (stats_of (last_transfer ∷ earlier)) (λ s. IsSummary s (last_transfer ∷ earlier))
windows_history_example =
    windows_history last_transfer earlier (omega arith) (omega arith, (omega arith, tt))

open-close_exclusive_example :
    (open_impl initialized (pos 3) true (some 64)
      ≡ some (opened initialized 3 idle_device 64, success, some 64))
    × (open_impl (opened initialized 3 idle_device 64) (pos 3) true (some 96)
        ≡ some (opened initialized 3 idle_device 64, error_device, none))
    × (close_impl (opened initialized 3 idle_device 64) (some 64)
        ≡ some (closed initialized 3 idle_device 64, success))
    × (open_impl (closed initialized 3 idle_device 64) (pos 3) true (some 96)
        ≡ some (
          opened (closed initialized 3 idle_device 64) 3 (record idle_device { active = false }) 96,
          success,
          some 96,
        ))
open-close_exclusive_example =
    open-close_exclusive initialized 3 idle_device 64 96 (omega arith) refl refl

-- Half an hour after the start of a machine whose counter runs at 10 MHz, the product in
-- get_timestamp_ns wraps, and time starts again from almost 0.
timestamp_wraps :
    (get_timestamp_ns 10000000 (record { performance = some 18446744073; ticks = 0 })
      ≡ some 1844674407300)
    × (get_timestamp_ns 10000000 (record { performance = some 18446744074; ticks = 0 }) ≡ some 29)
unfolding get_timestamp_ns
timestamp_wraps = (refl, refl)

-- A read of two bytes fills the buffer and is counted.
two_bytes :
    transfer_impl
        (opened initialized 3 idle_device 64)
        (some 64)
        true
        2
        1
        true
        true
        (record { performance = some 1000; ticks = 0 })
        (record { performance = some 1200; ticks = 0 })
      >>= (λ out. some out.2)
    ≡ some (record { bytes = some (0xAA ∷ 0xAA ∷ []); latency_ns = some 20000 })
unfolding transfer_impl get_timestamp_ns record_transfer
two_bytes = refl
