-- ===== src/Tests/Linux.antt =====
-- Runs of sim/linux_sim.c.
use pcie_sim.Base.{ℕ, ◌≡◌, refl, true, ℤ, pos, negsuc, List, [], ◌∷◌, none, some, arith}
use pcie_sim.Api.{success, error_param}
use pcie_sim.Sim.Linux.{Clock, get_time_ns, delay, transfer_latency}
use pcie_sim.Sim.Linux.Calls.{
  Call, backend_run, view_run, view_step, start, nothing_open, opens, closes, transfers, gets_stats,
  opened, done, transferred, stats,
}
use pcie_sim.Sim.Linux.Refine.{backend_run_refines}
use pcie_sim.Sim.Linux.History.{Transfer, IsSummary, stats_of, history_latencies}
use pcie_sim.Sim.Linux.Delay.{Slept}

abbrev names : ℤ → List ℕ
names (pos n) = n ∷ []
names (negsuc n) = []

abbrev clock : Clock
clock = record {
  before = (record { tv_sec = 7; tv_nsec = 999999000 });
  after = (record { tv_sec = 8; tv_nsec = 40000 });
}

-- Device 2 is opened, moves two megabytes and a byte, is closed and opened again, and keeps its
-- statistics; device 8 does not exist.
abbrev session : List Call
session =
    opens (pos 2) true (some 64) clock.before
    ∷ transfers (some 64) true 2097153 0 true clock
    ∷ closes (some 64)
    ∷ opens (pos 2) true (some 96) clock.after
    ∷ gets_stats (some 96) true
    ∷ opens (pos 8) true (some 128) clock.after
    ∷ []

backend_run_refines_example : backend_run names start session ≡ view_run nothing_open session
backend_run_refines_example = backend_run_refines names session

abbrev two_transfers : List Transfer
two_transfers = record { size = 64; latency = 300 } ∷ record { size = 32; latency = 100 } ∷ []

history_latencies_example : IsSummary (stats_of two_transfers) (300 ∷ 100 ∷ [])
history_latencies_example =
    history_latencies (record { size = 64; latency = 300 })
      (record { size = 32; latency = 100 } ∷ []) (omega arith) (omega arith, (omega arith, tt))

clock-Slept : Slept 2097152 0 clock
unfolding delay transfer_latency
clock-Slept ts e = ground arith

session_replies :
    view_run nothing_open session
    ≡ some (
        opened success (some 64)
        ∷ transferred success (some (record { tv_sec = 0; tv_nsec = 30000 })) (some 41000)
        ∷ done success
        ∷ opened success (some 96)
        ∷ stats success (some (stats_of (record { size = 2097153; latency = 41000 } ∷ [])))
        ∷ opened error_param none
        ∷ [])
unfolding view_run view_step delay transfer_latency get_time_ns
session_replies = refl
