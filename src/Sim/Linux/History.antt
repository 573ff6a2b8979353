-- ===== src/Sim/Linux/History.antt =====
-- The statistics that pcie_sim_transfer_linux of sim/linux_sim.c has gathered after any history.
use pcie_sim.Base.{
  ℕ, ◌+◌, ◌^◌, ◌≤◌, ◌<◌, ◌≡◌, refl, List, [], ◌∷◌, arith, u64, All, IsLeast, IsGreatest,
  IsLeast-cons, IsGreatest-cons, sum, length, ◌==◌, ◌≢◌, false,
}
use pcie_sim.Api.{Stats, zero_stats}
use pcie_sim.Sim.Linux.{record_transfer}

-- A transfer that a device has made.
pub record Transfer : Type 0 where
  pub size : ℕ
  pub latency : ℕ

-- The statistics after a history, the last transfer first, that began with all zeros.
abbrev pub stats_of : List Transfer → Stats
stats_of [] = zero_stats
stats_of (t ∷ ts) = record_transfer (stats_of ts) t.size t.latency

abbrev pub sizes : List Transfer → List ℕ
sizes [] = []
sizes (t ∷ ts) = t.size ∷ sizes ts

abbrev pub latencies : List Transfer → List ℕ
latencies [] = []
latencies (t ∷ ts) = t.latency ∷ latencies ts

-- The counters are the number of transfers and the sum of their sizes, each modulo 2 ^ 64; this
-- backend counts no error.
pub history_counters :
    (ts : List Transfer)
    → let s = stats_of ts in
      (s.total_transfers ≡ u64 (length ts))
      × (s.total_bytes ≡ u64 (sum (sizes ts)))
      × (s.total_errors ≡ 0)
unfolding record_transfer
history_counters [] = omega arith
history_counters (t ∷ ts) = ground (arith, history_counters ts)

-- The latencies kept are those of the transfers.
pub record IsSummary (s : Stats) (ls : List ℕ) : Type 0 where
  pub least : IsLeast s.min_latency_ns ls
  pub greatest : IsGreatest s.max_latency_ns ls
  pub min_le_avg : s.min_latency_ns ≤ s.avg_latency_ns
  pub avg_le_max : s.avg_latency_ns ≤ s.max_latency_ns
  pub max_small : s.max_latency_ns < 2 ^ 63

first-IsSummary :
    (s : Stats) (size latency : ℕ)
    → u64 (s.total_transfers + 1) ≡ 1
    → latency < 2 ^ 63
    → IsSummary (record_transfer s size latency) (latency ∷ [])
unfolding record_transfer
first-IsSummary s size latency e small = ground arith

next-IsSummary :
    (s : Stats) (size latency : ℕ) (ls : List ℕ)
    → u64 (s.total_transfers + 1) ≢ 1
    → latency < 2 ^ 63
    → IsSummary s ls
    → IsSummary (record_transfer s size latency) (latency ∷ ls)
unfolding record_transfer
next-IsSummary s size latency ls n small h =
    let e : (u64 (s.total_transfers + 1) == 1) ≡ false = ground arith in
    rw e (record {
      least = IsLeast-cons s.min_latency_ns latency ls h.least;
      greatest = IsGreatest-cons s.max_latency_ns latency ls h.greatest;
      min_le_avg = ground arith;
      avg_le_max = ground arith;
      max_small = ground arith;
    })

-- After at least one transfer and fewer than 2 ^ 64, each of a latency below 2 ^ 63, the minimum
-- kept is the least and the maximum kept is the greatest latency, and the average kept lies between.
pub history_latencies :
    (t : Transfer)
    → (ts : List Transfer) → length (t ∷ ts) < 2 ^ 64
    → All (λ l. l < 2 ^ 63) (latencies (t ∷ ts))
    → IsSummary (stats_of (t ∷ ts)) (latencies (t ∷ ts))
history_latencies t [] n small = first-IsSummary zero_stats t.size t.latency refl small.0
history_latencies t (u ∷ ts) n small =
    let counted = (history_counters (u ∷ ts)).0 in
    next-IsSummary (stats_of (u ∷ ts)) t.size t.latency (latencies (u ∷ ts)) (ground arith) small.0
      (history_latencies u ts (omega arith) small.1)
