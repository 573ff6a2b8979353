-- ===== src/Sim/Windows/Average.antt =====
-- The statistics that pcie_sim_transfer_impl of sim/windows_sim.c has gathered after any history.
use native.Mathlib.Nat.{mul-le-mul_right, le-div_iff_mul-le, div-le_of_le-mul}
use pcie_sim.Base.{
  ℕ, suc, ◌+◌, ◌*◌, ◌/◌, ◌^◌, ◌≤◌, ◌<◌, ◌≡◌, refl, inl, List, [], ◌∷◌, Option, some, ◌>>=◌, arith,
  u64, sub64, All, IsLeast, IsGreatest, IsLeast-cons, IsGreatest-cons, sum, length, ltb, ◌==◌,
  if◌then◌else◌, true, false, Returns, Returns-some, ap, max64,
}
use pcie_sim.Api.{Stats}
use pcie_sim.Sim.Linux.History.{Transfer, sizes, latencies}
use pcie_sim.Sim.Windows.{record_transfer, fresh_stats}

-- The statistics after a history, the last transfer first, that began after a reset.
abbrev pub stats_of : List Transfer → Option Stats
stats_of [] = some fresh_stats
stats_of (t ∷ ts) = stats_of ts >>= (λ s. record_transfer s t.size t.latency)

-- The average of `n` values moves by one more value, with a whole division.
average :
    (low high avg n l : ℕ)
    → low ≤ avg
    → avg ≤ high
    → low ≤ l
    → l ≤ high
    → (low ≤ (avg * n + l) / suc n) × ((avg * n + l) / suc n ≤ high)
average low high avg n l p q r t =
    let p' = mul-le-mul_right n p in
    let q' = mul-le-mul_right n q in
    (
      (le-div_iff_mul-le {k = suc n} (omega arith)).1 (omega (arith, p')),
      div-le_of_le-mul (suc n) (omega (arith, q')),
    )

-- The number of transfers, the sum of their sizes modulo 2 ^ 64, and the latencies kept.
pub record IsSummary (s : Stats) (ts : List Transfer) : Type 0 where
  pub total : s.total_transfers ≡ length ts
  pub bytes : s.total_bytes ≡ u64 (sum (sizes ts))
  pub least : IsLeast s.min_latency_ns (latencies ts)
  pub greatest : IsGreatest s.max_latency_ns (latencies ts)
  pub min_le_avg : s.min_latency_ns ≤ s.avg_latency_ns
  pub avg_le_max : s.avg_latency_ns ≤ s.max_latency_ns
  pub max_small : s.max_latency_ns < 2 ^ 32

first-IsSummary :
    (t : Transfer) → t.latency < 2 ^ 32 → Returns (stats_of (t ∷ [])) (λ s. IsSummary s (t ∷ []))
unfolding record_transfer
first-IsSummary t small =
    let low : ltb t.latency max64 ≡ true = ground arith in
    let high : (if ltb 0 t.latency then t.latency else 0) ≡ t.latency = ground arith in
    rw (low, high)
      (record {
        total = refl;
        bytes = omega arith;
        least = (inl refl, (omega arith, tt));
        greatest = (inl refl, (omega arith, tt));
        min_le_avg = omega arith;
        avg_le_max = omega arith;
        max_small = small;
      })

-- The statistics after one more transfer, where nothing wraps.
abbrev recorded : Stats → Transfer → Stats
recorded s t = record s {
  total_transfers = suc s.total_transfers;
  total_bytes = u64 (s.total_bytes + t.size);
  min_latency_ns = (if ltb t.latency s.min_latency_ns then t.latency else s.min_latency_ns);
  max_latency_ns = (if ltb s.max_latency_ns t.latency then t.latency else s.max_latency_ns);
  avg_latency_ns = (s.avg_latency_ns * s.total_transfers + t.latency) / suc s.total_transfers;
}

record_transfer-recorded :
    (s : Stats) (t : Transfer)
    → 0 < s.total_transfers
    → s.total_transfers < 2 ^ 31
    → s.avg_latency_ns < 2 ^ 32
    → t.latency < 2 ^ 32
    → record_transfer s t.size t.latency ≡ some (recorded s t)
unfolding record_transfer
record_transfer-recorded s t p q r u =
    let small =
      mul-le-mul_right {m = s.avg_latency_ns} {n = 2 ^ 32} s.total_transfers (omega arith) in
    let counted : u64 (s.total_transfers + 1) ≡ suc s.total_transfers = omega arith in
    let before : sub64 (suc s.total_transfers) 1 ≡ s.total_transfers = omega arith in
    let product : u64 (s.avg_latency_ns * s.total_transfers)
        ≡ s.avg_latency_ns * s.total_transfers =
      omega (arith, small) in
    let whole : u64 (s.avg_latency_ns * s.total_transfers + t.latency)
        ≡ s.avg_latency_ns * s.total_transfers + t.latency =
      omega (arith, small) in
    let more : (suc s.total_transfers == 1) ≡ false = ground arith in
    let nonzero : (suc s.total_transfers == 0) ≡ false = ground arith in
    rw (counted, more, nonzero, before, product, whole) refl

next-IsSummary :
    (s : Stats) (t : Transfer) (ts : List Transfer)
    → 0 < length ts
    → length ts < 2 ^ 31
    → t.latency < 2 ^ 32
    → IsSummary s ts
    → IsSummary (recorded s t) (t ∷ ts)
next-IsSummary s t ts p q small h =
    let (above, below) =
      average (if ltb t.latency s.min_latency_ns then t.latency else s.min_latency_ns)
        (if ltb s.max_latency_ns t.latency then t.latency else s.max_latency_ns) s.avg_latency_ns
        s.total_transfers t.latency (ground (arith, h.min_le_avg)) (ground (arith, h.avg_le_max))
        (ground arith) (ground arith) in
    record {
      total = ap suc h.total;
      bytes = omega (arith, h.bytes);
      least = IsLeast-cons s.min_latency_ns t.latency (latencies ts) h.least;
      greatest = IsGreatest-cons s.max_latency_ns t.latency (latencies ts) h.greatest;
      min_le_avg = above;
      avg_le_max = below;
      max_small = ground (arith, h.max_small);
    }

-- From a reset, after at least one transfer and fewer than 2 ^ 31, each of a latency below 2 ^ 32
-- nanoseconds: the update of the statistics has divided by 0 at no transfer, the counters are the
-- number of transfers and the sum of their sizes modulo 2 ^ 64, the minimum and the maximum kept
-- are the least and the greatest latency, and the average kept lies between them.
pub windows_history :
    (t : Transfer) (ts : List Transfer)
    → length (t ∷ ts) < 2 ^ 31
    → All (λ l. l < 2 ^ 32) (latencies (t ∷ ts))
    → Returns (stats_of (t ∷ ts)) (λ s. IsSummary s (t ∷ ts))
windows_history t [] n small = first-IsSummary t small.0
windows_history t (u ∷ ts) n small =
    let (s, e, h) =
      Returns-some (λ s. IsSummary s (u ∷ ts)) (stats_of (u ∷ ts))
        (windows_history u ts (omega arith) small.1) in
    let recorded_next =
      record_transfer-recorded s t (omega (arith, h.total)) (omega (arith, h.total))
        (omega (arith, h.avg_le_max, h.max_small)) small.0 in
    rw (e, recorded_next) (next-IsSummary s t (u ∷ ts) (omega arith) (omega arith) small.0 h)
