-- ===== src/Kernel/Dma/History.antt =====
-- What update_transfer_stats of kernel/dma.c has gathered after any history of transfers.
use pcie_sim.Base.{
  ℕ, ◌+◌, ◌/◌, ◌^◌, ◌≤◌, ◌<◌, ◌≡◌, ◌⊎◌, inl, inr, refl, true, false, List, [], ◌∷◌, arith, u64,
}
use pcie_sim.Base.{
  All, IsLeast, IsGreatest, IsLeast-cons, IsGreatest-cons, sum, length, ap, sym, subst, ltb, ◌==◌,
  ◌||◌, if◌then◌else◌,
}
use pcie_sim.Kernel.Device.{Stats, zero_stats, TransferReq}
use pcie_sim.Kernel.Dma.{update_transfer_stats}

-- A transfer that ended, as pcie_sim_dma_transfer reports it: with its latency, or as an error.
pub data Event : Type 0 where
  moved : TransferReq → ℕ → Event
  refused : TransferReq → Event

-- The statistics after a history, the last transfer first, that began with all zeros.
pub stats_after : List Event → Stats
stats_after [] = zero_stats
stats_after (moved req latency_ns ∷ es) = update_transfer_stats (stats_after es) req latency_ns true
stats_after (refused req ∷ es) = update_transfer_stats (stats_after es) req 0 false

abbrev pub latencies : List Event → List ℕ
latencies [] = []
latencies (moved req latency_ns ∷ es) = latency_ns ∷ latencies es
latencies (refused req ∷ es) = latencies es

abbrev pub sizes : List Event → List ℕ
sizes [] = []
sizes (moved req latency_ns ∷ es) = req.size ∷ sizes es
sizes (refused req ∷ es) = sizes es

abbrev pub errors : List Event → ℕ
errors [] = 0
errors (moved req latency_ns ∷ es) = errors es
errors (refused req ∷ es) = errors es + 1

-- The three counters are the number of successes, the sum of their sizes and the number of
-- errors, each modulo 2 ^ 64.
pub history_totals :
    (es : List Event)
    → let s = stats_after es in
      (s.total_transfers ≡ u64 (length (sizes es)))
      × (s.total_bytes ≡ u64 (sum (sizes es)))
      × (s.total_errors ≡ u64 (errors es))
unfolding stats_after update_transfer_stats
history_totals [] = omega arith
history_totals (moved req l ∷ es) = omega (arith, history_totals es)
history_totals (refused req ∷ es) = omega (arith, history_totals es)

-- Nothing measured yet, or the extremes of what was measured.
abbrev Extremes : ℕ → ℕ → List ℕ → Type 0
Extremes low high ls =
    ((ls ≡ []) × (low ≡ 0) × (high ≡ 0)) ⊎ (IsLeast low ls × IsGreatest high ls × (0 < low))

-- The minimum that the code keeps, where 0 stands for none.
abbrev lower : ℕ → ℕ → ℕ
lower low l = if low == 0 || ltb l low then l else low

lower-Extremes :
    (low high l : ℕ) (ls : List ℕ)
    → 0 < l
    → Extremes low high ls
    → IsLeast (lower low l) (l ∷ ls)
      × IsGreatest (if ltb high l then l else high) (l ∷ ls)
      × (0 < lower low l)
lower-Extremes low high l ls p (inl (e, z, t)) =
    rw (e, z, t) ((inl refl, (omega arith, tt)), ground arith, omega arith)
lower-Extremes low high l ls p (inr (least, greatest, q)) = (
  subst (λ n. IsLeast n (l ∷ ls)) (sym same) (IsLeast-cons low l ls least),
  IsGreatest-cons high l ls greatest,
  ground arith,
)
  where
    same : lower low l ≡ (if ltb l low then l else low)
    same = ground arith

history_Extremes :
    (es : List Event)
    → All (λ l. 0 < l) (latencies es)
    → Extremes (stats_after es).min_latency_ns (stats_after es).max_latency_ns (latencies es)
unfolding stats_after update_transfer_stats
history_Extremes [] h = inl (refl, refl, refl)
history_Extremes (moved req l ∷ es) h =
    inr (lower-Extremes _ _ l (latencies es) h.0 (history_Extremes es h.1))
history_Extremes (refused req ∷ es) h = history_Extremes es h

-- Where every latency measured was above 0 and there was one, the minimum kept is the least and
-- the maximum kept is the greatest of them.
pub history_extremes :
    (es : List Event)
    → All (λ l. 0 < l) (latencies es)
    → 0 < length (latencies es)
    → IsLeast (stats_after es).min_latency_ns (latencies es)
      × IsGreatest (stats_after es).max_latency_ns (latencies es)
history_extremes es h n = elim (history_Extremes es h) [
  | inl (e, _, _) ↦ absurd (omega (arith, ap length e))
  | inr (least, greatest, _) ↦ (least, greatest)
]

-- The average kept is never above the greatest latency, if all latencies lie below 2 ^ 63.
pub history_average :
    (es : List Event)
    → All (λ l. l < 2 ^ 63) (latencies es)
    → ((stats_after es).avg_latency_ns ≤ (stats_after es).max_latency_ns)
      × ((stats_after es).max_latency_ns < 2 ^ 63)
unfolding stats_after update_transfer_stats
history_average [] h = omega arith
history_average (moved req l ∷ es) h = ground (arith, history_average es h.1)
history_average (refused req ∷ es) h = history_average es h

-- The first success after a reset leaves half of its latency as the average, so that the average
-- lies below the minimum, which is the latency, as is the maximum.
pub first_average :
    (req : TransferReq) (latency_ns : ℕ)
    → 0 < latency_ns
    → latency_ns < 2 ^ 64
    → let s = update_transfer_stats zero_stats req latency_ns true in
      (s.avg_latency_ns ≡ latency_ns / 2)
      × (s.min_latency_ns ≡ latency_ns)
      × (s.max_latency_ns ≡ latency_ns)
      × (s.avg_latency_ns < s.min_latency_ns)
unfolding update_transfer_stats
first_average req l p q = ground arith
