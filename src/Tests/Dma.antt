-- ===== src/Tests/Dma.antt =====
-- Runs of kernel/dma.c.
use pcie_sim.Base.{
  ◌/◌, ◌<◌, ◌≡◌, ◌⊎◌, refl, true, List, [], ◌∷◌, arith, success, fail, efault, einval,
  if◌then◌else◌, u64,
}
use pcie_sim.Kernel.Device.{zero_stats}
use pcie_sim.Kernel.Dma.{validate_transfer_request, update_transfer_stats, filled, dma_transfer}
use pcie_sim.Kernel.Dma.Accounting.{
  IsAccepted, counted, answered, dma_transfer_accounts, moves, memory_after, dma_transfer_returns,
}
use pcie_sim.Kernel.Dma.History.{Event, moved, refused, stats_after, history_totals, first_average}
use pcie_sim.Tests.Data.{user_memory, world, answers, request}

dma_transfer_accounts_example :
    let (ret, w', req') = dma_transfer user_memory answers world request in
    (w'.buffers ≡ 0)
    × (w'.device
        ≡ record world.device { stats = counted user_memory answers request zero_stats ret })
    × (req' ≡ answered user_memory answers request ret)
dma_transfer_accounts_example = dma_transfer_accounts user_memory answers world request

dma_transfer_returns_example :
    let (ret, w', req') = dma_transfer user_memory answers world request in
    ((¬ IsAccepted request) × (ret ≡ fail einval) × (w'.mem ≡ []))
    ⊎ (IsAccepted request
        × (ret ≡ (if moves user_memory world request then success else fail efault))
        × (w'.mem ≡ memory_after user_memory answers world request))
dma_transfer_returns_example = dma_transfer_returns user_memory answers world request

-- The read leaves three bytes 0xAA with the user.
read_leaves : (dma_transfer user_memory answers world request).1.mem ≡ 0xAA ∷ 0xAA ∷ 0xAA ∷ []
unfolding dma_transfer validate_transfer_request filled
read_leaves = refl

abbrev history : List Event
history = moved request 300 ∷ refused request ∷ moved request 100 ∷ []

history_totals_example :
    let s = stats_after history in
    (s.total_transfers ≡ u64 2) × (s.total_bytes ≡ u64 6) × (s.total_errors ≡ u64 1)
history_totals_example = history_totals history

first_average_example :
    let s = update_transfer_stats zero_stats request 300 true in
    (s.avg_latency_ns ≡ 300 / 2)
    × (s.min_latency_ns ≡ 300)
    × (s.max_latency_ns ≡ 300)
    × (s.avg_latency_ns < s.min_latency_ns)
first_average_example = first_average request 300 (omega arith) (omega arith)
