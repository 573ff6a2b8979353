-- ===== src/Library/Monitor.antt =====
-- lib/monitor.hpp, and the statistics of lib/device.hpp: performance metrics and the benchmark. The
-- type double is a parameter, and so is how long a benchmark takes.
pub mod Benchmark
pub mod Thread
use Prim.Native.Nat.{zero, suc}
use pcie_sim.Base.{
  Double, ℕ, ◌+◌, ◌*◌, Bool, true, false, Option, none, some, ◌>>=◌, if◌then◌else◌, ltb, ◌==◌, u64,
}
use pcie_sim.Api.{Error, Stats}
use pcie_sim.Library.Backend.{Backend}
use pcie_sim.Library.Device.{
  Result, returned, thrown, Device, transfer, get_statistics, reset_statistics,
}

-- `BenchmarkConfig`
pub record BenchmarkConfig : Type 0 where
  pub transfer_size : ℕ
  pub num_transfers : ℕ
  pub direction : ℕ
  pub warmup : Bool
  pub warmup_transfers : ℕ

module _ (double : Double) where
  open double use {D, whole, times, over}

  -- `PerformanceMetrics`
  pub record PerformanceMetrics : Type 0 where
    pub transfers : ℕ
    pub bytes : ℕ
    pub errors : ℕ
    pub throughput_mbps : D
    pub latency_avg_us : D
    pub latency_min_us : D
    pub latency_max_us : D
    pub error_rate : D

  -- Statistics::throughput_mbps
  unfoldable pub throughput_mbps : Stats → D
  throughput_mbps s =
      if s.total_transfers == 0
      then whole 0
      else over (times (times (whole s.total_bytes) (whole 8)) (whole 1000))
          (whole (u64 (s.avg_latency_ns * s.total_transfers)))

  -- What get_current_metrics and run_benchmark both make of the statistics.
  abbrev pub metrics_of : Stats → D → PerformanceMetrics
  metrics_of s throughput = record {
    transfers = s.total_transfers;
    bytes = s.total_bytes;
    errors = s.total_errors;
    throughput_mbps = throughput;
    latency_avg_us = over (whole s.avg_latency_ns) (whole 1000);
    latency_min_us = over (whole s.min_latency_ns) (whole 1000);
    latency_max_us = over (whole s.max_latency_ns) (whole 1000);
    error_rate =
        (if ltb 0 s.total_transfers
          then over (whole s.total_errors) (whole s.total_transfers)
          else whole 0);
  }

  module _ (b : Backend) where
    -- An exception leaves the function.
    abbrev pub then_do :
        {A B : Type 0}
        → Option (b.State × Result A)
        → (b.State → A → Option (b.State × Result B))
        → Option (b.State × Result B)
    then_do none next = none
    then_do (some (s, thrown e)) next = some (s, thrown e)
    then_do (some (s, returned a)) next = next s a

    -- PerformanceMonitor::get_current_metrics
    unfoldable pub get_current_metrics :
        b.State → Device → Option (b.State × Result PerformanceMetrics)
    get_current_metrics s device =
        then_do (get_statistics b s device)
          (λ s' stats. some (s', returned (metrics_of stats (throughput_mbps stats))))

    -- A loop of transfers.
    unfoldable pub transfer_loop :
        b.State → Device → ℕ → ℕ → ℕ → Option (b.State × Result (Unit {0}))
    transfer_loop s device size direction zero = some (s, returned tt)
    transfer_loop s device size direction (suc more) =
        then_do (transfer b s device size direction)
          (λ s' latency. transfer_loop s' device size direction more)

    -- The transfers before those that are measured.
    unfoldable pub warm_up :
        b.State → Device → BenchmarkConfig → Option (b.State × Result (Unit {0}))
    warm_up s device config =
        if config.warmup
        then then_do
            (transfer_loop s device config.transfer_size config.direction config.warmup_transfers)
            (λ s' done. reset_statistics b s' device)
        else some (s, returned tt)

    -- BenchmarkRunner::run_benchmark, that takes so many microseconds for the measured transfers.
    unfoldable pub run_benchmark :
        b.State → Device → BenchmarkConfig → ℕ → Option (b.State × Result PerformanceMetrics)
    run_benchmark s device config duration = then_do (reset_statistics b s device) (λ s₁ done₁.
        then_do (warm_up s₁ device config) (λ s₂ done₂.
          then_do
            (transfer_loop s₂ device config.transfer_size config.direction config.num_transfers)
            (λ s₃ done₃. then_do (get_statistics b s₃ device) (λ s₄ stats. some (
              s₄,
              returned (
                  metrics_of stats (
                    over (times (whole stats.total_bytes) (whole 8))
                      (times (over (whole duration) (whole 1000000)) (whole 1000000)))),
            )))))
