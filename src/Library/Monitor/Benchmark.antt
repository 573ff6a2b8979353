-- ===== src/Library/Monitor/Benchmark.antt =====
-- What the benchmark of lib/monitor.hpp counts.
use Prim.Native.Nat.{zero, suc}
use pcie_sim.Base.{
  Double, ℕ, ◌+◌, ◌*◌, ◌≡◌, ◌≢◌, ◌∙◌, ap, List, [], ◌∷◌, Option, some, arith, length, sum, u64,
  subst, inl, inr, Bool-cases,
}
use pcie_sim.Api.{Stats}
use pcie_sim.Sim.Linux.History.{Transfer, stats_of, sizes, history_counters}
use pcie_sim.Sim.Linux.Calls.{View, log_at}
use pcie_sim.Library.Backend.{Backend, Laws}
use pcie_sim.Library.Device.{Result, returned, transfer, get_statistics, reset_statistics}
use pcie_sim.Library.Device.Members.{of_handle}
use pcie_sim.Library.Monitor.{
  BenchmarkConfig, PerformanceMetrics, metrics_of, then_do, transfer_loop, warm_up, run_benchmark,
}

log_at_self : (d : ℕ) (ts : List Transfer) (logs : ℕ → List Transfer) → log_at d ts logs d ≡ ts
log_at_self d ts logs = ground arith

module _ (double : Double) (b : Backend) where
  -- The metrics of a benchmark that returned.
  pub data Measured (transfers bytes : ℕ)
      : Option (b.State × Result (PerformanceMetrics double)) → Type 0 where
    measured :
        (s : b.State) (m : PerformanceMetrics double)
        → m.transfers ≡ u64 transfers
        → m.bytes ≡ u64 bytes
        → m.errors ≡ 0
        → Measured transfers bytes (some (s, returned m))

module _ (double : Double) (b : Backend) (laws : Laws b) (p d : ℕ) where
  open double use {D, whole, times, over}

  -- A function returned, the handle still names the device, and the device's log has grown.
  data Moved (transfers bytes : ℕ) : Option (b.State × Result (Unit {0})) → Type 0 where
    moved :
        (s : b.State) (view : View)
        → laws.Abs s view
        → view.handles p ≡ some d
        → length (view.logs d) ≡ transfers
        → sum (sizes (view.logs d)) ≡ bytes
        → Moved transfers bytes (some (s, returned tt))

  Moved-eq :
      (t t' n n' : ℕ) (r : Option (b.State × Result (Unit {0})))
      → t ≡ t'
      → n ≡ n'
      → Moved t n r
      → Moved t' n' r
  Moved-eq t t' n n' r e e' m = subst (λ x. Moved x n' r) e (subst (λ x. Moved t x r) e' m)

  reset-Moved :
      (s : b.State) (view : View)
      → laws.Abs s view
      → view.handles p ≡ some d
      → Moved 0 0 (reset_statistics b s (of_handle (some p)))
  unfolding reset_statistics
  reset-Moved s view a h =
      let (s', eq, a') = laws.resets_stats_lem s view p d a h in
      let e : log_at d [] view.logs d ≡ [] = log_at_self d [] view.logs in
      rw eq (
        moved s' (record view { logs = log_at d [] view.logs }) a' h (ap length e)
          (ap (λ ts. sum (sizes ts)) e))

  transfer_loop-Moved :
      (size direction more : ℕ) (s : b.State) (view : View)
      → size ≢ 0
      → laws.Abs s view
      → view.handles p ≡ some d
      → Moved
          (length (view.logs d) + more)
          (sum (sizes (view.logs d)) + more * size)
          (transfer_loop double b s (of_handle (some p)) size direction more)
  unfolding transfer_loop transfer
  transfer_loop-Moved size direction zero s view ne a h =
      moved s view a h (omega arith) (omega arith)
  transfer_loop-Moved size direction (suc more) s view ne a h =
      let (s', latency, eq, a') = laws.transfers_lem s view p d size direction a h ne in
      let entry : Transfer = record { size = size; latency = latency } in
      let view' : View = record view { logs = log_at d (entry ∷ view.logs d) view.logs } in
      let e : view'.logs d ≡ (entry ∷ view.logs d) =
        log_at_self d (entry ∷ view.logs d) view.logs in
      rw eq (
        Moved-eq _ _ _ _ (transfer_loop double b s' (of_handle (some p)) size direction more)
          (rw e (omega arith)) (rw e (ground arith))
          (transfer_loop-Moved size direction more s' view' ne a' h))

  -- Whatever was moved before a reset is forgotten.
  reset_after :
      (transfers bytes : ℕ) (r : Option (b.State × Result (Unit {0})))
      → Moved transfers bytes r
      → Moved 0 0 (then_do double b r (λ s done. reset_statistics b s (of_handle (some p))))
  reset_after transfers bytes _ (moved s view a h e e') = reset-Moved s view a h

  warm_up-Moved :
      (config : BenchmarkConfig) (s : b.State) (view : View)
      → config.transfer_size ≢ 0
      → laws.Abs s view
      → view.handles p ≡ some d
      → length (view.logs d) ≡ 0
      → sum (sizes (view.logs d)) ≡ 0
      → Moved 0 0 (warm_up double b s (of_handle (some p)) config)
  unfolding warm_up
  warm_up-Moved config s view ne a h e e' = elim (Bool-cases config.warmup) [
    | inl on ↦ rw on (
        reset_after _ _ _ (
          transfer_loop-Moved config.transfer_size config.direction config.warmup_transfers s view
            ne a h))
    | inr off ↦ rw off (moved s view a h e e')
  ]

  -- What follows a function that returned.
  after :
      (transfers bytes t n : ℕ) (r : Option (b.State × Result (Unit {0})))
      (next : b.State → Unit {0} → Option (b.State × Result (PerformanceMetrics double)))
      → Moved t n r
      → ((s : b.State) (view : View)
          → laws.Abs s view
          → view.handles p ≡ some d
          → length (view.logs d) ≡ t
          → sum (sizes (view.logs d)) ≡ n
          → Measured double b transfers bytes (next s tt))
      → Measured double b transfers bytes (then_do double b r next)
  after transfers bytes t n _ next (moved s view a h e e') k = k s view a h e e'

  measure :
      (transfers bytes : ℕ) (throughput : Stats → D) (s : b.State) (view : View)
      → laws.Abs s view
      → view.handles p ≡ some d
      → length (view.logs d) ≡ transfers
      → sum (sizes (view.logs d)) ≡ bytes
      → Measured double b transfers bytes (
          then_do double b
            (get_statistics b s (of_handle (some p)))
            (λ s' stats. some (s', returned (metrics_of double stats (throughput stats)))))
  unfolding get_statistics
  measure transfers bytes throughput s view a h e e' =
      let (s', eq, a') = laws.gets_stats_lem s view p d a h in
      let (t, n, z) = history_counters (view.logs d) in
      rw eq (
        measured s'
          (metrics_of double (stats_of (view.logs d)) (throughput (stats_of (view.logs d))))
          (t ∙ ap u64 e) (n ∙ ap u64 e') z)

  -- On a backend that keeps its promises, a benchmark with an open device and transfers of some
  -- bytes returns, warmed up or not, and it has measured the transfers that were asked for: their
  -- number and their bytes modulo 2 ^ 64, none of the transfers before or of the warmup, and no
  -- errors.
  pub run_benchmark-Measured :
      (config : BenchmarkConfig) (s : b.State) (view : View) (duration : ℕ)
      → config.transfer_size ≢ 0
      → laws.Abs s view
      → view.handles p ≡ some d
      → Measured double b config.num_transfers
          (config.num_transfers * config.transfer_size)
          (run_benchmark double b s (of_handle (some p)) config duration)
  unfolding run_benchmark
  run_benchmark-Measured config s view duration ne a h =
      let size = config.transfer_size in
      let more = config.num_transfers in
      after _ _ 0 0 _ _ (reset-Moved s view a h) (λ s₁ view₁ a₁ h₁ e₁ n₁.
        after _ _ 0 0 _ _ (warm_up-Moved config s₁ view₁ ne a₁ h₁ e₁ n₁) (λ s₂ view₂ a₂ h₂ e₂ n₂.
          after _ _ (length (view₂.logs d) + more) (sum (sizes (view₂.logs d)) + more * size) _ _
            (transfer_loop-Moved size config.direction more s₂ view₂ ne a₂ h₂)
            (λ s₃ view₃ a₃ h₃ e₃ n₃.
              measure more (more * size)
                (λ stats.
                  over (times (whole stats.total_bytes) (whole 8))
                    (times (over (whole duration) (whole 1000000)) (whole 1000000)))
                s₃ view₃ a₃ h₃ (e₃ ∙ rw e₂ (omega arith)) (n₃ ∙ rw n₂ (omega arith)))))
