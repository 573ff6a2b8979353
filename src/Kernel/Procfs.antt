-- ===== src/Kernel/Procfs.antt =====
-- proc_stats_show of kernel/procfs.c: the page of statistics, as the calls of seq_puts and seq_printf
-- with their arguments. `none` is a division by zero.
pub mod Page
use Prim.Native.String.{String}
use pcie_sim.Base.{
  ℕ, ◌+◌, ◌*◌, ◌/◌, Double, Bool, true, false, ◌&&◌, List, [], ◌∷◌, ◌++◌, Option, none, some, ◌>>=◌,
  if◌then◌else◌, ltb, ◌==◌, u64, sub64,
}
use pcie_sim.Kernel.Device.{Device, Stats}

module _ (double : Double) where
  open double use {D, whole, times, over, positive}

  -- An argument of seq_printf.
  pub data Argument : Type 0 where
    number : ℕ → Argument
    real : D → Argument
    string : String → Argument

  -- What a call writes: a text, or a format with its arguments.
  pub data Line : Type 0 where
    puts : String → Line
    printf : String → List Argument → Line

  -- `a / b`, of u64.
  abbrev pub quotient : ℕ → ℕ → Option ℕ
  quotient a b = if b == 0 then none else some (a / b)

  -- A latency in nanoseconds, and in microseconds.
  abbrev pub latency : String → ℕ → Line
  latency format ns = printf format (number ns ∷ real (over (whole ns) (whole 1000)) ∷ [])

  -- `avg_throughput_mbps`
  unfoldable pub avg_throughput_mbps : Stats → D
  avg_throughput_mbps s =
      if ltb 0 s.avg_latency_ns && ltb 0 s.total_bytes
      then over
          (over (whole (u64 (s.total_bytes * 8)))
            (times (over (whole s.avg_latency_ns) (whole 1000000000)) (whole s.total_transfers)))
          (whole 1000000)
      else whole 0

  -- The counters.
  unfoldable pub summary_lines : Stats → List Line
  summary_lines s =
      puts "Transfer Summary:\n"
      ∷ printf "  Total Transfers:     %llu\n" (number s.total_transfers ∷ [])
      ∷ printf "  Total Bytes:         %llu (%llu KB, %llu MB)\n" (
          number s.total_bytes
          ∷ number (s.total_bytes / 1024)
          ∷ number (s.total_bytes / (1024 * 1024))
          ∷ [])
      ∷ printf "  Total Errors:        %llu\n" (number s.total_errors ∷ [])
      ∷ []

  -- The average size and the error rate, after some transfer.
  unfoldable pub average_lines : Stats → Option (List Line)
  average_lines s =
      if ltb 0 s.total_transfers
      then quotient s.total_bytes s.total_transfers >>= (λ size. some (
          printf "  Average Transfer Size: %llu bytes\n" (number size ∷ [])
          ∷ printf "  Error Rate:          %.2f%%\n" (
              real (
                over (times (whole s.total_errors) (whole 100))
                  (whole (u64 (s.total_transfers + s.total_errors))))
              ∷ [])
          ∷ []))
      else some []

  -- The latencies.
  unfoldable pub latency_lines : Stats → List Line
  latency_lines s =
      puts "\nLatency Statistics:\n"
      ∷ latency "  Average Latency:     %llu ns (%.2f µs)\n" s.avg_latency_ns
      ∷ (if ltb 0 s.min_latency_ns
          then latency "  Minimum Latency:     %llu ns (%.2f µs)\n" s.min_latency_ns
          else puts "  Minimum Latency:     Not measured\n")
      ∷ latency "  Maximum Latency:     %llu ns (%.2f µs)\n" s.max_latency_ns
      ∷ []

  -- The jitter, where the latencies differ.
  unfoldable pub jitter_lines : Stats → List Line
  jitter_lines s =
      if ltb s.min_latency_ns s.max_latency_ns && ltb 0 s.min_latency_ns
      then latency "  Jitter (max-min):    %llu ns (%.2f µs)\n"
          (sub64 s.max_latency_ns s.min_latency_ns)
        ∷ []
      else []

  -- The throughput and the status.
  unfoldable pub performance_lines : Device → List Line
  performance_lines dev =
      let mbps = avg_throughput_mbps dev.stats in
      puts "\nPerformance Metrics:\n"
      ∷ (if positive mbps
          then printf "  Average Throughput:  %.2f Mbps (%.2f MB/s)\n"
              (real mbps ∷ real (over mbps (whole 8)) ∷ [])
          else puts "  Average Throughput:  Not calculated\n")
      ∷ puts "\nDevice Status:\n"
      ∷ printf "  Device Enabled:      %s\n" (string (if dev.enabled then "Yes" else "No") ∷ [])
      ∷ printf "  Device File:         /dev/pcie_sim%d\n" (number dev.device_id ∷ [])
      ∷ []

  -- The page, with the averages.
  abbrev pub page_with : Device → List Line → List Line
  page_with dev averages =
      printf "PCIe Simulator Device %d Statistics\n" (number dev.device_id ∷ [])
      ∷ puts "===================================\n\n"
      ∷ (summary_lines dev.stats
          ++ (averages
              ++ (latency_lines dev.stats ++ (jitter_lines dev.stats ++ performance_lines dev))))

  -- proc_stats_show, of a pointer that may be NULL.
  unfoldable pub proc_stats_show : Option Device → Option (List Line)
  proc_stats_show none = some (puts "Error: No device context\n" ∷ [])
  proc_stats_show (some dev) =
      average_lines dev.stats >>= (λ averages. some (page_with dev averages))
