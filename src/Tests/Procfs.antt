-- ===== src/Tests/Procfs.antt =====
-- Runs of kernel/procfs.c.
use pcie_sim.Base.{◌-◌, ◌/◌, ◌≡◌, ◌&&◌, List, [], ◌∷◌, none, some, if◌then◌else◌, ltb, arith}
use pcie_sim.Kernel.Device.{Device}
use pcie_sim.Kernel.Procfs.{Line, number, real, proc_stats_show}
use pcie_sim.Kernel.Procfs.Page.{average_format, jitter_format, shown, proc_stats_show_lem}
use pcie_sim.Tests.Data.{plain_device}
use pcie_sim.Tests.Library.{exact_double}

abbrev used_device : Device
used_device = record plain_device {
  stats = (record {
    total_transfers = 3;
    total_bytes = 12288;
    total_errors = 1;
    avg_latency_ns = 1500;
    min_latency_ns = 1000;
    max_latency_ns = 2400;
  });
}

proc_stats_show_lem_example :
    let s = used_device.stats in
    (page : List (Line exact_double)) × (proc_stats_show exact_double (some used_device)
      ≡ some page)
    × (shown exact_double average_format page ≡ (
        if ltb 0 s.total_transfers
        then some (number (s.total_bytes / s.total_transfers) ∷ [])
        else none))
    × (shown exact_double jitter_format page ≡ (
        if ltb s.min_latency_ns s.max_latency_ns && ltb 0 s.min_latency_ns
        then some (
            number (s.max_latency_ns - s.min_latency_ns)
            ∷ real (
                exact_double.over
                  (exact_double.whole (s.max_latency_ns - s.min_latency_ns))
                  (exact_double.whole 1000))
            ∷ [])
        else none))
proc_stats_show_lem_example = proc_stats_show_lem exact_double used_device (omega arith)
