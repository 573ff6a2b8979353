-- ===== src/Tests/Library.antt =====
-- Runs of lib/core.c, lib/device.hpp and lib/monitor.hpp on the Linux backend.
use Prim.Native.Nat.{suc}
use pcie_sim.Base.{
  Double, ltb, ℕ, ◌*◌, ◌≤◌, ◌≡◌, refl, inl, inr, pos, negsuc, true, List, [], ◌∷◌, some, arith, sum,
  Has, min, Bool-cases, ◌==◌,
}
use pcie_sim.Api.{to_device}
use pcie_sim.Sim.Linux.{Sim, sim_init, put_device, activate, at}
use pcie_sim.Sim.Linux.Calls.{View, start, nothing_open, name_at}
use pcie_sim.Sim.Linux.Represents.{dev_at, Represents-sim_init}
use pcie_sim.Sim.Linux.Leads.{opened_Represents}
use pcie_sim.Sim.Linux.Refine.{start-Represents}
use pcie_sim.Library.Core.{Host, IsHost, World, linux_core}
use pcie_sim.Library.Core.Promises.{Stands, linux_laws}
use pcie_sim.Library.Core.Programs.{
  start_world, Freed, OpenedAll, scope_frees_all, open_all_devices-OpenedAll,
}
use pcie_sim.Library.Device.{open_all_devices}
use pcie_sim.Library.Device.Members.{of_handle}
use pcie_sim.Library.Device.Scope.{
  Statement, constructs, moves_new, moves_assign, transfers, gets_statistics, resets_statistics,
  scope,
}
use pcie_sim.Library.Monitor.{BenchmarkConfig, run_benchmark}
use pcie_sim.Library.Monitor.Benchmark.{Measured, run_benchmark-Measured}

-- An allocator that never reuses what lives, a clock that ticks once a second.
abbrev pub host : Host
host = record {
  malloc = (λ blocks n. some (suc (sum blocks)));
  clock = (λ n. record { tv_sec = n; tv_nsec = 0 });
  print_name = (λ id. []);
}

at_most_sum : (p : ℕ) (blocks : List ℕ) → Has p blocks → p ≤ sum blocks
at_most_sum p [] h = absurd h
at_most_sum p (q ∷ blocks) (inl e) = omega (arith, e)
at_most_sum p (q ∷ blocks) (inr h) = omega (arith, at_most_sum p blocks h)

pub host-IsHost : IsHost host
host-IsHost = record {
  malloc_fresh = (λ blocks n p e h.
      let e' : suc (sum blocks) ≡ p = cc e in omega (arith, e', at_most_sum p blocks h));
}

-- Two devices are opened, one is refused, one is moved over the other, and back.
abbrev statements : List Statement
statements =
    constructs (pos 0)
    ∷ constructs (pos 3)
    ∷ constructs (pos 8)
    ∷ moves_assign 0 1
    ∷ transfers 0 4096 to_device
    ∷ transfers 1 4096 to_device
    ∷ moves_new 0
    ∷ gets_statistics 2
    ∷ resets_statistics 2
    ∷ moves_assign 2 2
    ∷ []

scope_frees_all_example : Freed (scope (linux_core host) start_world [] statements)
scope_frees_all_example = scope_frees_all host host-IsHost statements

open_all_devices-OpenedAll_example :
    OpenedAll (min 12 8) (open_all_devices (linux_core host) start_world (pos 12))
open_all_devices-OpenedAll_example =
    open_all_devices-OpenedAll host host-IsHost 12 (λ blocks n e. cc e)

abbrev pub exact_double : Double
exact_double = record {
  D = ℕ;
  whole = (λ n. n);
  times = (λ a b. a * b);
  over = (λ a b. a);
  positive = (λ a. ltb 0 a);
}

abbrev config : BenchmarkConfig
config = record {
  transfer_size = 4096;
  num_transfers = 3;
  direction = to_device;
  warmup = true;
  warmup_transfers = 2;
}

-- The state with device 0 open at address 1.
abbrev opened_sim : Sim
opened_sim =
    let initialized = sim_init start in
    record (put_device initialized (pos 0)
      (activate host.print_name (pos 0) (host.clock 0) (dev_at initialized 0))) {
        heap =
            at 1 (some (record { fd = negsuc 0; device_id = pos 0; is_simulation = true }))
              initialized.heap;
      }

abbrev opened_view : View
opened_view = record nothing_open { handles = name_at 1 (some 0) nothing_open.handles }

abbrev opened_world : World
opened_world = record { sim = opened_sim; asked = 1; blocks = 1 ∷ [] }

opened_world-Stands : Stands opened_world opened_view
opened_world-Stands =
    let (r, on) = Represents-sim_init start nothing_open start-Represents in
    (
      opened_Represents host.print_name (sim_init start) nothing_open 0 1 (host.clock 0)
          (omega arith) on r,
      λ q n e. elim (Bool-cases (q == 1)) [
        | inl same ↦ inl (ground (arith, same))
        | inr apart ↦ absurd (ground (arith, apart, e))
      ],
    )

run_benchmark-Measured_example :
    Measured exact_double (linux_core host) 3 (3 * 4096) (
      run_benchmark exact_double (linux_core host) opened_world (of_handle (some 1)) config 6000000)
unfolding linux_laws
run_benchmark-Measured_example =
    run_benchmark-Measured exact_double (linux_core host) (linux_laws host host-IsHost) 1 0 config
      opened_world opened_view 6000000 (λ e. absurd (omega (arith, e))) opened_world-Stands refl
