-- ===== src/Library/Monitor/Thread.antt =====
-- PerformanceMonitor::start_monitoring and stop_monitoring of lib/monitor.hpp: the thread that
-- reports, and the one that starts and stops it, as steps that interleave. The calls are those of
-- one thread: the class has no lock for calls from several at once, or from the callback.
pub mod Lifetime
pub mod Ending
use pcie_sim.Base.{
  ℕ, ◌+◌, zero, suc, Bool, ◌||◌, true, false, Option, none, some, is_some, ◌≡◌, if◌then◌else◌,
}

-- Where the reporting thread is: before the test of `monitoring_`, in get_current_metrics and the
-- callback, in sleep_for, or at its end.
pub data Phase : Type 0 where
  testing reporting sleeping ended : Phase

-- Which call stop_monitoring was made for: its own, or one of start_monitoring.
pub data Purpose : Type 0 where
  to_rest to_restart : Purpose

-- Where the controlling thread is: outside, at the beginning of stop_monitoring, in join(), or in
-- start_monitoring after its call of stop_monitoring.
pub data Control : Type 0 where
  outside starting : Control
  stopping joining : Purpose → Control

-- `PerformanceMonitor`, with `monitor_thread_` as `none` while it is not joinable, how many reports
-- were made, and the two ways to std::terminate: a thread was assigned over one that is joinable, or
-- an exception left the reporting thread.
pub record Monitor : Type 0 where
  pub monitoring : Bool
  pub thread : Option Phase
  pub control : Control
  pub reports : ℕ
  pub terminated : Bool
  pub thrown : Bool

-- The constructor.
abbrev pub monitor_new : Monitor
monitor_new = record {
  monitoring = false;
  thread = none;
  control = outside;
  reports = 0;
  terminated = false;
  thrown = false;
}

-- A step of the reporting thread, of what it reads from `monitoring_`.
unfoldable pub phase_step : Bool → Phase → Phase
phase_step true testing = reporting
phase_step false testing = ended
phase_step monitoring reporting = sleeping
phase_step monitoring sleeping = testing
phase_step monitoring ended = ended

abbrev pub reported : Phase → ℕ
reported reporting = 1
reported _ = 0

unfoldable pub thread_step : Monitor → Phase → Monitor
thread_step m phase = record m {
  thread = some (phase_step m.monitoring phase);
  reports = m.reports + reported phase;
}

-- get_current_metrics, or the callback, throws: nothing catches it.
unfoldable pub throw_step : Monitor → Monitor
throw_step m = record m { thread = some reporting; thrown = true }

-- Where stop_monitoring returns to.
abbrev pub returns : Purpose → Control
returns to_rest = outside
returns to_restart = starting

-- The beginning of stop_monitoring.
unfoldable pub stop_step : Monitor → Purpose → Monitor
stop_step m purpose =
    if m.monitoring
    then record m {
      monitoring = false;
      control = (if is_some m.thread then joining purpose else returns purpose);
    }
    else record m { control = returns purpose }

-- The end of join().
unfoldable pub join_step : Monitor → Purpose → Monitor
join_step m purpose = record m { thread = none; control = returns purpose }

-- The rest of start_monitoring.
unfoldable pub spawn_step : Monitor → Monitor
spawn_step m = record m {
  monitoring = true;
  thread = some testing;
  control = outside;
  terminated = m.terminated || is_some m.thread;
}

-- The same where the constructor of std::thread throws to the caller.
unfoldable pub fail_step : Monitor → Monitor
fail_step m = record m { monitoring = true; control = outside }

abbrev pub at_control : Monitor → Control → Monitor
at_control m control = record m { control = control }

-- A step of either thread. The controlling thread calls one function after the other, and join()
-- waits for the end of the other thread.
pub data Step : Monitor → Monitor → Type 0 where
  thread_steps :
      (m : Monitor) (phase : Phase)
      → (phase ≡ ended → ⊥)
      → Step (record m { thread = some phase }) (thread_step m phase)
  throws : (m : Monitor) → Step (record m { thread = some reporting }) (throw_step m)
  calls_stop : (m : Monitor) → Step (at_control m outside) (at_control m (stopping to_rest))
  calls_start : (m : Monitor) → Step (at_control m outside) (at_control m (stopping to_restart))
  stops :
      (m : Monitor) (purpose : Purpose)
      → Step (at_control m (stopping purpose)) (stop_step m purpose)
  joins :
      (m : Monitor) (purpose : Purpose)
      → Step (record m { thread = some ended; control = joining purpose }) (join_step m purpose)
  spawns : (m : Monitor) → Step (at_control m starting) (spawn_step m)
  fails : (m : Monitor) → Step (at_control m starting) (fail_step m)

-- Whether the program has ended.
abbrev pub is_over : Monitor → Bool
is_over m = m.terminated || m.thrown

-- What can be reached by any interleaving of steps, as long as the program has not ended.
pub data Reachable : Monitor → Type 0 where
  begins : Reachable monitor_new
  continues : (m m' : Monitor) → Reachable m → is_over m ≡ false → Step m m' → Reachable m'
