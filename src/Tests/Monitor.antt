-- ===== src/Tests/Monitor.antt =====
-- Runs of the monitoring of lib/monitor.hpp.
use pcie_sim.Base.{◌≡◌, refl, true, false, some, none, ◌⊎◌}
use pcie_sim.Library.Monitor.Thread.{
  testing, reporting, to_rest, to_restart, starting, stopping, joining, Purpose, Monitor,
  monitor_new, phase_step, thread_step, stop_step, spawn_step, at_control, thread_steps, calls_stop,
  calls_start, stops, spawns, Reachable, begins, continues,
}
use pcie_sim.Library.Monitor.Thread.Lifetime.{monitor_is_safe}
use pcie_sim.Library.Monitor.Thread.Ending.{Ends, join-Ends}

-- The monitoring was started, and is stopped while the thread reports.
abbrev started : Monitor
started = record monitor_new { monitoring = true; thread = some testing }

abbrev waiting : Monitor
waiting = record monitor_new { thread = some reporting; control = joining to_rest }

started-Reachable : Reachable started
unfolding stop_step spawn_step
started-Reachable =
    continues (at_control monitor_new starting) started
      (continues (at_control monitor_new (stopping to_restart)) (at_control monitor_new starting)
        (continues monitor_new (at_control monitor_new (stopping to_restart)) begins refl
          (calls_start monitor_new))
        refl (stops monitor_new to_restart))
      refl (spawns monitor_new)

waiting-Reachable : Reachable waiting
unfolding stop_step thread_step phase_step
waiting-Reachable =
    let reports : Monitor = record started { thread = some reporting } in
    continues (at_control reports (stopping to_rest)) waiting
      (continues reports (at_control reports (stopping to_rest))
        (continues started reports started-Reachable refl
          (thread_steps started testing (λ e. cc e)))
        refl (calls_stop reports))
      refl (stops reports to_rest)

monitor_is_safe_example :
    (waiting.terminated ≡ false)
    × ((waiting.thread ≡ none)
        ⊎ (waiting.monitoring ≡ true)
        ⊎ ((purpose : Purpose) × (waiting.control ≡ joining purpose)))
monitor_is_safe_example = monitor_is_safe waiting waiting-Reachable

join-Ends_example : Ends to_rest waiting
join-Ends_example = join-Ends to_rest waiting waiting-Reachable refl
