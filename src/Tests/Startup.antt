-- ===== src/Tests/Startup.antt =====
-- Runs of the initialization of sim/windows_sim.c, and of its busy wait.
use pcie_sim.Base.{
  ◌/◌, ◌≤◌, ℕ, Bool, ◌+◌, ◌*◌, ◌≡◌, refl, arith, true, false, pos, Option, none, some, replicate,
  ◌==◌, if◌then◌else◌, ◌>>=◌,
}
use pcie_sim.Api.{Error, error_system}
use pcie_sim.Sim.Windows.Startup.{
  Globals, init_slots, close_slots, windows_sim_init, open_initializing,
}
use pcie_sim.Sim.Windows.Mutexes.{Initialized, windows_sim_init_all_or_nothing}
use pcie_sim.Sim.Windows.Wait.{delay_for, EndsAt, Ticks, busy_wait_ends}
use pcie_sim.Tests.Windows.{idle_device}

-- When the program starts.
abbrev zeroed : Globals
zeroed = record {
  slots = replicate 8 (record { state = idle_device; mutex = none });
  initialized = false;
  lock = false;
  open_mutexes = (λ q. 0);
  heap = (λ p. none);
}

-- The sixth mutex cannot be created; one counter has no frequency.
abbrev creates : ℕ → Option ℕ
creates i = if i == 5 then none else some (100 + i)

abbrev frequencies : ℕ → Option ℕ
frequencies i = if i == 2 then none else some 10000000

frequencies_positive : (i f : ℕ) → frequencies i ≡ some f → f ≡ 0 → ⊥
frequencies_positive i f e z = ground (arith, e, z)

windows_sim_init_all_or_nothing_example :
    Initialized creates zeroed (windows_sim_init creates frequencies zeroed)
windows_sim_init_all_or_nothing_example =
    windows_sim_init_all_or_nothing creates frequencies frequencies_positive zeroed refl

-- Opening a device then fails with a system error, and no mutex is left open.
failed_opening :
    let seen : Globals × Error × Option ℕ → Option (Error × ℕ × Bool) =
      λ (g, e, h). some (e, g.open_mutexes 100, g.lock) in
    (open_initializing creates frequencies zeroed (pos 3) true (some 7) >>= seen)
    ≡ some (error_system, 0, false)
unfolding open_initializing windows_sim_init init_slots close_slots
failed_opening = refl

-- A counter of 10 MHz that advances by 3 in two readings, and a delay of 7 microseconds.
abbrev counting : ℕ → ℕ
counting k = 1000 + 3 * (k / 2)

counting-Ticks : Ticks counting 1000 2
counting-Ticks = record {
  starts = omega arith;
  keeps = (λ j. omega arith);
  ticks = (λ j. omega arith);
}

busy_wait_ends_example :
    (n : ℕ) × (delay_for counting 1000 7 10000000 141 ≡ some n)
    × (n ≤ 140)
    × EndsAt counting 1000 70 0 n
busy_wait_ends_example = busy_wait_ends counting 1000 7 10000000 2 counting-Ticks (omega arith)
