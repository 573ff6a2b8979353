-- ===== src/Examples/Stress/Scheduler.antt =====
-- The scheduler of the stress test of examples/cpp_test.cpp: run_stress_tests and its threads.
use Prim.Native.Nat.{zero, suc, ◌%◌}
use pcie_sim.Base.{ℕ, ◌+◌, ◌*◌, true, false, List, [], ◌∷◌, Option, if◌then◌else◌, ◌==◌, bit_and}
use pcie_sim.Library.Backend.{Backend}
use pcie_sim.Utils.Csv.{Printer}
use pcie_sim.Utils.Config.{Float, TransferConfig, TestConfig}
use pcie_sim.Utils.Options.Convert.{enable_stress}
use pcie_sim.Examples.Tester.{
  no_device, unfinished, Ran, ran, faulted, and_then, ErrorInjector, Env, Tester, ask,
}
use pcie_sim.Examples.Pattern.{make_injector}
use pcie_sim.Examples.Stress.{starting, Worker, is_ended, with_phase, stress_test_worker}

-- `i % g_config->num_devices`
abbrev pub round_robin : ℕ → ℕ → Ran ℕ
round_robin i zero = faulted no_device
round_robin i (suc n) = ran (i % suc n)

-- The threads that run_stress_tests starts: so many from a number on.
unfoldable pub start_workers : ℕ → ℕ → ℕ → Ran (List Worker)
start_workers devices i zero = ran []
start_workers devices i (suc more) = and_then (round_robin i devices) (λ d.
    and_then (start_workers devices (i + 1) more)
      (λ workers. ran (record { device_id = d; thread_id = i; phase = starting } ∷ workers)))

abbrev pub unfinished_workers : List Worker → ℕ
unfinished_workers [] = 0
unfinished_workers (w ∷ workers) = (if is_ended w.phase then 0 else 1) + unfinished_workers workers

-- `i % n`, for a number of threads that is not 0.
abbrev pub next_turn : ℕ → ℕ → ℕ
next_turn n workers = n % workers

-- The steps that are enough for a test of so many threads and seconds.
abbrev pub stress_steps : ℕ → ℕ → ℕ
stress_steps threads seconds = threads * (40000 * seconds + 2)

module _ (printer : Printer) (fl : Float) (env : Env fl) (b : Backend) where
  -- One step of the unfinished thread with a number.
  unfoldable pub step_worker :
      Tester printer b
      → ℕ
      → TransferConfig
      → Option (ErrorInjector fl)
      → List Worker
      → ℕ
      → Ran (Tester printer b × List Worker)
  unfolding stress_test_worker
  step_worker t seconds config injector [] n = ran (t, [])
  step_worker t seconds config injector (w ∷ workers) n = elim (is_ended w.phase) [
    | true ↦
        and_then (step_worker t seconds config injector workers n)
          (λ (t', workers'). ran (t', w ∷ workers'))
    | false ↦ elim n [
      | zero ↦
          and_then (stress_test_worker printer fl env b t seconds config injector w)
            (λ (t', p). ran (t', with_phase w p ∷ workers))
      | suc m ↦
          and_then (step_worker t seconds config injector workers m)
            (λ (t', workers'). ran (t', w ∷ workers'))
    ]
  ]

  -- The threads run until all have ended, for so many steps at most.
  unfoldable pub run_workers :
      ℕ
      → Tester printer b
      → ℕ
      → TransferConfig
      → Option (ErrorInjector fl)
      → List Worker
      → Ran (Tester printer b)
  unfolding step_worker
  run_workers zero t seconds config injector workers =
      if unfinished_workers workers == 0 then ran t else faulted unfinished
  run_workers (suc more) t seconds config injector workers =
      elim (unfinished_workers workers == 0) [
        | true ↦ ran t
        | false ↦
            and_then
              (step_worker (ask printer fl env b t) seconds config injector workers
                (next_turn (env.turn t.asked) (unfinished_workers workers)))
              (λ (t', workers'). run_workers more t' seconds config injector workers')
      ]

  -- run_stress_tests
  unfoldable pub run_stress_tests : Tester printer b → TestConfig fl → Ran (Tester printer b)
  unfolding start_workers run_workers make_injector
  run_stress_tests t config =
      if bit_and config.flags enable_stress == 0
      then ran t
      else and_then (start_workers config.num_devices 0 config.stress.num_threads) (λ workers.
        run_workers (stress_steps config.stress.num_threads config.stress.duration_seconds) t
          config.stress.duration_seconds config.transfer (make_injector fl config) workers)
