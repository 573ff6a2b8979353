-- ===== src/Examples/Pattern.antt =====
-- examples/cpp_test.cpp: the tests by transfer pattern.
pub mod Rounds
pub mod Tested
pub mod Suite
use Prim.Native.Nat.{zero, suc, ◌%◌, ◌^◌}
use pcie_sim.Base.{ℕ, pos, ◌+◌, ◌-◌, ◌*◌, ◌/◌, Option, none, some, u64, if◌then◌else◌, ltb}
use pcie_sim.Library.Backend.{Backend}
use pcie_sim.Library.Device.{
  Result, returned, thrown, Device, device_new, device_drop, write, get_statistics,
}
use pcie_sim.Utils.Csv.{Printer}
use pcie_sim.Utils.Config.{
  Float, Pattern, small_fast, large_burst, mixed, custom, Scenario, scenario_none, TransferConfig,
  TestConfig,
}
use pcie_sim.Examples.Tester.{
  no_rate, Ran, ran, faulted, and_then, defined, ErrorInjector, Env, get_error_type, Tester,
  Attempt, read_clock, sleep_for, ask, choose_injector, simulate_error_delay, log_to_session,
}

-- `device->write(data) + 50000`
abbrev pub with_overhead : ℕ → ℕ
with_overhead latency = u64 (latency + 50000)

-- `1000000 / config.rate_hz`
abbrev pub period_us : ℕ → Ran ℕ
period_us zero = faulted no_rate
period_us (suc n) = ran (1000000 / suc n)

-- The switch: the number of transfers, and the microseconds between them.
unfoldable pub transfer_plan : TransferConfig → Ran (ℕ × ℕ)
transfer_plan config = elim config.pattern [
  | small_fast ↦ and_then (period_us config.rate_hz) (λ us. ran (100, us))
  | large_burst ↦ ran (config.burst_count, config.burst_interval_ms * 1000 % 2 ^ 32)
  | mixed ↦ and_then (period_us config.rate_hz) (λ us. ran (50, us))
  | custom ↦ and_then (period_us config.rate_hz) (λ us. ran (50, us))
  | Pattern.other n ↦ ran (0, 0)
]

-- `if (config.error.scenario != PCIE_SIM_ERROR_SCENARIO_NONE)`
unfoldable pub make_injector : (fl : Float) → TestConfig fl → Option (ErrorInjector fl)
make_injector fl config = elim config.error.scenario [
  | scenario_none ↦ none
  | scenario ↦ some (record { scenario = scenario; probability = config.error.probability })
]

module _ (printer : Printer) (fl : Float) (env : Env fl) (b : Backend) where
  -- The end of an attempt that started at a time: what write() returned, with the overhead of an
  -- injected error, or the time until it threw.
  unfoldable pub finish_attempt :
      Tester printer b → ℕ → Option (ErrorInjector fl) → Result ℕ → Attempt printer b
  unfolding get_error_type
  finish_attempt t start none (returned latency) = record {
    tester = t;
    status = "SUCCESS";
    latency_ns = latency;
  }
  finish_attempt t start (some injector) (returned latency) = record {
    tester = t;
    status = get_error_type fl injector;
    latency_ns = with_overhead latency;
  }
  finish_attempt t start injected (thrown e) =
      let t' = read_clock printer fl env b t in
      record { tester = t'; status = "EXCEPTION"; latency_ns = t'.time - start }

  -- The error that is injected before a transfer.
  abbrev pub inject : Tester printer b → Option (ErrorInjector fl) → Tester printer b
  inject t none = t
  inject t (some injector) = simulate_error_delay printer fl env b t injector

  -- The attempt, from the reading of the clock to the end of the try statement.
  unfoldable pub attempt :
      Tester printer b → Device → ℕ → Option (ErrorInjector fl) → Ran (Attempt printer b)
  unfolding simulate_error_delay finish_attempt
  attempt t device size injected =
      let started = read_clock printer fl env b t in
      let injecting = inject started injected in
      and_then (defined (write b injecting.backend device size 1))
        (λ (s, r). ran (finish_attempt (record injecting { backend = s }) started.time injected r))

  -- One round of the loop.
  unfoldable pub transfer_round :
      Tester printer b
      → Device
      → ℕ
      → TransferConfig
      → Option (ErrorInjector fl)
      → ℕ
      → Ran (Tester printer b)
  unfolding choose_injector attempt log_to_session
  transfer_round t device device_id config injector delay_us =
      let size = env.draw t.asked config.min_size config.max_size in
      let (chosen, injected) = choose_injector printer fl env b (ask printer fl env b t) injector in
      and_then (attempt chosen device size injected) (λ a.
        let logged =
          log_to_session printer fl env b a.tester device_id size a.latency_ns a.status
            (env.thread_hash % 2 ^ 32) in
        ran (if ltb 0 delay_us then sleep_for printer fl env b logged delay_us else logged))

  -- The loop, of so many rounds.
  unfoldable pub transfer_rounds :
      Tester printer b
      → Device
      → ℕ
      → TransferConfig
      → Option (ErrorInjector fl)
      → ℕ
      → ℕ
      → Ran (Tester printer b)
  transfer_rounds t device device_id config injector delay_us zero = ran t
  transfer_rounds t device device_id config injector delay_us (suc more) =
      and_then (transfer_round t device device_id config injector delay_us)
        (λ t'. transfer_rounds t' device device_id config injector delay_us more)

  -- The end of the scope of the device.
  abbrev pub drop : Tester printer b → Device → Ran (Tester printer b)
  drop t device =
      and_then (defined (device_drop b t.backend device)) (λ s. ran (record t { backend = s }))

  -- What follows the construction of the device, up to the end of its scope.
  unfoldable pub test_device :
      Tester printer b
      → Device
      → ℕ
      → TransferConfig
      → Option (ErrorInjector fl)
      → Ran (Tester printer b)
  unfolding transfer_plan transfer_rounds
  test_device t device device_id config injector =
      and_then (transfer_plan config) (λ (count, delay_us).
        and_then (transfer_rounds t device device_id config injector delay_us count) (λ t₁.
          and_then (defined (get_statistics b t₁.backend device))
            (λ (s, stats). drop (record t₁ { backend = s }) device)))

  -- What follows the construction: the test, or the handler of what was thrown.
  abbrev pub with_new :
      Tester printer b
      → Result Device
      → ℕ
      → TransferConfig
      → Option (ErrorInjector fl)
      → Ran (Tester printer b)
  with_new t (thrown e) device_id config injector = ran t
  with_new t (returned device) device_id config injector =
      test_device t device device_id config injector

  -- pattern_based_transfer_test, which catches what the device throws.
  unfoldable pub pattern_based_transfer_test :
      Tester printer b → ℕ → TransferConfig → Option (ErrorInjector fl) → Ran (Tester printer b)
  unfolding test_device
  pattern_based_transfer_test t device_id config injector =
      and_then (defined (device_new b t.backend (pos device_id)))
        (λ (s, r). with_new (record t { backend = s }) r device_id config injector)

  -- The loop of run_pattern_tests: so many devices from a number on.
  unfoldable pub pattern_tests_from :
      Tester printer b → TransferConfig → Option (ErrorInjector fl) → ℕ → ℕ → Ran (Tester printer b)
  pattern_tests_from t config injector i zero = ran t
  pattern_tests_from t config injector i (suc more) =
      and_then (pattern_based_transfer_test t i config injector)
        (λ t'. pattern_tests_from t' config injector (i + 1) more)

  -- run_pattern_tests
  unfoldable pub run_pattern_tests : Tester printer b → TestConfig fl → Ran (Tester printer b)
  unfolding make_injector
  run_pattern_tests t config =
      pattern_tests_from t config.transfer (make_injector fl config) 0 config.num_devices
