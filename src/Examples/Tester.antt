-- ===== src/Examples/Tester.antt =====
-- examples/cpp_test.cpp: what its tests share. Undefined behaviour is a fault, and each division of
-- the tests has a fault of its own, for a divisor of 0. The random sources, the clock and the
-- scheduler are parameters, which answer by the number of the question. What is printed is not
-- modelled, and a vector always finds its memory.
use Prim.Native.String.{String}
use pcie_sim.Base.{ℕ, ◌+◌, ◌*◌, ◌≤◌, Bool, true, false, Option, none, some}
use pcie_sim.Library.Backend.{Backend}
use pcie_sim.Utils.Csv.{Printer, TransferRecord, SessionLogger, session_log}
use pcie_sim.Utils.Config.{Float, Scenario, timeout, corruption, overrun}
use pcie_sim.Utils.Config.Names.{error_scenario_to_string}

-- What ends a test where it must not: undefined behaviour of the library, or the division by the
-- rate, by the rate of a burst, by the number of devices, or by the number of transfers. A loop that
-- was given too few steps is unfinished.
pub data Fault : Type 0 where
  undefined no_rate no_delay no_device no_average unfinished : Fault

pub data Ran {ℓ} (A : Type ℓ) : Type ℓ where
  ran : A → Ran A
  faulted : Fault → Ran A

abbrev pub and_then {ℓ κ} : {A : Type ℓ} {B : Type κ} → Ran A → (A → Ran B) → Ran B
and_then (ran a) next = next a
and_then (faulted f) next = faulted f

abbrev pub defined {ℓ} : {A : Type ℓ} → Option A → Ran A
defined none = faulted undefined
defined (some a) = ran a

-- `std::unique_ptr<SessionLogger>` and `std::unique_ptr<ErrorInjector>` are options; the random
-- source of the injector is in the environment.
module _ (fl : Float) where
  open fl use {F, less}

  -- `ErrorInjector`
  pub record ErrorInjector : Type 0 where
    pub scenario : Scenario
    pub probability : F

  -- A size between two others, a number from 0 to 1, the nanoseconds that pass until the clock is
  -- read or a sleep is over, the number of the thread that runs next, and the hash of the main
  -- thread's id.
  pub record Env : Type 0 where
    pub draw : ℕ → ℕ → ℕ → ℕ
    pub chance : ℕ → F
    pub passes : ℕ → ℕ
    pub turn : ℕ → ℕ
    pub thread_hash : ℕ

  -- A size lies between its bounds.
  pub record IsEnv (env : Env) : Type 0 where
    pub draw_ge : (n low high : ℕ) → low ≤ high → low ≤ env.draw n low high
    pub draw_le : (n low high : ℕ) → low ≤ high → env.draw n low high ≤ high

  -- get_error_type
  unfoldable pub get_error_type : ErrorInjector → String
  unfolding error_scenario_to_string
  get_error_type injector = error_scenario_to_string injector.scenario

  -- The milliseconds that simulate_error_delay sleeps.
  unfoldable pub error_delay_ms : ErrorInjector → ℕ
  error_delay_ms injector = elim injector.scenario [
    | timeout ↦ 100
    | corruption ↦ 50
    | overrun ↦ 200
    | rest ↦ 0
  ]

module _ (printer : Printer) (b : Backend) where
  -- The state of the program: the library's, the log of the session, the time in nanoseconds, and
  -- how often the environment was asked.
  pub record Tester : Type 0 where
    pub backend : b.State
    pub session : Option (SessionLogger printer)
    pub time : ℕ
    pub asked : ℕ

  -- An attempt at a transfer: its status and its latency.
  pub record Attempt : Type 0 where
    pub tester : Tester
    pub status : String
    pub latency_ns : ℕ

module _ (printer : Printer) (fl : Float) (env : Env fl) (b : Backend) where
  open fl use {less}
  open printer use {double}
  open double use {whole, times, over}

  -- The clock is read: it stands where `time` says then.
  abbrev pub read_clock : Tester printer b → Tester printer b
  read_clock t = record t { time = t.time + env.passes t.asked; asked = t.asked + 1 }

  -- std::this_thread::sleep_for of so many microseconds.
  abbrev pub sleep_for : Tester printer b → ℕ → Tester printer b
  sleep_for t us = record t { time = t.time + us * 1000 + env.passes t.asked; asked = t.asked + 1 }

  abbrev pub ask : Tester printer b → Tester printer b
  ask t = record t { asked = t.asked + 1 }

  -- should_inject_error
  unfoldable pub should_inject_error : Tester printer b → ErrorInjector fl → Bool
  should_inject_error t injector = less (env.chance t.asked) injector.probability

  -- `error_injector && error_injector->should_inject_error()`: the injector, if it shall inject.
  unfoldable pub choose_injector :
      Tester printer b → Option (ErrorInjector fl) → Tester printer b × Option (ErrorInjector fl)
  unfolding should_inject_error
  choose_injector t none = (t, none)
  choose_injector t (some injector) =
      (ask t, elim (should_inject_error t injector) [ true ↦ some injector | false ↦ none ])

  -- simulate_error_delay
  unfoldable pub simulate_error_delay : Tester printer b → ErrorInjector fl → Tester printer b
  unfolding error_delay_ms
  simulate_error_delay t injector = sleep_for t (error_delay_ms fl injector * 1000)

  -- What is logged of a transfer, at a time.
  abbrev pub entry_at : ℕ → ℕ → ℕ → ℕ → String → ℕ → TransferRecord printer
  entry_at now device_id transfer_size latency_ns status thread_id =
      let latency_us = over (whole latency_ns) (whole 1000) in
      record {
        timestamp = now;
        device_id = device_id;
        transfer_size = transfer_size;
        latency_us = latency_us;
        throughput_mbps =
            over (times (whole transfer_size) (whole 8)) (times latency_us (whole 1000));
        direction = "TO_DEVICE";
        error_status = status;
        thread_id = thread_id;
      }

  -- SessionLogger::log_transfer, where the program has a session.
  unfoldable pub log_to_session : Tester printer b → ℕ → ℕ → ℕ → String → ℕ → Tester printer b
  log_to_session t device_id transfer_size latency_ns status thread_id = elim t.session [
    | none ↦ t
    | some session ↦
        let t' = read_clock t in
        record t' {
          session = some (
              session_log printer session
                (entry_at t'.time device_id transfer_size latency_ns status thread_id));
        }
  ]
