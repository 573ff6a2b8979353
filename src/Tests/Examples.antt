-- ===== src/Tests/Examples.antt =====
-- Runs of examples/cpp_test.cpp and examples/basic_test.c on the Linux backend.
use Prim.Native.String.{String}
use Prim.Native.Nat.{◌%◌}
use pcie_sim.Base.{
  ℕ, pos, ◌*◌, ◌≡◌, refl, true, List, [], ◌∷◌, Option, none, some, arith, if◌then◌else◌, ◌==◌,
  length,
}
use pcie_sim.Sim.Linux.Calls.{nothing_open}
use pcie_sim.Library.Core.{World, linux_core}
use pcie_sim.Library.Core.Promises.{linux_laws}
use pcie_sim.Library.Core.Programs.{start_world, start-Stands}
use pcie_sim.Utils.Csv.{session_new}
use pcie_sim.Utils.Config.{TestConfig, small_fast, small_fast_config, timeout, stress, defaults}
use pcie_sim.Utils.Config.Validity.{IsValid}
use pcie_sim.Utils.Options.{parse, parse_loop}
use pcie_sim.Utils.Options.Standard.{create_otpu_options}
use pcie_sim.Examples.Tester.{Fault, no_average, Env, IsEnv, Tester}
use pcie_sim.Examples.Pattern.{make_injector, run_pattern_tests}
use pcie_sim.Examples.Pattern.Suite.{Suite}
use pcie_sim.Examples.Stress.Scheduler.{run_stress_tests}
use pcie_sim.Examples.Stress.Measure.{IsPaced}
use pcie_sim.Examples.Stress.Ends.{Stressed, run_stress_tests-Stressed}
use pcie_sim.Examples.Program.{Exit, exits, aborts, crashes, Surroundings, main}
use pcie_sim.Examples.Basic.{basic_test}
use pcie_sim.Examples.Basic.Lines.{Tested, basic_test-Tested}
use pcie_sim.Tests.Config.{exact}
use pcie_sim.Tests.Options.{decimal}
use pcie_sim.Tests.Csv.{printer}
use pcie_sim.Tests.Library.{host, host-IsHost, exact_double}

-- The bounds of a size in turn, a microsecond for each question, and the threads in turn.
abbrev env : Env exact
env = record {
  draw = (λ n low high. if n % 2 == 0 then low else high);
  chance = (λ n. n % 3 * 100);
  passes = (λ n. 1000);
  turn = (λ n. n);
  thread_hash = 42;
}

env-IsEnv : IsEnv exact env
env-IsEnv = record {
  draw_ge = (λ n low high l. ground (arith, l));
  draw_le = (λ n low high l. ground (arith, l));
}

-- Two devices, errors, two threads for a second, and a log.
abbrev config : TestConfig exact
config = record (defaults exact) {
  num_devices = 2;
  transfer = small_fast_config;
  error = (record {
    scenario = timeout;
    probability = 100;
    inject_after_count = 0;
    recovery_time_ms = 100;
  });
  stress = (record {
    load_type = stress;
    num_threads = 2;
    duration_seconds = 1;
    ramp_up_seconds = 0;
  });
  flags = 7;
}

config-IsValid : IsValid exact config
config-IsValid = record {
  devices_ge = omega arith;
  devices_le = omega arith;
  transfers = (record {
    min_ge = omega arith;
    max_le = omega arith;
    ordered = omega arith;
    rate_ge = omega arith;
    rate_le = omega arith;
  });
  chances = (refl, refl);
  threads_le = omega arith;
  duration_le = omega arith;
}

config-IsPaced : IsPaced config.transfer
config-IsPaced = record { burst_ge = omega arith; burst_le = omega arith; rate_le = omega arith }

abbrev tester : Tester printer (linux_core host)
tester = record {
  backend = start_world;
  session = some (session_new printer "out.csv" "pattern=small-fast" 5000000000 true);
  time = 5000000000;
  asked = 0;
}

run_stress_tests-Stressed_example :
    Stressed printer exact env env-IsEnv
      (linux_core host)
      (linux_laws host host-IsHost)
      7
      config.stress.num_threads
      config.stress.duration_seconds
      (make_injector exact config)
      2
      small_fast_config
      tester
      nothing_open
      (run_stress_tests printer exact env (linux_core host) tester config)
unfolding linux_laws
run_stress_tests-Stressed_example =
    run_stress_tests-Stressed printer exact env env-IsEnv (linux_core host)
      (linux_laws host host-IsHost) tester nothing_open config config-IsValid config-IsPaced
      start-Stands

abbrev outer : Surroundings exact
outer = record { env = env; stoi = decimal; opens = (λ name. true); text_of = (λ bytes. "out.csv") }

abbrev arguments : List String
arguments =
    "-d" ∷ "2" ∷ "-p" ∷ "custom" ∷ "-s" ∷ "64" ∷ "-r" ∷ "1" ∷ "-t" ∷ "2" ∷ "-dur" ∷ "1" ∷ "-l"
    ∷ "out.csv" ∷ []

-- The code and the number of lines of the log.
abbrev report : Exit (linux_core host) → Option (ℕ × Option ℕ)
report aborts = none
report (crashes f) = none
report (exits code s none) = some (code, none)
report (exits code s (some lines)) = some (code, some (length lines))

-- Device 3, that the argument names.
basic_test-Tested_example :
    Tested exact_double
      (linux_core host)
      (linux_laws host host-IsHost)
      nothing_open
      (pos 3)
      (basic_test exact_double (linux_core host) (λ text. pos 3) start_world ("3" ∷ []))
unfolding linux_laws
basic_test-Tested_example =
    basic_test-Tested exact_double (linux_core host) (linux_laws host host-IsHost) (λ text. pos 3)
      start_world nothing_open ("3" ∷ []) start-Stands

-- Each question takes two seconds.
abbrev busy : Surroundings exact
busy = record outer { env = (record env { passes = (λ n. 2000000000) }) }

-- The log has four lines before and after the records of 100 transfers by pattern and two more. On
-- a busy machine a thread finds its second over before its first transfer.
main_test :
    (report (main printer exact outer (linux_core host) start_world 5000000000 "test" arguments)
      ≡ some (0, some 110))
    × (main printer exact busy (linux_core host) start_world 5000000000 "test" arguments
        ≡ crashes no_average)
unfolding main parse parse_loop create_otpu_options pcie_sim.Examples.Program.print_log
    pcie_sim.Utils.Options.classify pcie_sim.Utils.Options.take_value
    pcie_sim.Utils.Options.required_missing pcie_sim.Utils.Options.Convert.to_config
    pcie_sim.Utils.Options.get_int pcie_sim.Utils.Config.Names.parse_pattern
    pcie_sim.Utils.Options.get_string pcie_sim.Utils.Config.config_validate
    pcie_sim.Utils.Options.has_option pcie_sim.Utils.Config.set_error_scenario
    pcie_sim.Utils.Config.Names.parse_error_scenario pcie_sim.Utils.Config.set_custom_pattern
    pcie_sim.Examples.Pattern.run_pattern_tests pcie_sim.Examples.Pattern.pattern_tests_from
    pcie_sim.Examples.Pattern.pattern_based_transfer_test pcie_sim.Library.Device.device_new
    pcie_sim.Library.Core.pcie_sim_open pcie_sim.Library.Core.pcie_sim_close
    pcie_sim.Library.Core.pcie_sim_transfer pcie_sim.Library.Core.pcie_sim_get_stats
    pcie_sim.Sim.Linux.close_linux pcie_sim.Sim.Linux.transfer_linux
    pcie_sim.Sim.Linux.get_stats_linux pcie_sim.Sim.Linux.record_transfer
    pcie_sim.Examples.Pattern.attempt pcie_sim.Examples.Pattern.finish_attempt
    pcie_sim.Examples.Pattern.make_injector pcie_sim.Examples.Pattern.test_device
    pcie_sim.Examples.Pattern.transfer_plan pcie_sim.Examples.Pattern.transfer_round
    pcie_sim.Examples.Pattern.transfer_rounds pcie_sim.Examples.Program.config_summary
    pcie_sim.Examples.Program.log_filename pcie_sim.Examples.Program.open_session
    pcie_sim.Examples.Program.run_tests pcie_sim.Examples.Stress.attempt_write
    pcie_sim.Examples.Stress.average_ns pcie_sim.Examples.Stress.record_transfer
    pcie_sim.Examples.Stress.Scheduler.run_stress_tests
    pcie_sim.Examples.Stress.Scheduler.run_workers pcie_sim.Examples.Stress.start
    pcie_sim.Examples.Stress.Scheduler.start_workers pcie_sim.Examples.Stress.Scheduler.step_worker
    pcie_sim.Examples.Stress.stress_delay_us pcie_sim.Examples.Stress.stress_test_worker
    pcie_sim.Examples.Stress.test pcie_sim.Examples.Tester.choose_injector
    pcie_sim.Examples.Tester.error_delay_ms pcie_sim.Examples.Tester.get_error_type
    pcie_sim.Examples.Tester.log_to_session pcie_sim.Examples.Tester.should_inject_error
    pcie_sim.Examples.Tester.simulate_error_delay pcie_sim.Library.Device.device_drop
    pcie_sim.Library.Device.get_statistics pcie_sim.Library.Device.transfer
    pcie_sim.Library.Device.write pcie_sim.Sim.Linux.open_linux pcie_sim.Sim.Linux.sim_init
    pcie_sim.Utils.Config.Names.error_scenario_to_string
    pcie_sim.Utils.Config.Names.pattern_to_string pcie_sim.Utils.Config.config_init
    pcie_sim.Utils.Config.set_pattern pcie_sim.Utils.Csv.create_timestamped_filename
    pcie_sim.Utils.Csv.format_timestamp pcie_sim.Utils.Csv.log_record
    pcie_sim.Utils.Csv.log_session_end pcie_sim.Utils.Csv.log_session_start
    pcie_sim.Utils.Csv.log_transfer pcie_sim.Utils.Csv.logger_drop pcie_sim.Utils.Csv.logger_new
    pcie_sim.Utils.Csv.milliseconds pcie_sim.Utils.Csv.row pcie_sim.Utils.Csv.session_drop
    pcie_sim.Utils.Csv.session_log pcie_sim.Utils.Csv.session_new pcie_sim.Utils.Csv.write_header
    pcie_sim.Utils.Options.Convert.apply_logging pcie_sim.Utils.Options.Convert.apply_pattern
    pcie_sim.Utils.Options.Convert.apply_scenario pcie_sim.Utils.Options.Convert.apply_stress
    pcie_sim.Utils.Options.Convert.apply_verbosity pcie_sim.Utils.Options.Standard.standard_specs
main_test = (refl, refl)
