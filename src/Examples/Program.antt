-- ===== src/Examples/Program.antt =====
-- examples/cpp_test.cpp: main(), from the command line to the exit code. Whether the log file can be
-- opened is a parameter, and so is what std::string makes of an array of bytes; a thread can always
-- be started.
pub mod Paced
pub mod Passed
pub mod Exits
use Prim.Native.String.{String}
use text.Mathlib.Text.{◌==◌ as str_eq}
use pcie_sim.Base.{
  ℕ, ℤ, pos, ◌+◌, Bool, true, false, List, [], Option, none, some, if◌then◌else◌, ◌==◌, bit_and,
}
use pcie_sim.Library.Backend.{Backend}
use pcie_sim.Utils.Csv.{
  Printer, ◌<>◌, SessionLogger, create_timestamped_filename, session_new, session_drop,
}
use pcie_sim.Utils.Config.{Float, TestConfig, accepted, refused, config_validate}
use pcie_sim.Utils.Config.Names.{pattern_to_string}
use pcie_sim.Utils.Options.{ProgramOptions, parse, has_option}
use pcie_sim.Utils.Options.Standard.{create_otpu_options}
use pcie_sim.Utils.Options.Convert.{enable_logging, to_config}
use pcie_sim.Examples.Tester.{
  undefined, Fault, Ran, ran, faulted, and_then, Env, Tester, read_clock,
}
use pcie_sim.Examples.Pattern.{run_pattern_tests}
use pcie_sim.Examples.Stress.Scheduler.{run_stress_tests}

-- How the program ends: main() returns a code, with the library's state and the lines of the log
-- file, if there is one; an exception leaves main(); or a fault.
pub data Exit (b : Backend) : Type 0 where
  exits : ℕ → b.State → Option (List String) → Exit b
  aborts : Exit b
  crashes : Fault → Exit b

-- What the program relies on outside of it, besides the library.
pub record Surroundings (fl : Float) : Type 0 where
  pub env : Env fl
  pub stoi : String → Option ℤ
  pub opens : String → Bool
  pub text_of : List ℕ → String

module _ (printer : Printer) (fl : Float) (outer : Surroundings fl) (b : Backend) where
  open printer use {print_int, offset_ns}
  open outer use {env, stoi, opens, text_of}

  -- `config_summary`
  unfoldable pub config_summary : TestConfig fl → String
  unfolding pattern_to_string
  config_summary config =
      "pattern="
      <> (pattern_to_string config.transfer.pattern
          <> (",devices="
              <> (print_int (pos config.num_devices)
                  <> (",size="
                      <> (print_int (pos config.transfer.min_size)
                          <> ("-"
                              <> (print_int (pos config.transfer.max_size)
                                  <> (",rate=" <> print_int (pos config.transfer.rate_hz)))))))))

  -- The name of the log file, at a time.
  unfoldable pub log_filename : TestConfig fl → ℕ → String
  log_filename config now =
      let name = text_of config.logging.csv_filename in
      if str_eq name "" then create_timestamped_filename printer "otpu_test" ".csv" now else name

  -- The session, if the configuration asks for a log.
  unfoldable pub open_session : Tester printer b → TestConfig fl → Tester printer b
  unfolding log_filename config_summary
  open_session t config =
      if bit_and config.flags enable_logging == 0
      then t
      else (let named = read_clock printer fl env b t in
          let name = log_filename config (named.time + offset_ns) in
          let t' = read_clock printer fl env b named in
          record t' {
            session = some (session_new printer name (config_summary config) t'.time (opens name));
          })

  -- The lines about the log that are printed after the tests: they ask the session for its logger,
  -- whose pointer is NULL where the file could not be opened.
  unfoldable pub print_log : Tester printer b → Ran (Tester printer b)
  print_log t = elim t.session [
    | none ↦ ran t
    | some session ↦ elim session.logger [ none ↦ faulted undefined | some logger ↦ ran t ]
  ]

  -- The end of the program: the session is destroyed.
  abbrev pub close_session : Tester printer b → Option (List String)
  close_session t = elim t.session [
    | none ↦ none
    | some session ↦ session_drop printer session (read_clock printer fl env b t).time
  ]

  abbrev pub finish : Ran (Tester printer b) → Exit b
  finish (ran t) = exits 0 t.backend (close_session t)
  finish (faulted f) = crashes f

  -- The tests of a configuration that passes.
  unfoldable pub run_tests : Tester printer b → TestConfig fl → Exit b
  unfolding open_session print_log
  run_tests t config = finish (
      and_then (run_pattern_tests printer fl env b (open_session t config) config)
        (λ t'. and_then (run_stress_tests printer fl env b t' config) print_log))

  -- What follows the conversion of the options.
  abbrev pub with_config : Tester printer b → Option (TestConfig fl) → Exit b
  with_config t none = aborts
  with_config t (some config) = elim (config_validate fl (some config)) [
    | refused ↦ exits 1 t.backend none
    | accepted ↦ run_tests t config
  ]

  -- What follows the parsing.
  abbrev pub with_options : Tester printer b → Option (Bool × ProgramOptions) → Exit b
  with_options t none = aborts
  with_options t (some (false, o)) = exits (if has_option o "help" then 0 else 1) t.backend none
  with_options t (some (true, o)) = with_config t (to_config fl stoi o)

  -- main, with the library's state and at a time.
  unfoldable pub main : b.State → ℕ → String → List String → Exit b
  unfolding run_tests
  main s now name args =
      with_options (record { backend = s; session = none; time = now; asked = 0 })
        (parse (create_otpu_options stoi) name args)
