-- ===== src/Utils/Options/Convert.antt =====
-- ProgramOptions::to_config of utils/options.cpp: the configuration that the options describe.
use Prim.Native.String.{String}
use Prim.Native.Nat.{ℕ, zero, suc, ◌-◌, ◌%◌, ◌^◌, bit_or}
use text.Mathlib.Text.{◌==◌ as str_eq}
use pcie_sim.Base.{
  Bool, false, List, [], ◌∷◌, Option, none, some, ◌>>=◌, if◌then◌else◌, ltb, ℤ, pos, negsuc,
  bytes_of, replicate,
}
use pcie_sim.Utils.Config.{
  Float, Pattern, small_fast, normal, stress, scenario_none, TestConfig, config_init, set_pattern,
  set_custom_pattern, set_error_scenario,
}
use pcie_sim.Utils.Config.Names.{parse_pattern, parse_error_scenario}
use pcie_sim.Utils.Options.{ProgramOptions, has_option, get_string, get_int}

abbrev pub enable_logging : ℕ
enable_logging = 1

abbrev pub enable_stress : ℕ
enable_stress = 4

abbrev pub verbose_flag : ℕ
verbose_flag = 8

-- An int that is stored in a uint32_t.
abbrev pub to_u32 : ℤ → ℕ
to_u32 (pos n) = n % 2 ^ 32
to_u32 (negsuc n) = 2 ^ 32 - 1 - n % 2 ^ 32

abbrev pub above_one : ℤ → Bool
above_one (pos n) = ltb 1 n
above_one (negsuc n) = false

-- strncpy(): `n` bytes of the target are written, zeros after the end of the source.
abbrev pub strncpy : ℕ → List ℕ → List ℕ → List ℕ
strncpy zero source target = target
strncpy (suc n) source [] = []
strncpy (suc n) [] (t ∷ target) = 0 ∷ strncpy n [] target
strncpy (suc n) (c ∷ source) (t ∷ target) = c ∷ strncpy n source target

module _ (fl : Float) where
  open fl use {ten_thousandths}

  -- The structure that `new` zeroes.
  abbrev pub zero_config : TestConfig fl
  zero_config = record {
    num_devices = 0;
    transfer = (record {
      pattern = small_fast;
      min_size = 0;
      max_size = 0;
      rate_hz = 0;
      burst_count = 0;
      burst_interval_ms = 0;
    });
    error = (record {
      scenario = scenario_none;
      probability = ten_thousandths 0;
      inject_after_count = 0;
      recovery_time_ms = 0;
    });
    stress = (record {
      load_type = normal;
      num_threads = 0;
      duration_seconds = 0;
      ramp_up_seconds = 0;
    });
    logging = (record {
      csv_filename = replicate 256 0;
      log_interval_ms = 0;
      max_entries = 0;
      buffer_size = 0;
    });
    flags = 0;
  }

  abbrev pub or_flag : TestConfig fl → ℕ → TestConfig fl
  or_flag config flag = record config { flags = bit_or config.flags flag }

  -- What a setter of utils/config.c leaves in a configuration that is there.
  abbrev pub kept : TestConfig fl → Option (TestConfig fl) → TestConfig fl
  kept config none = config
  kept config (some config') = config'

  -- The error scenario.
  unfoldable pub apply_scenario : ProgramOptions → TestConfig fl → TestConfig fl
  apply_scenario o config =
      kept config
        (set_error_scenario fl (some config)
          (parse_error_scenario (some (get_string o "error-scenario")))).1

  -- The log file.
  unfoldable pub apply_logging : ProgramOptions → TestConfig fl → TestConfig fl
  apply_logging o config =
      let file = get_string o "log-csv" in
      if str_eq file ""
      then config
      else or_flag
          (record config {
            logging = (record config.logging {
              csv_filename = strncpy 255 (bytes_of file) config.logging.csv_filename;
            });
          })
          enable_logging

  unfoldable pub apply_verbosity : ProgramOptions → TestConfig fl → TestConfig fl
  apply_verbosity o config = if has_option o "verbose" then or_flag config verbose_flag else config

  module _ (stoi : String → Option ℤ) where
    -- The transfer pattern.
    abbrev pub choose : ProgramOptions → TestConfig fl → Pattern → Option (TestConfig fl)
    choose o config Pattern.custom = get_int stoi o "size" >>= (λ size.
        get_int stoi o "rate" >>= (λ rate.
          some (kept config (set_custom_pattern fl (some config) (to_u32 size) (to_u32 rate)).1)))
    choose o config pattern = some (kept config (set_pattern fl (some config) pattern).1)

    unfoldable pub apply_pattern : ProgramOptions → TestConfig fl → Option (TestConfig fl)
    apply_pattern o config = choose o config (parse_pattern (some (get_string o "pattern")))

    -- The stress parameters, for more than one thread.
    unfoldable pub apply_stress : ProgramOptions → TestConfig fl → Option (TestConfig fl)
    apply_stress o config = get_int stoi o "threads" >>= (λ threads.
        if above_one threads
        then get_int stoi o "duration" >>= (λ duration. some (
            or_flag
              (record config {
                stress = (record config.stress {
                  load_type = stress;
                  num_threads = to_u32 threads;
                  duration_seconds = to_u32 duration;
                });
              })
              enable_stress))
        else some config)

    -- to_config
    unfoldable pub to_config : ProgramOptions → Option (TestConfig fl)
    unfolding apply_pattern apply_scenario apply_stress apply_logging apply_verbosity
    to_config o =
        let config = kept zero_config (config_init fl (some zero_config)).1 in
        get_int stoi o "num-devices" >>= (λ devices.
          apply_pattern o (record config { num_devices = to_u32 devices }) >>= (λ config₁.
            apply_stress o (apply_scenario o config₁)
            >>= (λ config₂. some (apply_verbosity o (apply_logging o config₂)))))
