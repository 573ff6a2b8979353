-- ===== src/Utils/Config.antt =====
-- utils/config.h and utils/config.c: the test configuration, its setters and its validation. A
-- pointer to a configuration is an option, `none` for NULL.
pub mod Names
pub mod Validity
pub mod Setters
pub mod Flags
use pcie_sim.Base.{
  ℕ, Bool, true, false, ◌||◌, List, Option, none, some, if◌then◌else◌, ltb, replicate, bit_and,
  bit_or, not32,
}

-- `pcie_sim_pattern_t`; `other` is a value that no enumerator has.
pub data Pattern : Type 0 where
  small_fast large_burst mixed custom : Pattern
  other : ℕ → Pattern

-- `pcie_sim_error_scenario_t`; `other` is a value that no enumerator has.
pub data Scenario : Type 0 where
  scenario_none timeout corruption overrun : Scenario
  other : ℕ → Scenario

-- `pcie_sim_load_type_t`
pub data LoadType : Type 0 where
  normal stress burst : LoadType

-- The type float: the numbers `n` / 10000 that the code writes, and the test `<`.
pub record Float : Type 1 where
  pub F : Type 0
  pub ten_thousandths : ℕ → F
  pub less : F → F → Bool

-- `struct pcie_sim_transfer_config`
pub record TransferConfig : Type 0 where
  pub pattern : Pattern
  pub min_size : ℕ
  pub max_size : ℕ
  pub rate_hz : ℕ
  pub burst_count : ℕ
  pub burst_interval_ms : ℕ

-- `struct pcie_sim_stress_config`
pub record StressConfig : Type 0 where
  pub load_type : LoadType
  pub num_threads : ℕ
  pub duration_seconds : ℕ
  pub ramp_up_seconds : ℕ

-- `struct pcie_sim_log_config`; the name is its 256 bytes.
pub record LogConfig : Type 0 where
  pub csv_filename : List ℕ
  pub log_interval_ms : ℕ
  pub max_entries : ℕ
  pub buffer_size : ℕ

-- What the function returns: 0, or -1.
pub data Code : Type 0 where
  accepted refused : Code

abbrev pub small_fast_config : TransferConfig
small_fast_config = record {
  pattern = small_fast;
  min_size = 64;
  max_size = 1024;
  rate_hz = 10000;
  burst_count = 1;
  burst_interval_ms = 0;
}

abbrev pub large_burst_config : TransferConfig
large_burst_config = record {
  pattern = large_burst;
  min_size = 1048576;
  max_size = 4194304;
  rate_hz = 100;
  burst_count = 10;
  burst_interval_ms = 100;
}

abbrev pub mixed_config : TransferConfig
mixed_config = record {
  pattern = mixed;
  min_size = 1024;
  max_size = 65536;
  rate_hz = 1000;
  burst_count = 5;
  burst_interval_ms = 50;
}

-- What pcie_sim_config_set_custom_pattern writes.
abbrev pub custom_config : ℕ → ℕ → TransferConfig
custom_config size rate = record {
  pattern = custom;
  min_size = size;
  max_size = size;
  rate_hz = rate;
  burst_count = 1;
  burst_interval_ms = 0;
}

abbrev pub enable_errors : ℕ
enable_errors = 2

module _ (fl : Float) where
  open fl use {F, ten_thousandths, less}

  -- `struct pcie_sim_error_config`
  pub record ErrorConfig : Type 0 where
    pub scenario : Scenario
    pub probability : F
    pub inject_after_count : ℕ
    pub recovery_time_ms : ℕ

  -- `struct pcie_sim_test_config`
  pub record TestConfig : Type 0 where
    pub num_devices : ℕ
    pub transfer : TransferConfig
    pub error : ErrorConfig
    pub stress : StressConfig
    pub logging : LogConfig
    pub flags : ℕ

  -- What pcie_sim_config_init leaves, whatever was there.
  abbrev pub defaults : TestConfig
  defaults = record {
    num_devices = 1;
    transfer = mixed_config;
    error = (record {
      scenario = scenario_none;
      probability = ten_thousandths 0;
      inject_after_count = 0;
      recovery_time_ms = 0;
    });
    stress = (record {
      load_type = normal;
      num_threads = 1;
      duration_seconds = 10;
      ramp_up_seconds = 0;
    });
    logging = (record {
      csv_filename = replicate 256 0;
      log_interval_ms = 1000;
      max_entries = 10000;
      buffer_size = 4096;
    });
    flags = 0;
  }

  -- pcie_sim_config_init
  unfoldable pub config_init : Option TestConfig → Code × Option TestConfig
  config_init none = (refused, none)
  config_init (some config) = (accepted, some defaults)

  abbrev pub with_transfer : TestConfig → TransferConfig → TestConfig
  with_transfer config t = record config { transfer = t }

  -- The switch of pcie_sim_config_set_pattern.
  abbrev pub choose_pattern : TestConfig → Pattern → Code × TestConfig
  choose_pattern config small_fast = (accepted, with_transfer config small_fast_config)
  choose_pattern config large_burst = (accepted, with_transfer config large_burst_config)
  choose_pattern config mixed = (accepted, with_transfer config mixed_config)
  choose_pattern config custom =
      (accepted, with_transfer config (record config.transfer { pattern = custom }))
  choose_pattern config (Pattern.other n) = (refused, config)

  -- pcie_sim_config_set_pattern
  unfoldable pub set_pattern : Option TestConfig → Pattern → Code × Option TestConfig
  set_pattern none pattern = (refused, none)
  set_pattern (some config) pattern =
      let (code, config') = choose_pattern config pattern in (code, some config')

  -- pcie_sim_config_set_custom_pattern
  unfoldable pub set_custom_pattern : Option TestConfig → ℕ → ℕ → Code × Option TestConfig
  set_custom_pattern none size rate = (refused, none)
  set_custom_pattern (some config) size rate =
      if ltb size 64 || ltb 4194304 size || ltb rate 1 || ltb 10000 rate
      then (refused, some config)
      else (accepted, some (with_transfer config (custom_config size rate)))

  abbrev pub with_error : TestConfig → ErrorConfig → ℕ → TestConfig
  with_error config e flags = record config { error = e; flags = flags }

  -- A scenario that injects errors, at a rate and with a recovery time.
  abbrev pub inject : TestConfig → Scenario → ℕ → ℕ → TestConfig
  inject config scenario rate recovery =
      with_error config
        (record config.error {
          scenario = scenario;
          probability = ten_thousandths rate;
          recovery_time_ms = recovery;
        })
        (bit_or config.flags enable_errors)

  -- The body of pcie_sim_config_set_error_scenario: the scenario is stored before the switch.
  abbrev pub choose_scenario : TestConfig → Scenario → Code × TestConfig
  choose_scenario config scenario_none = (
    accepted,
    with_error config
        (record config.error { scenario = scenario_none; probability = ten_thousandths 0 })
        (bit_and config.flags (not32 enable_errors)),
  )
  choose_scenario config timeout = (accepted, inject config timeout 100 100)
  choose_scenario config corruption = (accepted, inject config corruption 50 50)
  choose_scenario config overrun = (accepted, inject config overrun 200 200)
  choose_scenario config (Scenario.other n) = (
    refused,
    with_error config (record config.error { scenario = Scenario.other n }) config.flags,
  )

  -- pcie_sim_config_set_error_scenario
  unfoldable pub set_error_scenario : Option TestConfig → Scenario → Code × Option TestConfig
  set_error_scenario none scenario = (refused, none)
  set_error_scenario (some config) scenario =
      let (code, config') = choose_scenario config scenario in (code, some config')

  -- pcie_sim_config_validate
  unfoldable pub config_validate : Option TestConfig → Code
  config_validate none = refused
  config_validate (some config) =
      if ltb config.num_devices 1 || ltb 8 config.num_devices
      then refused
      else (if ltb config.transfer.min_size 64 || ltb 4194304 config.transfer.max_size
          then refused
          else (if ltb config.transfer.max_size config.transfer.min_size
              then refused
              else (if ltb config.transfer.rate_hz 1 || ltb 10000 config.transfer.rate_hz
                  then refused
                  else (if less config.error.probability (ten_thousandths 0)
                        || less (ten_thousandths 10000) config.error.probability
                      then refused
                      else (if ltb 64 config.stress.num_threads
                          then refused
                          else (if ltb 3600 config.stress.duration_seconds
                              then refused
                              else accepted))))))
