-- ===== src/Examples/Program/Paced.antt =====
-- The transfers that ProgramOptions::to_config of utils/options.cpp asks for come no faster than
-- the stress test can divide: a burst has a transfer, and no more than a second has.
use Prim.Native.String.{String}
use text.Mathlib.Text.{◌==◌ as str_eq}
use pcie_sim.Base.{ℕ, ℤ, ◌||◌, inl, inr, Option, none, some, ◌>>=◌, arith, Bool-cases, ltb}
use pcie_sim.Utils.Config.{
  Float, Pattern, small_fast, large_burst, mixed, custom, Scenario, scenario_none, timeout,
  corruption, overrun, TestConfig, config_init, set_pattern, set_custom_pattern, set_error_scenario,
}
use pcie_sim.Utils.Config.Names.{parse_pattern, parse_error_scenario}
use pcie_sim.Utils.Options.{ProgramOptions, has_option, get_string, get_int}
use pcie_sim.Utils.Options.Convert.{
  to_u32, above_one, choose, kept, apply_pattern, apply_scenario, apply_stress, apply_logging,
  apply_verbosity, to_config,
}
use pcie_sim.Examples.Stress.Measure.{IsPaced}

module _ (fl : Float) where
  -- A configuration, if there is one, is paced.
  abbrev pub Paced : Option (TestConfig fl) → Type 0
  Paced none = Unit {0}
  Paced (some config) = IsPaced config.transfer

  Paced-then :
      {A : Type 0} (o : Option A) (next : A → Option (TestConfig fl))
      → ((a : A) → Paced (next a))
      → Paced (o >>= next)
  Paced-then none next k = tt
  Paced-then (some a) next k = k a

  Paced-config :
      (o : Option (TestConfig fl)) (next : TestConfig fl → Option (TestConfig fl))
      → Paced o
      → ((config : TestConfig fl) → IsPaced config.transfer → Paced (next config))
      → Paced (o >>= next)
  Paced-config none next p k = tt
  Paced-config (some config) next p k = k config p

  module _ (stoi : String → Option ℤ) (o : ProgramOptions) where
    custom-IsPaced :
        (config : TestConfig fl) (size rate : ℕ)
        → IsPaced config.transfer
        → IsPaced (kept fl config (set_custom_pattern fl (some config) size rate).1).transfer
    unfolding set_custom_pattern
    custom-IsPaced config size rate p =
        elim (Bool-cases (ltb size 64 || ltb 4194304 size || ltb rate 1 || ltb 10000 rate)) [
          | inl out ↦ rw out p
          | inr within ↦ rw within (record {
            burst_ge = omega arith;
            burst_le = ground (arith, within);
            rate_le = ground (arith, within);
          })
        ]

    choose-Paced :
        (config : TestConfig fl) (pattern : Pattern)
        → IsPaced config.transfer
        → Paced (choose fl stoi o config pattern)
    unfolding set_pattern
    choose-Paced config small_fast p = record {
      burst_ge = omega arith;
      burst_le = omega arith;
      rate_le = omega arith;
    }
    choose-Paced config large_burst p = record {
      burst_ge = omega arith;
      burst_le = omega arith;
      rate_le = omega arith;
    }
    choose-Paced config mixed p = record {
      burst_ge = omega arith;
      burst_le = omega arith;
      rate_le = omega arith;
    }
    choose-Paced config custom p = Paced-then (get_int stoi o "size") _ (λ size.
        Paced-then (get_int stoi o "rate") _
          (λ rate. custom-IsPaced config (to_u32 size) (to_u32 rate) p))
    choose-Paced config (Pattern.other n) p = p

    scenario-IsPaced :
        (config : TestConfig fl) (scenario : Scenario)
        → IsPaced config.transfer
        → IsPaced (kept fl config (set_error_scenario fl (some config) scenario).1).transfer
    unfolding set_error_scenario
    scenario-IsPaced config scenario_none p = p
    scenario-IsPaced config timeout p = p
    scenario-IsPaced config corruption p = p
    scenario-IsPaced config overrun p = p
    scenario-IsPaced config (Scenario.other n) p = p

    stress-Paced :
        (config : TestConfig fl) → IsPaced config.transfer → Paced (apply_stress fl stoi o config)
    unfolding apply_stress
    stress-Paced config p = Paced-then (get_int stoi o "threads") _ (λ threads.
        elim (Bool-cases (above_one threads)) [
          | inl more ↦ rw more (Paced-then (get_int stoi o "duration") _ (λ duration. p))
          | inr one ↦ rw one p
        ])

    logging-IsPaced :
        (config : TestConfig fl)
        → IsPaced config.transfer
        → IsPaced (apply_logging fl o config).transfer
    unfolding apply_logging
    logging-IsPaced config p = elim (Bool-cases (str_eq (get_string o "log-csv") "")) [
      | inl off ↦ rw off p
      | inr on ↦ rw on p
    ]

    verbosity-IsPaced :
        (config : TestConfig fl)
        → IsPaced config.transfer
        → IsPaced (apply_verbosity fl o config).transfer
    unfolding apply_verbosity
    verbosity-IsPaced config p = elim (Bool-cases (has_option o "verbose")) [
      | inl on ↦ rw on p
      | inr off ↦ rw off p
    ]

    pub to_config-Paced : Paced (to_config fl stoi o)
    unfolding to_config config_init apply_pattern apply_scenario
    to_config-Paced = Paced-then (get_int stoi o "num-devices") _ (λ devices.
        Paced-config (choose fl stoi o _ (parse_pattern (some (get_string o "pattern")))) _
          (choose-Paced _ (parse_pattern (some (get_string o "pattern")))
            (record { burst_ge = omega arith; burst_le = omega arith; rate_le = omega arith }))
          (λ config₁ p₁.
            Paced-config (apply_stress fl stoi o (apply_scenario fl o config₁)) _
              (stress-Paced (apply_scenario fl o config₁) (
                scenario-IsPaced config₁
                  (parse_error_scenario (some (get_string o "error-scenario"))) p₁))
              (λ config₂ p₂.
                verbosity-IsPaced (apply_logging fl o config₂) (logging-IsPaced config₂ p₂))))
