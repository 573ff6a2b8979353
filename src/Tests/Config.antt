-- ===== src/Tests/Config.antt =====
-- Runs of utils/config.c, with the numbers of ten-thousandths for the type float.
use pcie_sim.Base.{ℕ, ◌≡◌, ◌↔◌, ◌⊎◌, List, [], ◌∷◌, some, arith, ltb, bit}
use pcie_sim.Utils.Config.{
  Float, TestConfig, Pattern, Scenario, accepted, large_burst, mixed, timeout, scenario_none,
  defaults, config_init, choose_scenario, set_error_scenario, config_validate,
}
use pcie_sim.Utils.Config.Names.{
  IsScenario, is_large_burst, is_timeout, parse_pattern, pattern_to_string, parse_error_scenario,
  error_scenario_to_string, parse-to_string,
}
use pcie_sim.Utils.Config.Validity.{IsRounded, IsValid, config_validate_exactly}
use pcie_sim.Utils.Config.Setters.{
  Setter, to_pattern, to_custom, to_scenario, calls, setters_validate,
}
use pcie_sim.Utils.Config.Flags.{flag_after, set_error_scenario_lem}

abbrev pub exact : Float
exact = record { F = ℕ; ten_thousandths = λ n. n; less = ltb }

pub exact-IsRounded : IsRounded exact
exact-IsRounded = record { not_below = λ n. ground arith; not_above = λ n l. ground arith }

abbrev setters : List Setter
setters =
    to_pattern large_burst
    ∷ to_custom 4096 500
    ∷ to_custom 63 500
    ∷ to_scenario timeout
    ∷ to_scenario (Scenario.other 9)
    ∷ to_pattern (Pattern.other 7)
    ∷ []

abbrev crowded : TestConfig exact
crowded = record (defaults exact) { num_devices = 9 }

setters_validate_example :
    config_validate exact (calls exact setters ((config_init exact (some crowded)).1)) ≡ accepted
setters_validate_example = setters_validate exact exact-IsRounded setters crowded

config_validate_exactly_example :
    (config_validate exact (some crowded) ≡ accepted) ↔ IsValid exact crowded
config_validate_exactly_example = config_validate_exactly exact crowded

set_error_scenario_lem_example :
    let (code, config') = choose_scenario exact crowded timeout in
    (set_error_scenario exact (some crowded) timeout ≡ (code, some config'))
    × ((code ≡ accepted) ↔ IsScenario timeout)
    × (config'.error.scenario ≡ timeout)
    × (bit 1 config'.flags ≡ flag_after timeout 1 (bit 1 0))
set_error_scenario_lem_example =
    set_error_scenario_lem exact crowded timeout 1 (omega arith) (omega arith)

parse-to_string_example :
    (parse_pattern (some (pattern_to_string large_burst)) ≡ large_burst)
    × (parse_error_scenario (some (error_scenario_to_string timeout)) ≡ timeout)
    × ((pattern_to_string (parse_pattern (some "burst")) ≡ "burst")
        ⊎ (parse_pattern (some "burst") ≡ mixed))
    × ((error_scenario_to_string (parse_error_scenario (some "burst")) ≡ "burst")
        ⊎ (parse_error_scenario (some "burst") ≡ scenario_none))
parse-to_string_example = parse-to_string large_burst timeout "burst" is_large_burst is_timeout
