-- ===== src/Utils/Config/Names.antt =====
-- The names of the patterns and of the error scenarios, utils/config.c. A text that may be NULL is
-- an option; strcmp is the equality of texts.
use Prim.Native.String.{String}
use text.Mathlib.Text.{◌==◌}
use text.Mathlib.TextEquality.{eq_iff}
use pcie_sim.Base.{Option, none, some, ◌≡◌, ◌⊎◌, arith, if◌then◌else◌, refl}
use pcie_sim.Utils.Config.{
  Pattern, Scenario, small_fast, large_burst, mixed, custom, scenario_none, timeout, corruption,
  overrun,
}

-- pcie_sim_parse_pattern
unfoldable pub parse_pattern : Option String → Pattern
parse_pattern none = mixed
parse_pattern (some text) =
    if text == "small-fast"
    then small_fast
    else (if text == "large-burst"
        then large_burst
        else (if text == "mixed" then mixed else (if text == "custom" then custom else mixed)))

-- pcie_sim_parse_error_scenario
unfoldable pub parse_error_scenario : Option String → Scenario
parse_error_scenario none = scenario_none
parse_error_scenario (some text) =
    if text == "timeout"
    then timeout
    else (if text == "corruption"
        then corruption
        else (if text == "overrun"
            then overrun
            else (if text == "none" then scenario_none else scenario_none)))

-- pcie_sim_pattern_to_string
unfoldable pub pattern_to_string : Pattern → String
pattern_to_string small_fast = "small-fast"
pattern_to_string large_burst = "large-burst"
pattern_to_string mixed = "mixed"
pattern_to_string custom = "custom"
pattern_to_string (Pattern.other n) = "unknown"

-- pcie_sim_error_scenario_to_string
unfoldable pub error_scenario_to_string : Scenario → String
error_scenario_to_string scenario_none = "none"
error_scenario_to_string timeout = "timeout"
error_scenario_to_string corruption = "corruption"
error_scenario_to_string overrun = "overrun"
error_scenario_to_string (Scenario.other n) = "unknown"

-- A value that an enumerator has.
pub data IsPattern : Pattern → Type 0 where
  is_small_fast : IsPattern small_fast
  is_large_burst : IsPattern large_burst
  is_mixed : IsPattern mixed
  is_custom : IsPattern custom

pub data IsScenario : Scenario → Type 0 where
  is_none : IsScenario scenario_none
  is_timeout : IsScenario timeout
  is_corruption : IsScenario corruption
  is_overrun : IsScenario overrun

known_pattern :
    (pattern : Pattern)
    → IsPattern pattern
    → parse_pattern (some (pattern_to_string pattern)) ≡ pattern
unfolding parse_pattern pattern_to_string
known_pattern _ is_small_fast = refl
known_pattern _ is_large_burst = refl
known_pattern _ is_mixed = refl
known_pattern _ is_custom = refl

named_or_mixed :
    (text : String)
    → (pattern_to_string (parse_pattern (some text)) ≡ text) ⊎ (parse_pattern (some text) ≡ mixed)
unfolding parse_pattern pattern_to_string
named_or_mixed text = ground (
  arith,
  eq_iff text "small-fast",
  eq_iff text "large-burst",
  eq_iff text "mixed",
  eq_iff text "custom",
)

known_scenario :
    (scenario : Scenario)
    → IsScenario scenario
    → parse_error_scenario (some (error_scenario_to_string scenario)) ≡ scenario
unfolding parse_error_scenario error_scenario_to_string
known_scenario _ is_none = refl
known_scenario _ is_timeout = refl
known_scenario _ is_corruption = refl
known_scenario _ is_overrun = refl

named_or_none :
    (text : String)
    → (error_scenario_to_string (parse_error_scenario (some text)) ≡ text)
      ⊎ (parse_error_scenario (some text) ≡ scenario_none)
unfolding parse_error_scenario error_scenario_to_string
named_or_none text = ground (
  arith,
  eq_iff text "timeout",
  eq_iff text "corruption",
  eq_iff text "overrun",
  eq_iff text "none",
)

-- Parsing the name of a pattern gives the pattern back, and any text is parsed to a pattern that it
-- names or to the default, the mixed pattern.
parse-pattern_to_string :
    (pattern : Pattern)
    → (text : String) → IsPattern pattern
    → (parse_pattern (some (pattern_to_string pattern)) ≡ pattern)
      × ((pattern_to_string (parse_pattern (some text)) ≡ text)
          ⊎ (parse_pattern (some text) ≡ mixed))
parse-pattern_to_string pattern text known = (known_pattern pattern known, named_or_mixed text)

-- Parsing the name of an error scenario gives the scenario back, and any text is parsed to a
-- scenario that it names or to the default, no errors.
parse-error_scenario_to_string :
    (scenario : Scenario)
    → (text : String) → IsScenario scenario
    → (parse_error_scenario (some (error_scenario_to_string scenario)) ≡ scenario)
      × ((error_scenario_to_string (parse_error_scenario (some text)) ≡ text)
          ⊎ (parse_error_scenario (some text) ≡ scenario_none))
parse-error_scenario_to_string scenario text known =
    (known_scenario scenario known, named_or_none text)

-- Parsing the name of a pattern or of an error scenario gives it back, and any text is parsed to a
-- pattern and to a scenario that it names, or to the default: the mixed pattern, no errors.
pub parse-to_string :
    (pattern : Pattern) (scenario : Scenario) (text : String)
    → IsPattern pattern
    → IsScenario scenario
    → (parse_pattern (some (pattern_to_string pattern)) ≡ pattern)
      × (parse_error_scenario (some (error_scenario_to_string scenario)) ≡ scenario)
      × ((pattern_to_string (parse_pattern (some text)) ≡ text)
          ⊎ (parse_pattern (some text) ≡ mixed))
      × ((error_scenario_to_string (parse_error_scenario (some text)) ≡ text)
          ⊎ (parse_error_scenario (some text) ≡ scenario_none))
parse-to_string pattern scenario text known known' =
    let (same, named) = parse-pattern_to_string pattern text known in
    let (same', named') = parse-error_scenario_to_string scenario text known' in
    (same, same', named, named')
