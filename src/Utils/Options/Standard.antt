-- ===== src/Utils/Options/Standard.antt =====
-- ProgramOptions::create_otpu_options of utils/options.cpp: the options of the test program.
use Prim.Native.String.{String}
use text.Mathlib.Text.{◌==◌ as str_eq}
use pcie_sim.Base.{ℕ, Bool, false, ◌&&◌, ◌||◌, [], Option, none, some, ◌>>=◌, leb, ℤ, pos, negsuc}
use pcie_sim.Utils.Options.{OptionSpec, ProgramOptions, add_option, add_alias}

abbrev pub within : ℕ → ℕ → ℤ → Bool
within low high (pos n) = leb low n && leb n high
within low high (negsuc n) = false

abbrev pub is_pattern : String → Bool
is_pattern value =
    str_eq value "small-fast"
    || str_eq value "large-burst"
    || str_eq value "mixed"
    || str_eq value "custom"

abbrev pub is_scenario : String → Bool
is_scenario value =
    str_eq value "timeout"
    || str_eq value "corruption"
    || str_eq value "overrun"
    || str_eq value "none"

module _ (stoi : String → Option ℤ) where
  -- An option that takes a number, one that takes one of some texts, and one that takes any text.
  abbrev pub number_option : String → ℕ → ℕ → OptionSpec
  number_option default low high = record {
    default_value = default;
    required = false;
    validator = some (λ value. stoi value >>= (λ n. some (within low high n)));
  }

  abbrev pub choice_option : String → (String → Bool) → OptionSpec
  choice_option default test = record {
    default_value = default;
    required = false;
    validator = some (λ value. some (test value));
  }

  abbrev pub text_option : String → OptionSpec
  text_option default = record { default_value = default; required = false; validator = none }

  -- The calls of add_option.
  unfoldable pub standard_specs : ProgramOptions
  unfolding add_option
  standard_specs =
      let o₀ : ProgramOptions = record {
        options = [];
        aliases = [];
        values = [];
        program_name = "";
      } in
      let o₁ = add_option o₀ "num-devices" (number_option "1" 1 8) in
      let o₂ = add_option o₁ "pattern" (choice_option "mixed" is_pattern) in
      let o₃ = add_option o₂ "size" (number_option "4096" 64 4194304) in
      let o₄ = add_option o₃ "rate" (number_option "1000" 1 10000) in
      let o₅ = add_option o₄ "log-csv" (text_option "") in
      let o₆ = add_option o₅ "verbose" (text_option "false") in
      let o₇ = add_option o₆ "error-scenario" (choice_option "none" is_scenario) in
      let o₈ = add_option o₇ "threads" (number_option "1" 1 64) in
      add_option o₈ "duration" (number_option "10" 1 3600)

  -- create_otpu_options
  unfoldable pub create_otpu_options : ProgramOptions
  unfolding standard_specs add_alias
  create_otpu_options =
      let o₁ = add_alias standard_specs "d" "num-devices" in
      let o₂ = add_alias o₁ "p" "pattern" in
      let o₃ = add_alias o₂ "s" "size" in
      let o₄ = add_alias o₃ "r" "rate" in
      let o₅ = add_alias o₄ "l" "log-csv" in
      let o₆ = add_alias o₅ "v" "verbose" in
      let o₇ = add_alias o₆ "e" "error-scenario" in
      let o₈ = add_alias o₇ "t" "threads" in add_alias o₈ "dur" "duration"
