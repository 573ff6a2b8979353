-- ===== src/Tests/Options.antt =====
-- Runs of utils/options.cpp.
use Prim.Native.String.{String}
use Prim.Native.Nat.{ℕ, ◌+◌, ◌*◌, ◌-◌}
use Prim.Native.Char.{code}
use pcie_sim.Base.{
  ◌≡◌, refl, ◌>>=◌, Bool, ◌&&◌, List, [], ◌∷◌, Option, none, some, if◌then◌else◌, leb, ℤ, pos,
}
use pcie_sim.Utils.Config.{config_init, set_custom_pattern, set_error_scenario}
use pcie_sim.Utils.Config.Names.{parse_pattern, parse_error_scenario}
use pcie_sim.Utils.Options.{
  parse_loop, classify, take_value, has_option, parse, get_string, get_int,
}
use pcie_sim.Utils.Options.Standard.{create_otpu_options}
use pcie_sim.Utils.Options.Convert.{to_config}
use pcie_sim.Utils.Options.Numbers.{IsStoi}
use pcie_sim.Utils.Options.Verbose.{IsVerbose, parse-IsVerbose}
use pcie_sim.Utils.Options.Valid.{Converted, parse-to_config}
use pcie_sim.Tests.Config.{exact, exact-IsRounded}

abbrev is_digit : ℕ → Bool
is_digit c = leb 48 c && leb c 57

-- The decimal number that a text starts with.
abbrev digits : ℕ → String → ℕ
digits n String.[] = n
digits n (String.◌∷◌ c s) =
    let rest = digits (n * 10 + (code c - 48)) s in if is_digit (code c) then rest else n

abbrev pub decimal : String → Option ℤ
decimal String.[] = none
decimal (String.◌∷◌ c s) = if is_digit (code c) then some (pos (digits (code c - 48) s)) else none

pub decimal-IsStoi : IsStoi decimal
decimal-IsStoi = record {
  throws = refl;
  reads_1 = refl;
  reads_10 = refl;
  reads_1000 = refl;
  reads_4096 = refl;
}

abbrev arguments : List String
arguments =
    "-d" ∷ "4" ∷ "--pattern" ∷ "custom" ∷ "--size" ∷ "2048" ∷ "-t" ∷ "8" ∷ "-v" ∷ "--log-csv"
    ∷ "out.csv" ∷ []

parse-to_config_example :
    Converted exact decimal arguments (parse (create_otpu_options decimal) "test" arguments)
parse-to_config_example =
    parse-to_config decimal decimal-IsStoi exact exact-IsRounded "test" arguments

abbrev no_arguments : List String
no_arguments = []

parse-IsVerbose_example :
    IsVerbose exact decimal (parse (create_otpu_options decimal) "test" no_arguments)
parse-IsVerbose_example = parse-IsVerbose exact decimal "test" no_arguments

-- The devices, the threads and the flags that a command line asks for.
abbrev asked : List String → Option (ℕ × ℕ × ℕ)
asked args = parse (create_otpu_options decimal) "test" args >>= (λ r.
    to_config exact decimal r.1
    >>= (λ config. some (config.num_devices, config.stress.num_threads, config.flags)))

asked_test : asked arguments ≡ some (4, 8, 13)
unfolding create_otpu_options parse parse_loop classify take_value to_config get_int parse_pattern
    get_string has_option set_error_scenario parse_error_scenario set_custom_pattern config_init
asked_test = refl

-- An option with a number and no value: std::stoi throws.
missing_value_test : asked ("--threads" ∷ []) ≡ none
unfolding create_otpu_options parse parse_loop classify take_value to_config get_int parse_pattern
    get_string has_option set_error_scenario parse_error_scenario set_custom_pattern config_init
missing_value_test = refl
