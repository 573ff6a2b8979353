-- ===== src/Utils/Options.antt =====
-- utils/options.hpp and utils/options.cpp: the command line. A std::map is a list of pairs, and
-- `none` is an exception that leaves the function. std::stoi is a parameter, `none` where it
-- throws. What is printed is not modelled.
pub mod Standard
pub mod Checked
pub mod Convert
pub mod Numbers
pub mod Verbose
pub mod Throws
pub mod Valid
pub mod Absent
use Prim.Native.String.{String}
use Prim.Native.Nat.{ℕ, ◌<◌}
use text.Mathlib.Text.{◌==◌ as str_eq}
use pcie_sim.Base.{
  Bool, true, false, ◌&&◌, ◌||◌, not, List, [], ◌∷◌, Option, none, some, is_some, ◌>>=◌,
  if◌then◌else◌, ltb, ℤ, pos, negsuc, text_take, text_drop, text_length, entry_of, with_entry,
}

-- `ProgramOptions::Option`, without its description; the validator may be missing, and may throw.
pub record OptionSpec : Type 0 where
  pub default_value : String
  pub required : Bool
  pub validator : Option (String → Option Bool)

-- `ProgramOptions`
pub record ProgramOptions : Type 0 where
  pub options : List (String × OptionSpec)
  pub aliases : List (String × String)
  pub values : List (String × String)
  pub program_name : String

-- The default constructor of `Option`.
abbrev pub blank_spec : OptionSpec
blank_spec = record { default_value = ""; required = false; validator = none }

abbrev pub set_value : ProgramOptions → String → String → ProgramOptions
set_value o name value = record o { values = with_entry name value o.values }

-- add_option
unfoldable pub add_option : ProgramOptions → String → OptionSpec → ProgramOptions
add_option o name spec =
    let o' : ProgramOptions = record o { options = with_entry name spec o.options } in
    if str_eq spec.default_value "" then o' else set_value o' name spec.default_value

-- add_alias
unfoldable pub add_alias : ProgramOptions → String → String → ProgramOptions
add_alias o alias option = record o { aliases = with_entry alias option o.aliases }

-- `options_[name]`, which adds a blank option where there is none.
abbrev pub touch : ProgramOptions → String → ProgramOptions
touch o name = elim (entry_of name o.options) [
  | some spec ↦ o
  | none ↦ record o { options = with_entry name blank_spec o.options }
]

abbrev pub validator_of : Option OptionSpec → Option (String → Option Bool)
validator_of none = none
validator_of (some spec) = spec.validator

-- What an argument is: a call for help, the name of an option, or neither.
pub data Kind : Type 0 where
  help unknown : Kind
  named : String → Kind

abbrev pub known : Option OptionSpec → String → Kind
known none name = unknown
known (some spec) name = named name

abbrev pub alias_kind : Option String → Kind
alias_kind none = unknown
alias_kind (some name) = named name

-- The tests on `argv[i]` in the loop of parse.
unfoldable pub classify : ProgramOptions → String → Kind
classify o arg =
    if str_eq arg "--help" || str_eq arg "-h"
    then help
    else (if str_eq (text_take 2 arg) "--"
        then known (entry_of (text_drop 2 arg) o.options) (text_drop 2 arg)
        else (if str_eq (text_take 1 arg) "-" && ltb 1 (text_length arg)
            then alias_kind (entry_of (text_drop 1 arg) o.aliases)
            else unknown))

-- `argv[i + 1][0] != '-'`
abbrev pub is_value : String → Bool
is_value text = not (str_eq (text_take 1 text) "-")

-- What a validator says of a value: `none` where it throws.
abbrev pub verdict : Option (String → Option Bool) → String → Option Bool
verdict none value = some true
verdict (some f) value = f value

-- What is done with a verdict: the value is stored, or the option is left as it was.
abbrev pub settle : ProgramOptions → String → String → Bool → Option (Bool × ProgramOptions)
settle o name value true = some (true, set_value o name value)
settle o name value false = some (false, o)

-- An option with a value: validated and stored, or refused.
unfoldable pub take_value : ProgramOptions → String → String → Option (Bool × ProgramOptions)
take_value o name value =
    verdict (validator_of (entry_of name o.options)) value >>= settle (touch o name) name value

-- Parsing stops where it has failed.
abbrev pub go_on :
    Option (Bool × ProgramOptions)
    → (ProgramOptions → Option (Bool × ProgramOptions))
    → Option (Bool × ProgramOptions)
go_on none next = none
go_on (some (false, o)) next = some (false, o)
go_on (some (true, o)) next = next o

-- Whether some required option has no value.
unfoldable pub required_missing : List (String × OptionSpec) → List (String × String) → Bool
required_missing [] values = false
required_missing ((name, spec) ∷ options) values =
    (spec.required && not (is_some (entry_of name values))) || required_missing options values

-- The loop of parse over the arguments that are left, and the check of the required options.
unfoldable pub parse_loop : ProgramOptions → List String → Option (Bool × ProgramOptions)
parse_loop o [] = some (not (required_missing o.options o.values), o)
parse_loop o (arg ∷ []) = elim (classify o arg) [
  | help ↦ some (false, o)
  | unknown ↦ some (false, o)
  | named name ↦ parse_loop (set_value o name "true") []
]
parse_loop o (arg ∷ next ∷ rest) = elim (classify o arg) [
  | help ↦ some (false, o)
  | unknown ↦ some (false, o)
  | named name ↦ elim (is_value next) [
    | true ↦ go_on (take_value o name next) (λ o'. parse_loop o' rest)
    | false ↦ parse_loop (set_value o name "true") (next ∷ rest)
  ]
]

-- ProgramOptions::parse; `argv[0]` is there.
unfoldable pub parse : ProgramOptions → String → List String → Option (Bool × ProgramOptions)
parse o name args = parse_loop (record o { program_name = name }) args

-- has_option
unfoldable pub has_option : ProgramOptions → String → Bool
has_option o name = is_some (entry_of name o.values)

-- get<std::string>
unfoldable pub get_string : ProgramOptions → String → String
get_string o name = elim (entry_of name o.values) [ none ↦ "" | some value ↦ value ]

-- get<bool>
unfoldable pub get_bool : ProgramOptions → String → Bool
get_bool o name = elim (entry_of name o.values) [
  | none ↦ false
  | some value ↦ str_eq value "true" || str_eq value "1" || str_eq value "yes"
]

-- get<int>
unfoldable pub get_int : (String → Option ℤ) → ProgramOptions → String → Option ℤ
get_int stoi o name = elim (entry_of name o.values) [
  | none ↦ some (pos 0)
  | some value ↦ stoi value
]
