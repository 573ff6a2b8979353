-- ===== src/Utils/Options/Verbose.antt =====
-- The verbose flag that ProgramOptions::to_config of utils/options.cpp sets.
use Prim.Native.String.{String}
use pcie_sim.Base.{
  ◌≡◌, inr, refl, Bool, true, List, Option, none, some, ◌>>=◌, arith, ℤ, bit, bit-bit_or,
  bit-le-one,
}
use pcie_sim.Utils.Config.{Float, TestConfig}
use pcie_sim.Utils.Options.{ProgramOptions, parse, has_option, get_int, add_option, add_alias}
use pcie_sim.Utils.Options.Checked.{StillChecked, parse-HasChecked}
use pcie_sim.Utils.Options.Standard.{standard_specs, create_otpu_options}
use pcie_sim.Utils.Options.Convert.{
  apply_scenario, apply_stress, apply_logging, apply_verbosity, to_config,
}

module _ (fl : Float) (stoi : String → Option ℤ) where
  -- Bit 3 of the flags, PCIE_SIM_CONFIG_VERBOSE, is set.
  abbrev pub IsFlagged : Option (TestConfig fl) → Type 0
  IsFlagged none = Unit {0}
  IsFlagged (some config) = bit 3 config.flags ≡ 1

  -- The configuration that the parsed options describe, if there is one, has the flag.
  abbrev pub IsVerbose : Option (Bool × ProgramOptions) → Type 0
  IsVerbose none = Unit {0}
  IsVerbose (some (ok, o)) = (has_option o "verbose" ≡ true) × IsFlagged (to_config fl stoi o)

  bind-IsFlagged :
      {A : Type 0} (o : Option A) (next : A → Option (TestConfig fl))
      → ((a : A) → IsFlagged (next a))
      → IsFlagged (o >>= next)
  bind-IsFlagged none next h = tt
  bind-IsFlagged (some a) next h = h a

  apply_verbosity-IsFlagged :
      (o : ProgramOptions) (config : TestConfig fl)
      → has_option o "verbose" ≡ true
      → IsFlagged (some (apply_verbosity fl o config))
  unfolding apply_verbosity
  apply_verbosity-IsFlagged o config e =
      rw (e, apply_verbosity)
        (omega (arith, bit-bit_or 3 config.flags 8, bit-le-one 3 config.flags))

  to_config-IsFlagged :
      (o : ProgramOptions) → has_option o "verbose" ≡ true → IsFlagged (to_config fl stoi o)
  unfolding to_config
  to_config-IsFlagged o e = bind-IsFlagged (get_int stoi o "num-devices") _ (λ devices.
      bind-IsFlagged _ _ (λ config₁.
        bind-IsFlagged (apply_stress fl stoi o (apply_scenario fl o config₁)) _
          (λ config₂. apply_verbosity-IsFlagged o (apply_logging fl o config₂) e)))

  StillChecked-IsVerbose :
      (r : Option (Bool × ProgramOptions)) → StillChecked none "verbose" r → IsVerbose r
  unfolding has_option
  StillChecked-IsVerbose none h = tt
  StillChecked-IsVerbose (some (ok, o)) (g, (v, e, h)) =
      let given : has_option o "verbose" ≡ true = rw (e, has_option) refl in
      (given, to_config-IsFlagged o given)

  -- Whatever the command line is, the option verbose has a value after parsing, since its default
  -- is the text false; to_config asks only whether there is a value, and so every configuration
  -- that it builds has the flag PCIE_SIM_CONFIG_VERBOSE.
  pub parse-IsVerbose :
      (name : String) (args : List String) → IsVerbose (parse (create_otpu_options stoi) name args)
  unfolding create_otpu_options standard_specs add_option add_alias
  parse-IsVerbose name args =
      let o = create_otpu_options stoi in
      StillChecked-IsVerbose (parse o name args)
        (parse-HasChecked none "verbose" o name args (refl, ("false", refl, inr refl)))
