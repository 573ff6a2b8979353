-- ===== src/Utils/Options/Valid.antt =====
-- ProgramOptions::to_config of utils/options.cpp: from the command line to a configuration within the
-- limits of utils/config.c.
use Prim.Native.String.{String}
use text.Mathlib.Text.{◌==◌ as str_eq}
use pcie_sim.Base.{
  ℕ, ◌≤◌, ◌≡◌, inl, inr, Bool, List, Option, none, some, ◌>>=◌, Bool-cases, arith, ℤ, pos, bit_or,
}
use pcie_sim.Utils.Config.{
  Float, Pattern, small_fast, large_burst, mixed, custom, stress, LogConfig, TestConfig, defaults,
  config_init,
}
use pcie_sim.Utils.Config.Names.{parse_pattern, parse_error_scenario}
use pcie_sim.Utils.Config.Setters.{
  Is, Setter, to_pattern, to_custom, to_scenario, call, here, call-IsValid, defaults-IsValid,
}
use pcie_sim.Utils.Config.Validity.{IsRounded, IsValid}
use pcie_sim.Utils.Options.{ProgramOptions, parse, has_option, get_string, get_int}
use pcie_sim.Utils.Options.Throws.{Blamed, parse-Blamed}
use pcie_sim.Utils.Options.Checked.{HasChecked}
use pcie_sim.Utils.Options.Standard.{create_otpu_options}
use pcie_sim.Utils.Options.Convert.{
  to_u32, above_one, choose, or_flag, enable_stress, enable_logging, verbose_flag, kept,
  apply_pattern, apply_scenario, apply_stress, apply_logging, apply_verbosity, to_config,
}
use pcie_sim.Utils.Options.Numbers.{
  IsStoi, IsNumber, devices, size, rate, threads, duration, number, Numbers, StillNumbers,
  parse-Numbers, get_int-checked,
}

module _ (fl : Float) where
  -- A configuration that passes, or none for an option whose number is missing.
  pub data Outcome (o : ProgramOptions) : Option (TestConfig fl) → Type 0 where
    stopped : (j : String) → IsNumber j → (get_string o j ≡ "true") → Outcome o none
    built : (config : TestConfig fl) → IsValid fl config → Outcome o (some config)

  module _ (stoi : String → Option ℤ) where
    -- What to_config makes of the options that parsing leaves, or the argument that parsing threw on.
    abbrev pub Converted : List String → Option (Bool × ProgramOptions) → Type 0
    Converted args none = Blamed stoi args none
    Converted args (some (ok, o)) = Outcome o (to_config fl stoi o)

module _ (stoi : String → Option ℤ) (s : IsStoi stoi) where
  module _ (fl : Float) (round : IsRounded fl) where
    number-Outcome :
        (low high : ℕ) (j : String) (o : ProgramOptions) (next : ℤ → Option (TestConfig fl))
        → IsNumber j
        → HasChecked (number stoi low high) j o
        → ((n : ℕ) → low ≤ n → n ≤ high → Outcome fl o (next (pos n)))
        → Outcome fl o (get_int stoi o j >>= next)
    number-Outcome low high j o next i h k = elim (get_int-checked stoi s low high j o h) [
      | inl (e, t) ↦ rw e (stopped j i t)
      | inr (n, e, l, u) ↦ rw e (k n l u)
    ]

    then-Outcome :
        (o : ProgramOptions) (r : Option (TestConfig fl))
        (next : TestConfig fl → Option (TestConfig fl))
        → Outcome fl o r
        → ((config : TestConfig fl) → IsValid fl config → Outcome fl o (next config))
        → Outcome fl o (r >>= next)
    then-Outcome o _ next (stopped j i t) k = stopped j i t
    then-Outcome o _ next (built config v) k = k config v

    kept-IsValid :
        (config : TestConfig fl) (r : Option (TestConfig fl))
        → Is fl (IsValid fl) r
        → IsValid fl (kept fl config r)
    kept-IsValid config _ (here config' v) = v

    setter_kept :
        (config : TestConfig fl) (setter : Setter)
        → IsValid fl config
        → IsValid fl (kept fl config (call fl setter (some config)).1)
    setter_kept config setter v =
        kept-IsValid config (call fl setter (some config)).1 (call-IsValid fl round setter config v)

    -- Neither the flags nor the logging are validated.
    relabeled-IsValid :
        (config : TestConfig fl) (logging : LogConfig) (flags : ℕ)
        → IsValid fl config
        → IsValid fl (record config { logging = logging; flags = flags })
    relabeled-IsValid config logging flags v = record {
      devices_ge = v.devices_ge;
      devices_le = v.devices_le;
      transfers = v.transfers;
      chances = v.chances;
      threads_le = v.threads_le;
      duration_le = v.duration_le;
    }

    choose-Outcome :
        (o : ProgramOptions) (config : TestConfig fl) (pattern : Pattern)
        → Numbers stoi o
        → IsValid fl config
        → Outcome fl o (choose fl stoi o config pattern)
    unfolding call
    choose-Outcome o config small_fast c v = built _ (setter_kept config (to_pattern small_fast) v)
    choose-Outcome o config large_burst c v =
        built _ (setter_kept config (to_pattern large_burst) v)
    choose-Outcome o config mixed c v = built _ (setter_kept config (to_pattern mixed) v)
    choose-Outcome o config (Pattern.other k) c v =
        built _ (setter_kept config (to_pattern (Pattern.other k)) v)
    choose-Outcome o config custom c v = number-Outcome 64 4194304 "size" o _ size c.size (λ n l u.
        number-Outcome 1 10000 "rate" o _ rate c.rate
          (λ m l' u'. built _ (setter_kept config (to_custom (to_u32 (pos n)) (to_u32 (pos m))) v)))

    apply_scenario-IsValid :
        (o : ProgramOptions) (config : TestConfig fl)
        → IsValid fl config
        → IsValid fl (apply_scenario fl o config)
    unfolding apply_scenario call
    apply_scenario-IsValid o config v =
        setter_kept config
          (to_scenario (parse_error_scenario (some (get_string o "error-scenario")))) v

    stress_with : TestConfig fl → ℕ → ℕ → TestConfig fl
    stress_with config n m =
        or_flag fl
          (record config {
            stress = (record config.stress {
              load_type = stress;
              num_threads = to_u32 (pos n);
              duration_seconds = to_u32 (pos m);
            });
          })
          enable_stress

    stress_with-IsValid :
        (config : TestConfig fl) (n m : ℕ)
        → n ≤ 64
        → m ≤ 3600
        → IsValid fl config
        → IsValid fl (stress_with config n m)
    unfolding stress_with
    stress_with-IsValid config n m u u' v = record {
      devices_ge = v.devices_ge;
      devices_le = v.devices_le;
      transfers = v.transfers;
      chances = v.chances;
      threads_le = omega (arith, u);
      duration_le = omega (arith, u');
    }

    apply_stress-Outcome :
        (o : ProgramOptions) (config : TestConfig fl)
        → Numbers stoi o
        → IsValid fl config
        → Outcome fl o (apply_stress fl stoi o config)
    unfolding apply_stress stress_with
    apply_stress-Outcome o config c v =
        number-Outcome 1 64 "threads" o _ threads c.threads (λ n l u.
          elim (Bool-cases (above_one (pos n))) [
            | inl e ↦ rw e (
                number-Outcome 1 3600 "duration" o _ duration c.duration
                  (λ m l' u'. built _ (stress_with-IsValid config n m u u' v)))
            | inr e ↦ rw e (built config v)
          ])

    apply_logging-IsValid :
        (o : ProgramOptions) (config : TestConfig fl)
        → IsValid fl config
        → IsValid fl (apply_logging fl o config)
    unfolding apply_logging
    apply_logging-IsValid o config v = elim (Bool-cases (str_eq (get_string o "log-csv") "")) [
      | inl e ↦ rw e v
      | inr e ↦ rw e (relabeled-IsValid config _ (bit_or config.flags enable_logging) v)
    ]

    apply_verbosity-IsValid :
        (o : ProgramOptions) (config : TestConfig fl)
        → IsValid fl config
        → IsValid fl (apply_verbosity fl o config)
    unfolding apply_verbosity
    apply_verbosity-IsValid o config v = elim (Bool-cases (has_option o "verbose")) [
      | inl e ↦ rw e (relabeled-IsValid config config.logging (bit_or config.flags verbose_flag) v)
      | inr e ↦ rw e v
    ]

    started-IsValid :
        (n : ℕ) → 1 ≤ n → n ≤ 8 → IsValid fl (record (defaults fl) { num_devices = to_u32 (pos n) })
    started-IsValid n l u =
        let v = defaults-IsValid fl round in
        record {
          devices_ge = omega (arith, l, u);
          devices_le = omega (arith, u);
          transfers = v.transfers;
          chances = v.chances;
          threads_le = v.threads_le;
          duration_le = v.duration_le;
        }

    to_config-Outcome : (o : ProgramOptions) → Numbers stoi o → Outcome fl o (to_config fl stoi o)
    unfolding to_config config_init apply_pattern
    to_config-Outcome o c = number-Outcome 1 8 "num-devices" o _ devices c.devices (λ n l u.
        then-Outcome o _ _
          (choose-Outcome o _ (parse_pattern (some (get_string o "pattern"))) c
            (started-IsValid n l u))
          (λ config₁ v₁.
            then-Outcome o _ _ (apply_stress-Outcome o _ c (apply_scenario-IsValid o config₁ v₁))
              (λ config₂ v₂.
                built _ (apply_verbosity-IsValid o _ (apply_logging-IsValid o config₂ v₂)))))

    StillNumbers-Converted :
        (args : List String) (r : Option (Bool × ProgramOptions))
        → Blamed stoi args r
        → StillNumbers stoi r
        → Converted fl stoi args r
    StillNumbers-Converted args none b h = b
    StillNumbers-Converted args (some (ok, o)) b h = to_config-Outcome o h

    -- If std::stoi throws on the text true and reads the numbers that are defaults, and rounding
    -- keeps the numbers from 0 to 1 in that range: parsing any command line with the options of the
    -- test program throws only where std::stoi throws on an argument that is given to an option with
    -- a number. Otherwise, accepted or refused, to_config builds a configuration within the limits
    -- that pcie_sim_config_validate checks, or it throws and then one of the five options with a
    -- number was given without a value.
    pub parse-to_config :
        (name : String) (args : List String)
        → Converted fl stoi args (parse (create_otpu_options stoi) name args)
    parse-to_config name args =
        StillNumbers-Converted args (parse (create_otpu_options stoi) name args)
          (parse-Blamed stoi name args) (parse-Numbers stoi s name args)
