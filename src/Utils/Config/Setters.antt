-- ===== src/Utils/Config/Setters.antt =====
-- The setters of utils/config.c: which calls they accept, and that a configuration they have built
-- passes the validation.
use pcie_sim.Base.{ℕ, ◌≤◌, ◌≡◌, ◌⊎◌, inl, inr, List, [], ◌∷◌, Option, some, arith}
use pcie_sim.Utils.Config.{
  Float, Pattern, Scenario, TestConfig, Code, accepted, refused, config_validate, defaults,
  small_fast, large_burst, mixed, custom, scenario_none, timeout, corruption, overrun, config_init,
  choose_pattern, set_pattern, set_custom_pattern, choose_scenario, custom_config,
  set_error_scenario,
}
use pcie_sim.Utils.Config.Validity.{IsRounded, IsValid, InUnit, config_validate_exactly}

-- The sizes and the rates that a custom pattern may have.
pub record IsCustom (size rate : ℕ) : Type 0 where
  pub size_ge : 64 ≤ size
  pub size_le : size ≤ 4194304
  pub rate_ge : 1 ≤ rate
  pub rate_le : rate ≤ 10000

-- A call of a setter.
pub data Setter : Type 0 where
  to_pattern : Pattern → Setter
  to_custom : ℕ → ℕ → Setter
  to_scenario : Scenario → Setter

module _ (fl : Float) where
  open fl use {F, ten_thousandths, less}

  -- The call of the setter, and calls in a row.
  unfoldable pub call : Setter → Option (TestConfig fl) → Code × Option (TestConfig fl)
  call (to_pattern pattern) config = set_pattern fl config pattern
  call (to_custom size rate) config = set_custom_pattern fl config size rate
  call (to_scenario scenario) config = set_error_scenario fl config scenario

  unfoldable pub calls : List Setter → Option (TestConfig fl) → Option (TestConfig fl)
  calls [] config = config
  calls (setter ∷ setters) config = calls setters ((call setter config).1)

  -- A configuration that is there and that has a property.
  pub data Is (P : TestConfig fl → Type 0) : Option (TestConfig fl) → Type 0 where
    here : (config : TestConfig fl) → P config → Is P (some config)

  -- Setting a custom pattern is accepted exactly for a size from 64 bytes to 4 MB and a rate from 1
  -- to 10000, and then every transfer has that size and rate; otherwise the configuration stays.
  pub set_custom_pattern_exactly :
      (config : TestConfig fl)
      → (size rate : ℕ)
      → ((¬ IsCustom size rate)
          × (set_custom_pattern fl (some config) size rate ≡ (refused, some config)))
        ⊎ (IsCustom size rate
            × (set_custom_pattern fl (some config) size rate
                ≡ (accepted, some (record config { transfer = custom_config size rate }))))
  unfolding set_custom_pattern
  set_custom_pattern_exactly config size rate = ground arith

  module _ (r : IsRounded fl) where
    in_unit : (n : ℕ) → n ≤ 10000 → InUnit fl (ten_thousandths n)
    in_unit n n≤ = (IsRounded.not_below r n, IsRounded.not_above r n n≤)

    pub defaults-IsValid : IsValid fl (defaults fl)
    defaults-IsValid =
        let u = in_unit 0 (omega arith) in
        record {
          devices_ge = omega arith;
          devices_le = omega arith;
          transfers = ground arith;
          chances = u;
          threads_le = omega arith;
          duration_le = omega arith;
        }

    pub choose_pattern-IsValid :
        (config : TestConfig fl)
        → (pattern : Pattern) → IsValid fl config
        → IsValid fl ((choose_pattern fl config pattern).1)
    choose_pattern-IsValid config small_fast v = ground arith
    choose_pattern-IsValid config large_burst v = ground arith
    choose_pattern-IsValid config mixed v = ground arith
    choose_pattern-IsValid config custom v = ground arith
    choose_pattern-IsValid config (Pattern.other n) v = v

    pub choose_scenario-IsValid :
        (config : TestConfig fl)
        → (scenario : Scenario) → IsValid fl config
        → IsValid fl ((choose_scenario fl config scenario).1)
    choose_scenario-IsValid config scenario_none v = let u = in_unit 0 (omega arith) in ground arith
    choose_scenario-IsValid config timeout v = let u = in_unit 100 (omega arith) in ground arith
    choose_scenario-IsValid config corruption v = let u = in_unit 50 (omega arith) in ground arith
    choose_scenario-IsValid config overrun v = let u = in_unit 200 (omega arith) in ground arith
    choose_scenario-IsValid config (Scenario.other n) v = ground arith

    pub call-IsValid :
        (setter : Setter)
        → (config : TestConfig fl) → IsValid fl config
        → Is (IsValid fl) ((call setter (some config)).1)
    unfolding call set_pattern set_custom_pattern set_error_scenario
    call-IsValid (to_pattern pattern) config v =
        here ((choose_pattern fl config pattern).1) (choose_pattern-IsValid config pattern v)
    call-IsValid (to_custom size rate) config v =
        elim (set_custom_pattern_exactly config size rate) [
          | inl (c, e) ↦ rw e (here config v)
          | inr (c, e) ↦
              rw e (here (record config { transfer = custom_config size rate }) (ground arith))
        ]
    call-IsValid (to_scenario scenario) config v =
        here ((choose_scenario fl config scenario).1) (choose_scenario-IsValid config scenario v)

    validated :
        (config : Option (TestConfig fl))
        → Is (IsValid fl) config
        → config_validate fl config ≡ accepted
    validated _ (here config v) = (config_validate_exactly fl config).1 v

    calls-IsValid :
        (setters : List Setter)
        → (config : Option (TestConfig fl)) → Is (IsValid fl) config
        → Is (IsValid fl) (calls setters config)
    unfolding calls
    calls-IsValid [] config v = v
    calls-IsValid (setter ∷ setters) _ (here config v) =
        calls-IsValid setters ((call setter (some config)).1) (call-IsValid setter config v)

    -- After initialization, whatever setters are called with whatever arguments, accepted or
    -- refused, the configuration passes the validation.
    pub setters_validate :
        (setters : List Setter)
        → (config : TestConfig fl)
        → config_validate fl (calls setters ((config_init fl (some config)).1)) ≡ accepted
    unfolding config_init
    setters_validate setters config =
        validated (calls setters (some (defaults fl)))
          (calls-IsValid setters (some (defaults fl)) (here (defaults fl) defaults-IsValid))
