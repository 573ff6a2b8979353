-- ===== src/Utils/Config/Flags.antt =====
-- What pcie_sim_config_set_error_scenario of utils/config.c does to the flags.
use pcie_sim.Base.{
  ℕ, ◌<◌, ◌≡◌, ◌↔◌, some, arith, bit, bit_or, not32, if◌then◌else◌, refl, bit-bit_or, bit-bit_and,
  bit-not32, bit-le-one, bit-zero, zero, suc, ◌==◌, ◌^◌,
}
use pcie_sim.Utils.Config.{
  Float, Scenario, TestConfig, accepted, scenario_none, timeout, corruption, overrun,
  choose_scenario, set_error_scenario, enable_errors,
}
use pcie_sim.Utils.Config.Names.{IsScenario, is_none, is_timeout, is_corruption, is_overrun}

bit_two : (k : ℕ) → bit k enable_errors ≡ (if k == 1 then 1 else 0)
bit_two zero = refl
bit_two (suc zero) = refl
bit_two (suc (suc k)) = ground (arith, bit-zero k)

-- What setting a scenario does to bit `k` of the flags.
abbrev pub flag_after : Scenario → ℕ → ℕ → ℕ
flag_after scenario_none k b = if k == 1 then 0 else b
flag_after timeout k b = if k == 1 then 1 else b
flag_after corruption k b = if k == 1 then 1 else b
flag_after overrun k b = if k == 1 then 1 else b
flag_after (Scenario.other n) k b = b

unknown : {n : ℕ} {A : Type 0} → IsScenario (Scenario.other n) → A
unknown i = elim i [ ]

module _ (fl : Float) where
  injected :
      (config : TestConfig fl)
      → (k : ℕ)
      → bit k (bit_or config.flags enable_errors) ≡ (if k == 1 then 1 else bit k config.flags)
  injected config k =
      ground (arith, bit-bit_or k config.flags enable_errors, bit_two k, bit-le-one k config.flags)

  -- Setting an error scenario sets the flag PCIE_SIM_CONFIG_ENABLE_ERRORS for a scenario that
  -- injects errors, clears it for none, and leaves every other flag; the scenario is stored, known
  -- or not, and the call is accepted exactly for a known one.
  pub set_error_scenario_lem :
      (config : TestConfig fl)
      → (scenario : Scenario) → (k : ℕ) → config.flags < 2 ^ 32
      → k < 32
      → let (code, config') = choose_scenario fl config scenario in
        (set_error_scenario fl (some config) scenario ≡ (code, some config'))
        × ((code ≡ accepted) ↔ IsScenario scenario)
        × (config'.error.scenario ≡ scenario)
        × (bit k config'.flags ≡ flag_after scenario k (bit k config.flags))
  unfolding set_error_scenario
  set_error_scenario_lem config scenario_none k f< k< = (
    refl,
    (λ e. is_none, λ e. refl),
    refl,
    ground (
      arith,
      bit-bit_and k config.flags (not32 enable_errors),
      bit-not32 k enable_errors k< (omega arith),
      bit_two k,
      bit-le-one k config.flags,
    ),
  )
  set_error_scenario_lem config timeout k f< k< =
      (refl, (λ e. is_timeout, λ e. refl), refl, injected config k)
  set_error_scenario_lem config corruption k f< k< =
      (refl, (λ e. is_corruption, λ e. refl), refl, injected config k)
  set_error_scenario_lem config overrun k f< k< =
      (refl, (λ e. is_overrun, λ e. refl), refl, injected config k)
  set_error_scenario_lem config (Scenario.other n) k f< k< =
      (refl, (λ e. ground arith, λ i. unknown i), refl, refl)
