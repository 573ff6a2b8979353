-- ===== src/Utils/Config/Validity.antt =====
-- Which configurations pcie_sim_config_validate of utils/config.c accepts.
use pcie_sim.Base.{ℕ, ◌≤◌, ◌≡◌, ◌↔◌, false, some, arith}
use pcie_sim.Utils.Config.{Float, TransferConfig, TestConfig, accepted, config_validate}

-- What the code relies on of the type float: the numbers n / 10000 from 0 to 1 that it writes do
-- not lie outside of the range from 0.0f to 1.0f, since rounding is monotone.
pub record IsRounded (fl : Float) : Type 0 where
  pub not_below : (n : ℕ) → fl.less (fl.ten_thousandths n) (fl.ten_thousandths 0) ≡ false
  pub not_above :
      (n : ℕ) → n ≤ 10000 → fl.less (fl.ten_thousandths 10000) (fl.ten_thousandths n) ≡ false

-- The limits that the code sets for a transfer.
pub record IsTransfer (t : TransferConfig) : Type 0 where
  pub min_ge : 64 ≤ t.min_size
  pub max_le : t.max_size ≤ 4194304
  pub ordered : t.min_size ≤ t.max_size
  pub rate_ge : 1 ≤ t.rate_hz
  pub rate_le : t.rate_hz ≤ 10000

module _ (fl : Float) where
  open fl use {F, ten_thousandths, less}

  -- A probability that is neither below 0.0f nor above 1.0f.
  abbrev pub InUnit : F → Type 0
  InUnit p = (less p (ten_thousandths 0) ≡ false) × (less (ten_thousandths 10000) p ≡ false)

  -- The limits for a whole configuration.
  pub record IsValid (config : TestConfig fl) : Type 0 where
    pub devices_ge : 1 ≤ config.num_devices
    pub devices_le : config.num_devices ≤ 8
    pub transfers : IsTransfer config.transfer
    pub chances : InUnit config.error.probability
    pub threads_le : config.stress.num_threads ≤ 64
    pub duration_le : config.stress.duration_seconds ≤ 3600

  -- Validation accepts a configuration exactly when 1 to 8 devices, transfers of 64 bytes to 4 MB
  -- in order, 1 to 10000 transfers a second, an error probability between 0 and 1, at most 64
  -- threads and at most an hour are asked for. No thread and no duration pass too, and neither
  -- the error scenario nor the transfer pattern is looked at.
  pub config_validate_exactly :
      (config : TestConfig fl) → (config_validate fl (some config) ≡ accepted) ↔ IsValid config
  unfolding config_validate
  config_validate_exactly config = ground arith
