-- ===== src/Api.antt =====
-- lib/types.h and lib/utils.c: the types that the user-space library and its backends share.
use Prim.Native.String.{String}
use pcie_sim.Base.{ℕ}

-- `pcie_sim_error_t`; `other` is a value that no enumerator has.
pub data Error : Type 0 where
  success error_device error_param error_memory error_timeout error_system : Error
  other : ℕ → Error

abbrev pub to_device : ℕ
to_device = 0

abbrev pub from_device : ℕ
from_device = 1

-- `struct pcie_sim_stats`
pub record Stats : Type 0 where
  pub total_transfers : ℕ
  pub total_bytes : ℕ
  pub total_errors : ℕ
  pub avg_latency_ns : ℕ
  pub min_latency_ns : ℕ
  pub max_latency_ns : ℕ

-- What memset leaves of the statistics.
abbrev pub zero_stats : Stats
zero_stats = record {
  total_transfers = 0;
  total_bytes = 0;
  total_errors = 0;
  avg_latency_ns = 0;
  min_latency_ns = 0;
  max_latency_ns = 0;
}

-- pcie_sim_error_string
unfoldable pub error_string : Error → String
error_string success = "Success"
error_string error_device = "Device error - check if device exists and is accessible"
error_string error_param = "Invalid parameter - check function arguments"
error_string error_memory = "Memory allocation error - insufficient memory"
error_string error_timeout = "Operation timeout - device may be busy"
error_string error_system = "System error - check kernel logs and device status"
error_string (other n) = "Unknown error code"
