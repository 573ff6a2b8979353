-- ===== src/Kernel/Device.antt =====
-- kernel/common.h: the statistics, the requests and the device that the kernel's files share.
use pcie_sim.Base.{ℕ, Bool, List, Option, Errno}
use pcie_sim.Kernel.Ring.{Ring}

-- `struct pcie_sim_stats`
pub record Stats : Type 0 where
  pub total_transfers : ℕ
  pub total_bytes : ℕ
  pub total_errors : ℕ
  pub avg_latency_ns : ℕ
  pub min_latency_ns : ℕ
  pub max_latency_ns : ℕ

abbrev pub zero_stats : Stats
zero_stats = record {
  total_transfers = 0;
  total_bytes = 0;
  total_errors = 0;
  avg_latency_ns = 0;
  min_latency_ns = 0;
  max_latency_ns = 0;
}

-- `struct pcie_sim_transfer_req`. The buffer is a user address, 0 where it is NULL.
pub record TransferReq : Type 0 where
  pub buffer : ℕ
  pub size : ℕ
  pub direction : ℕ
  pub latency_ns : ℕ

-- A pointer that a kernel call returned: NULL, ERR_PTR of an error, or an object.
pub data Pointer : Type 0 where
  null valid : Pointer
  err_ptr : Errno → Pointer

-- `struct pcie_sim_device`. `mutex` says whether it is held. `bar0_virt` is the block behind the
-- pointer, byte by byte, or `none` for NULL.
pub record Device : Type 0 where
  pub devt : ℕ
  pub dev : Pointer
  pub mutex : Bool
  pub stats : Stats
  pub proc_dir : Pointer
  pub proc_stats : Pointer
  pub bar0_virt : Option (List ℕ)
  pub bar0_size : ℕ
  pub tx_ring : Ring
  pub rx_ring : Ring
  pub pending_interrupts : ℕ
  pub dma_active : ℕ
  pub simulate_errors : Bool
  pub fault_injection_rate : ℕ
  pub error_scenario : ℕ
  pub error_probability : ℕ
  pub error_recovery_time_ms : ℕ
  pub enabled : Bool
  pub device_id : ℕ
