-- ===== src/Kernel/User.antt =====
-- User memory, which the kernel reaches only through copy_from_user() and copy_to_user(). Those
-- are not in the repository: the files that use them take this record as a parameter.
use pcie_sim.Base.{ℕ, Bool, List, Option}
use pcie_sim.Kernel.Device.{Stats, TransferReq}

-- A copy out says whether all of it succeeded, and may change the memory also where it did not.
pub record UserMemory : Type 1 where
  pub Mem : Type 0
  pub copy_in : Mem → ℕ → ℕ → Option (List ℕ)
  pub copy_out : Mem → ℕ → List ℕ → Bool × Mem
  pub copy_in_req : Mem → ℕ → Option TransferReq
  pub copy_out_req : Mem → ℕ → TransferReq → Bool × Mem
  pub copy_out_stats : Mem → ℕ → Stats → Bool × Mem
