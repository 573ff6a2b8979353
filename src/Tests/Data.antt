-- ===== src/Tests/Data.antt =====
-- A ring, a device and user memory for the runs.
use pcie_sim.Base.{ℕ, true, false, List, [], ◌∷◌, Option, none, some, ltb, if◌then◌else◌, replicate}
use pcie_sim.Kernel.Ring.{Ring, Desc, zero_desc}
use pcie_sim.Kernel.Device.{TransferReq, Device, null, zero_stats}
use pcie_sim.Kernel.User.{UserMemory}
use pcie_sim.Kernel.Dma.{Answers, World}

-- A ring of two descriptors that holds one entry.
abbrev pub pending_desc : Desc
pending_desc = record {
  buffer_addr = 4096;
  length = 64;
  flags = 0;
  timestamp = 100;
  status = 0;
  reserved = 0;
}

abbrev pub small_ring : Ring
small_ring = record {
  descriptors = some (zero_desc ∷ pending_desc ∷ []);
  desc_dma_addr = 8192;
  size = 2;
  head = 0;
  tail = 1;
  count = 1;
  submissions = 4;
  completions = 3;
  overruns = 0;
}

abbrev pub no_ring : Ring
no_ring = record {
  descriptors = none;
  desc_dma_addr = 0;
  size = 0;
  head = 0;
  tail = 0;
  count = 0;
  submissions = 0;
  completions = 0;
  overruns = 0;
}

abbrev pub device_with : Option (List ℕ) → ℕ → ℕ → Device
device_with bar size pending = record {
  devt = 0;
  dev = null;
  mutex = false;
  stats = zero_stats;
  proc_dir = null;
  proc_stats = null;
  bar0_virt = bar;
  bar0_size = size;
  tx_ring = no_ring;
  rx_ring = no_ring;
  pending_interrupts = pending;
  dma_active = 1;
  simulate_errors = false;
  fault_injection_rate = 0;
  error_scenario = 0;
  error_probability = 0;
  error_recovery_time_ms = 0;
  enabled = true;
  device_id = 0;
}

abbrev pub plain_device : Device
plain_device = device_with none 0 0

-- User memory that records the last block copied out; addresses below 16 cannot be reached.
abbrev pub UserState : Type 0
UserState = List ℕ

abbrev pub request : TransferReq
request = record { buffer = 4096; size = 3; direction = 1; latency_ns = 0 }

abbrev pub user_memory : UserMemory
user_memory = record {
  Mem = UserState;
  copy_in = λ m a n. if ltb a 16 then none else some (replicate n 7);
  copy_out = λ m a bytes. if ltb a 16 then (false, m) else (true, bytes);
  copy_in_req = λ m a. if ltb a 16 then none else some request;
  copy_out_req = λ m a req. if ltb a 16 then (false, m) else (true, req.latency_ns ∷ []);
  copy_out_stats = λ m a s. if ltb a 16 then (false, m) else (true, s.total_transfers ∷ []);
}

abbrev pub world : World user_memory
world = record { device = plain_device; mem = []; buffers = 0; delays = [] }

abbrev pub answers : Answers
answers = record { memory = true; start_time = 1000; end_time = 21000; jitter_us = 5 }
