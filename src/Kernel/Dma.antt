-- ===== src/Kernel/Dma.antt =====
-- kernel/dma.c: the validation of a request, the statistics, the delay and the transfer.
pub mod Accounting
pub mod History
use pcie_sim.Base.{
  ℕ, ◌+◌, ◌-◌, ◌*◌, ◌/◌, Bool, true, false, ◌||◌, List, [], ◌∷◌, Option, none, some, if◌then◌else◌,
  ltb, leb, ◌==◌, u32, u64, sub64, replicate, Ret, success, fail, Errno, einval, enomem, efault,
}
use pcie_sim.Kernel.Device.{Stats, TransferReq, Device}
use pcie_sim.Kernel.User.{UserMemory}

abbrev pub min_transfer_size : ℕ
min_transfer_size = 1

abbrev pub max_transfer_size : ℕ
max_transfer_size = 1024 * 1024

-- validate_transfer_request
unfoldable pub validate_transfer_request : TransferReq → Ret
validate_transfer_request req =
    if req.buffer == 0
    then fail einval
    else (if ltb req.size min_transfer_size || ltb max_transfer_size req.size
        then fail einval
        else (if ltb 1 req.direction then fail einval else success))

-- update_transfer_stats; the Boolean says whether the transfer succeeded.
unfoldable pub update_transfer_stats : Stats → TransferReq → ℕ → Bool → Stats
update_transfer_stats s req latency_ns false = record s { total_errors = u64 (s.total_errors + 1) }
update_transfer_stats s req latency_ns true = record s {
  total_transfers = u64 (s.total_transfers + 1);
  total_bytes = u64 (s.total_bytes + req.size);
  min_latency_ns =
      if s.min_latency_ns == 0 || ltb latency_ns s.min_latency_ns
      then latency_ns
      else s.min_latency_ns;
  max_latency_ns = if ltb s.max_latency_ns latency_ns then latency_ns else s.max_latency_ns;
  avg_latency_ns = u64 (s.avg_latency_ns + latency_ns) / 2;
}

-- A call of usleep_range() with its bounds, or of udelay().
pub data Delay : Type 0 where
  usleep_range : ℕ → ℕ → Delay
  udelay : ℕ → Delay

-- simulate_transfer_delay; `jitter_us` is what get_random_u32_below(20) returns.
unfoldable pub simulate_transfer_delay : ℕ → ℕ → Delay
simulate_transfer_delay size jitter_us =
    if ltb 10 total_delay
    then usleep_range total_delay (u32 (total_delay + 10))
    else udelay total_delay
  where
    total_delay : ℕ
    total_delay = u32 (10 + u32 (size / 1024) + jitter_us)

-- What the kernel answers during one transfer: whether kzalloc finds memory, the two readings of
-- the clock in nanoseconds, and the random number for the delay.
pub record Answers : Type 0 where
  pub memory : Bool
  pub start_time : ℕ
  pub end_time : ℕ
  pub jitter_us : ℕ

-- A buffer of `n` bytes `b`, as memset() leaves it.
unfoldable pub filled : ℕ → ℕ → List ℕ
filled b n = replicate n b

module _ (u : UserMemory) where
  open u use {Mem, copy_in, copy_out}

  -- The device, user memory, the number of kernel buffers allocated and not yet freed, and the
  -- delays so far, the last one first.
  pub record World : Type 0 where
    pub device : Device
    pub mem : Mem
    pub buffers : ℕ
    pub delays : List Delay

  -- What a transfer returns, what it leaves, and the request as the caller sees it afterwards.
  abbrev pub Outcome : Type 0
  Outcome = Ret × World × TransferReq

  abbrev pub account : World → TransferReq → ℕ → Bool → World
  account w req latency_ns done = record w {
    device = (record w.device { stats = update_transfer_stats w.device.stats req latency_ns done });
  }

  -- The label error_exit.
  abbrev error_exit : World → TransferReq → Errno → Outcome
  error_exit w req e = (fail e, account w req 0 false, req)

  -- The label error_cleanup: kfree(), then error_exit.
  abbrev error_cleanup : World → TransferReq → Errno → Outcome
  error_cleanup w req e = error_exit (record w { buffers = w.buffers - 1 }) req e

  -- The end of a transfer that moved its data.
  abbrev finish : Answers → World → TransferReq → Outcome
  finish a w req =
      let latency_ns : ℕ = sub64 a.end_time a.start_time in
      let counted = account w req latency_ns true in
      (
        success,
        record counted { buffers = counted.buffers - 1 },
        record req { latency_ns = latency_ns },
      )

  abbrev delay : Answers → World → TransferReq → World
  delay a w req = record w { delays = simulate_transfer_delay req.size a.jitter_us ∷ w.delays }

  -- TO_DEVICE: the data is copied in and dropped.
  abbrev to_device : Answers → World → TransferReq → Outcome
  to_device a w req = elim (copy_in w.mem req.buffer req.size) [
    | none ↦ error_cleanup w req efault
    | some _ ↦ finish a (delay a w req) req
  ]

  -- FROM_DEVICE: a buffer of bytes 0xAA is copied out.
  abbrev from_device : Answers → World → TransferReq → Outcome
  from_device a w req =
      let w' = delay a w req in
      let (copied, mem) = copy_out w'.mem req.buffer (filled 0xAA req.size) in
      if copied
      then finish a (record w' { mem = mem }) req
      else error_cleanup (record w' { mem = mem }) req efault

  -- The transfer of a valid request, from kzalloc() on.
  abbrev transfer_valid : Answers → World → TransferReq → Outcome
  transfer_valid a w req =
      if a.memory
      then (let w' : World = record w { buffers = w.buffers + 1 } in
          if req.direction == 0 then to_device a w' req else from_device a w' req)
      else error_exit w req enomem

  -- pcie_sim_dma_transfer
  unfoldable pub dma_transfer : Answers → World → TransferReq → Outcome
  dma_transfer a w req = elim (validate_transfer_request req) [
    | some e ↦ error_exit w req e
    | none ↦ transfer_valid a w req
  ]
