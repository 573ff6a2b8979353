-- ===== src/Kernel/Dma/Accounting.antt =====
-- Every way through pcie_sim_dma_transfer of kernel/dma.c: which requests it accepts, what it
-- returns, and what it leaves of buffers, statistics and the request.
use Prim.Native.Nat.{◌%◌, ◌^◌}
use pcie_sim.Base.{
  refl, ltb, ℕ, ◌+◌, ◌/◌, ◌≤◌, ◌<◌, ◌≡◌, ◌≢◌, ◌↔◌, ◌⊎◌, Bool, true, false, is_some, not, ◌&&◌, none,
  some, arith, ◌==◌, if◌then◌else◌, sub64, Ret, success, fail, einval, enomem, efault,
}
use pcie_sim.Kernel.Device.{Stats, TransferReq}
use pcie_sim.Kernel.User.{UserMemory}
use pcie_sim.Kernel.Dma.{
  max_transfer_size, validate_transfer_request, update_transfer_stats, usleep_range, udelay,
  simulate_transfer_delay, Answers, filled, World, dma_transfer,
}

abbrev pub IsAccepted : TransferReq → Type 0
IsAccepted req =
    (req.buffer ≢ 0) × (1 ≤ req.size) × (req.size ≤ max_transfer_size) × (req.direction ≤ 1)

-- A request is accepted exactly if its buffer is not NULL, its size lies between 1 byte and 1 MB
-- and its direction is 0 or 1; any other is refused with -EINVAL.
pub validate_exactly :
    (req : TransferReq)
    → ((validate_transfer_request req ≡ success) ↔ IsAccepted req)
      × ((validate_transfer_request req ≡ success) ⊎ (validate_transfer_request req ≡ fail einval))
unfolding validate_transfer_request
validate_exactly req = ground arith

-- For a size of at most 1 MB and a random number below 20, the delay lies between 10 and 1053 µs,
-- and is a busy wait only at 10 µs.
pub delay_bounds :
    (size jitter_us : ℕ)
    → size ≤ max_transfer_size
    → jitter_us < 20
    → (t : ℕ) × (10 ≤ t)
      × (t ≤ 1053)
      × (((simulate_transfer_delay size jitter_us ≡ usleep_range t (t + 10)) × (10 < t))
          ⊎ ((simulate_transfer_delay size jitter_us ≡ udelay t) × (t ≡ 10)))
unfolding simulate_transfer_delay
delay_bounds size jitter_us h k =
    (10 + size / 1024 + jitter_us, ground arith, ground arith, ground arith)

module _ (u : UserMemory) where
  open u use {Mem, copy_in, copy_out}

  -- The statistics after a success with a latency.
  abbrev pub with_success : Stats → ℕ → ℕ → Stats
  with_success s size latency = record s {
    total_transfers = (s.total_transfers + 1) % 2 ^ 64;
    total_bytes = (s.total_bytes + size) % 2 ^ 64;
    min_latency_ns =
        if s.min_latency_ns == 0
        then latency
        else (if ltb latency s.min_latency_ns then latency else s.min_latency_ns);
    max_latency_ns = if ltb s.max_latency_ns latency then latency else s.max_latency_ns;
    avg_latency_ns = (s.avg_latency_ns + latency) % 2 ^ 64 / 2;
  }

  -- The statistics and the request after a transfer that returned `ret`.
  abbrev pub counted : Answers → TransferReq → Stats → Ret → Stats
  counted a req s none = with_success s req.size (sub64 a.end_time a.start_time)
  counted a req s (some e) = record s { total_errors = (s.total_errors + 1) % 2 ^ 64 }

  success-counted :
      (s : Stats) (req : TransferReq) (latency : ℕ)
      → update_transfer_stats s req latency true ≡ with_success s req.size latency
  unfolding update_transfer_stats
  success-counted s req latency = ground arith

  error-counted :
      (s : Stats) (req : TransferReq)
      → update_transfer_stats s req 0 false
        ≡ record s { total_errors = (s.total_errors + 1) % 2 ^ 64 }
  unfolding update_transfer_stats
  error-counted s req = refl

  abbrev pub answered : Answers → TransferReq → Ret → TransferReq
  answered a req none = record req { latency_ns = sub64 a.end_time a.start_time }
  answered a req (some e) = req

  -- On every path a transfer frees the buffer that it allocated. Where it returns 0, it adds one
  -- transfer and the size to the counters modulo 2 ^ 64, and takes its latency into the minimum,
  -- where 0 stands for none, into the maximum, and into half of the sum with the average; where it
  -- returns an error, it adds one error and keeps the other statistics. It changes nothing else of
  -- the device, and changes the request only on success and only in its latency.
  pub dma_transfer_accounts :
      (a : Answers) (w : World u) (req : TransferReq)
      → let (ret, w', req') = dma_transfer u a w req in
        (w'.buffers ≡ w.buffers)
        × (w'.device ≡ record w.device { stats = counted a req w.device.stats ret })
        × (req' ≡ answered a req ret)
  unfolding dma_transfer
  dma_transfer_accounts a w req = ground (
    arith,
    success-counted w.device.stats req (sub64 a.end_time a.start_time),
    error-counted w.device.stats req,
  )

  -- Whether user memory lets the transfer's data through.
  abbrev pub moves : World u → TransferReq → Bool
  moves w req =
      if req.direction == 0
      then is_some (copy_in w.mem req.buffer req.size)
      else (copy_out w.mem req.buffer (filled 0xAA req.size)).0

  -- User memory afterwards: the copy out is made for an accepted read that found memory.
  abbrev pub memory_after : Answers → World u → TransferReq → Mem
  memory_after a w req =
      if a.memory && not (req.direction == 0)
      then (copy_out w.mem req.buffer (filled 0xAA req.size)).1
      else w.mem

  -- A transfer returns -EINVAL for a request that is not accepted and leaves user memory alone.
  -- For an accepted one it returns -ENOMEM where no buffer is found, -EFAULT where user memory
  -- cannot be copied, and else 0; a read writes the bytes 0xAA to the user's buffer, and a
  -- write changes no user memory.
  pub dma_transfer_returns :
      (a : Answers) (w : World u) (req : TransferReq)
      → let (ret, w', req') = dma_transfer u a w req in
        (¬ IsAccepted req × (ret ≡ fail einval) × (w'.mem ≡ w.mem))
        ⊎ (IsAccepted req
            × (ret ≡ (
                if a.memory then (if moves w req then success else fail efault) else fail enomem))
            × (w'.mem ≡ memory_after a w req))
  unfolding dma_transfer
  dma_transfer_returns a w req = ground (arith, validate_exactly req)
