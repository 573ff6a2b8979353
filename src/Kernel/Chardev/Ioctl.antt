-- ===== src/Kernel/Chardev/Ioctl.antt =====
-- What an IOCTL call on the character device of kernel/chardev.c does on each of its paths.
use pcie_sim.Base.{
  ℕ, ◌≡◌, ◌≢◌, ◌⊎◌, refl, Bool, true, false, Option, none, some, arith, if◌then◌else◌, success,
  fail, efault, enotty, einval, sub64, ap, ◌∙◌,
}
use pcie_sim.Kernel.Device.{TransferReq, zero_stats}
use pcie_sim.Kernel.User.{UserMemory}
use pcie_sim.Kernel.Dma.{Answers, World, dma_transfer}
use pcie_sim.Kernel.Dma.Accounting.{dma_transfer_accounts, dma_transfer_returns}
use pcie_sim.Kernel.Chardev.{
  ioc_magic, Commands, set_mutex, transfer_request, transfer_read, ioctl_command, char_ioctl,
}

-- What the kernel's headers document: the four commands carry the magic number and differ.
pub record AreCommands (c : Commands) : Type 0 where
  pub transfer_type : c.ioc_type c.ioc_transfer ≡ ioc_magic
  pub get_stats_type : c.ioc_type c.ioc_get_stats ≡ ioc_magic
  pub reset_stats_type : c.ioc_type c.ioc_reset_stats ≡ ioc_magic
  pub set_error_type : c.ioc_type c.ioc_set_error ≡ ioc_magic
  pub transfer-get_stats : c.ioc_transfer ≢ c.ioc_get_stats
  pub transfer-reset_stats : c.ioc_transfer ≢ c.ioc_reset_stats
  pub transfer-set_error : c.ioc_transfer ≢ c.ioc_set_error
  pub get_stats-reset_stats : c.ioc_get_stats ≢ c.ioc_reset_stats
  pub get_stats-set_error : c.ioc_get_stats ≢ c.ioc_set_error
  pub reset_stats-set_error : c.ioc_reset_stats ≢ c.ioc_set_error

module _ (c : Commands) (u : UserMemory) where
  open c use {ioc_type, ioc_transfer, ioc_get_stats, ioc_reset_stats, ioc_set_error}
  open u use {copy_in_req, copy_out_req, copy_out_stats}

  -- Nothing but statistics and user memory differs, and no buffer is left over.
  abbrev Keeps : World u → World u → Type 0
  Keeps w w' = (w'.device ≡ record w.device { stats = w'.device.stats }) × (w'.buffers ≡ w.buffers)

  transfer_request-Keeps :
      (a : Answers) (w : World u) (arg : ℕ) (req : TransferReq)
      → Keeps w (transfer_request c u a w arg req).1
  transfer_request-Keeps a w arg req = ground (arith, dma_transfer_accounts u a w req)

  transfer_read-Keeps :
      (a : Answers) (w : World u) (arg : ℕ) (o : Option TransferReq)
      → Keeps w (transfer_read c u a w arg o).1
  transfer_read-Keeps a w arg none = (refl, refl)
  transfer_read-Keeps a w arg (some req) = transfer_request-Keeps a w arg req

  ioctl_command-Keeps :
      (a : Answers) (w : World u) (cmd arg : ℕ) → Keeps w (ioctl_command c u a w cmd arg).1
  ioctl_command-Keeps a w cmd arg =
      ground (arith, transfer_read-Keeps a w arg (copy_in_req w.mem arg))

  -- Whatever the command and however it ends, a call that finds the mutex free leaves it free,
  -- frees every kernel buffer that it allocated, and changes nothing of the device but its
  -- statistics.
  pub char_ioctl_releases :
      (a : Answers) (opened interrupted : Bool) (w : World u) (cmd arg : ℕ)
      → w.device.mutex ≡ false
      → let w' = (char_ioctl c u a opened interrupted w cmd arg).1 in
        (w'.device.mutex ≡ false)
        × (w'.device ≡ record w.device { stats = w'.device.stats })
        × (w'.buffers ≡ w.buffers)
  unfolding char_ioctl
  char_ioctl_releases a opened interrupted w cmd arg free =
      ground (arith, ioctl_command-Keeps a (set_mutex c u true w) cmd arg)

  transfer_is_known :
      (a : Answers) (w : World u) (req : TransferReq) → (dma_transfer u a w req).0 ≢ fail enotty
  transfer_is_known a w req = ground (arith, dma_transfer_returns u a w req)

  read_is_known :
      (a : Answers) (w : World u) (arg : ℕ) (o : Option TransferReq)
      → (transfer_read c u a w arg o).0 ≢ fail enotty
  read_is_known a w arg none = λ e. cc e
  read_is_known a w arg (some req) = ground (arith, transfer_is_known a w req)

  -- With the documented commands, on an opened file, not interrupted and with the mutex free: a
  -- command that is not of the driver's magic number is answered with -EINVAL. One of the magic
  -- number that is none of TRANSFER, GET_STATS and RESET_STATS is answered with -ENOTTY, and
  -- SET_ERROR, which kernel/common.h defines, is such a command. Neither changes anything. These
  -- three commands are of the magic number, and are never answered with -ENOTTY.
  pub ioctl_refuses :
      (a : Answers) (w : World u) (cmd arg : ℕ)
      → AreCommands c
      → w.device.mutex ≡ false
      → ((ioc_type cmd ≢ ioc_magic)
          × (cmd ≢ ioc_set_error)
          × (char_ioctl c u a true false w cmd arg ≡ (fail einval, w)))
        ⊎ ((ioc_type cmd ≡ ioc_magic)
            × (cmd ≢ ioc_transfer)
            × (cmd ≢ ioc_get_stats)
            × (cmd ≢ ioc_reset_stats)
            × (char_ioctl c u a true false w cmd arg ≡ (fail enotty, w)))
        ⊎ ((ioc_type cmd ≡ ioc_magic)
            × (cmd ≢ ioc_set_error)
            × ((cmd ≡ ioc_transfer) ⊎ (cmd ≡ ioc_get_stats) ⊎ (cmd ≡ ioc_reset_stats))
            × ((char_ioctl c u a true false w cmd arg).0 ≢ fail enotty))
  unfolding char_ioctl
  ioctl_refuses a w cmd arg k free =
      let by_magic : (d : ℕ) → ioc_type cmd ≢ ioc_magic → ioc_type d ≡ ioc_magic → cmd ≢ d =
        λ d n e q. n (ap ioc_type q ∙ e) in
      ground (
        arith,
        read_is_known a (set_mutex c u true w) arg (copy_in_req w.mem arg),
        k.transfer_type,
        k.get_stats_type,
        k.reset_stats_type,
        k.set_error_type,
        by_magic ioc_transfer,
        by_magic ioc_get_stats,
        by_magic ioc_reset_stats,
        by_magic ioc_set_error,
      )

  -- With the documented commands, on an opened file and not interrupted: RESET_STATS returns 0
  -- and clears all statistics, and GET_STATS hands the statistics out and keeps them.
  pub stats_commands :
      AreCommands c
      → (a : Answers) (w : World u) (arg : ℕ) → w.device.mutex ≡ false
      → (let (ret, w') = char_ioctl c u a true false w ioc_reset_stats arg in
          (ret ≡ success) × (w'.device.stats ≡ zero_stats) × (w'.mem ≡ w.mem))
        × (let (ret, w') = char_ioctl c u a true false w ioc_get_stats arg in
            let (copied, mem) = copy_out_stats w.mem arg w.device.stats in
            (ret ≡ (if copied then success else fail efault))
            × (w'.device ≡ w.device)
            × (w'.mem ≡ mem))
  unfolding char_ioctl
  stats_commands k a w arg free = ground arith

  -- TRANSFER with a request that can be read: the caller gets what pcie_sim_dma_transfer returns,
  -- except for -EFAULT where the request cannot be handed back; the request in user memory is
  -- written only where the transfer succeeded, with the latency filled in.
  pub transfer_command :
      AreCommands c
      → (a : Answers) (w : World u) (arg : ℕ) (req : TransferReq) → w.device.mutex ≡ false
      → copy_in_req w.mem arg ≡ some req
      → let (ret, w') = char_ioctl c u a true false w ioc_transfer arg in
        let (moved, v, req') = dma_transfer u a (set_mutex c u true w) req in
        (w'.device.stats ≡ v.device.stats)
        × (((moved ≢ success) × (ret ≡ moved) × (w'.mem ≡ v.mem))
            ⊎ ((moved ≡ success)
                × (let (copied, mem) =
                      copy_out_req v.mem arg
                        (record req { latency_ns = sub64 a.end_time a.start_time }) in
                    (ret ≡ (if copied then success else fail efault)) × (w'.mem ≡ mem))))
  unfolding char_ioctl
  transfer_command k a w arg req free e =
      ground (arith, dma_transfer_accounts u a (set_mutex c u true w) req)
