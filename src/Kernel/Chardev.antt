-- ===== src/Kernel/Chardev.antt =====
-- kernel/chardev.c: opening and closing the character device, and its IOCTL commands.
pub mod Ioctl
use pcie_sim.Base.{
  ℕ, Bool, true, false, Option, none, some, if◌then◌else◌, ◌==◌, Ret, success, fail, einval, enodev,
  efault, enotty, erestartsys,
}
use pcie_sim.Kernel.Device.{Device, TransferReq, zero_stats}
use pcie_sim.Kernel.User.{UserMemory}
use pcie_sim.Kernel.Dma.{Answers, World, dma_transfer}

-- PCIE_SIM_IOC_MAGIC, 'P'
abbrev pub ioc_magic : ℕ
ioc_magic = 0x50

-- How the kernel's headers number the commands: `_IOC_TYPE`, and what `_IOWR`, `_IOR`, `_IO` and
-- `_IOW` make of the four definitions in kernel/common.h.
pub record Commands : Type 0 where
  pub ioc_type : ℕ → ℕ
  pub ioc_transfer : ℕ
  pub ioc_get_stats : ℕ
  pub ioc_reset_stats : ℕ
  pub ioc_set_error : ℕ

-- pcie_sim_open; the file's private data is the device, whatever is returned.
unfoldable pub chardev_open : Device → Ret × Option Device
chardev_open dev = if dev.enabled then (success, some dev) else (fail enodev, some dev)

-- pcie_sim_release
unfoldable pub chardev_release : Option Device → Ret
chardev_release private_data = success

module _ (c : Commands) (u : UserMemory) where
  open c use {ioc_type, ioc_transfer, ioc_get_stats, ioc_reset_stats}
  open u use {copy_in_req, copy_out_req, copy_out_stats}

  abbrev pub set_mutex : Bool → World u → World u
  set_mutex held w = record w { device = (record w.device { mutex = held }) }

  -- The case PCIE_SIM_IOC_TRANSFER, with the request that was copied in.
  abbrev pub transfer_request : Answers → World u → ℕ → TransferReq → Ret × World u
  transfer_request a w arg req =
      let (ret, w', req') = dma_transfer u a w req in
      elim ret [
        | some e ↦ (fail e, w')
        | none ↦
            (let (copied, mem) = copy_out_req w'.mem arg req' in
              (if copied then success else fail efault, record w' { mem = mem }))
      ]

  -- The same, from what copy_from_user() read.
  abbrev pub transfer_read : Answers → World u → ℕ → Option TransferReq → Ret × World u
  transfer_read a w arg none = (fail efault, w)
  transfer_read a w arg (some req) = transfer_request a w arg req

  abbrev pub ioctl_transfer : Answers → World u → ℕ → Ret × World u
  ioctl_transfer a w arg = transfer_read a w arg (copy_in_req w.mem arg)

  -- The case PCIE_SIM_IOC_GET_STATS.
  abbrev pub ioctl_get_stats : World u → ℕ → Ret × World u
  ioctl_get_stats w arg =
      let (copied, mem) = copy_out_stats w.mem arg w.device.stats in
      (if copied then success else fail efault, record w { mem = mem })

  -- The case PCIE_SIM_IOC_RESET_STATS.
  abbrev pub ioctl_reset_stats : World u → Ret × World u
  ioctl_reset_stats w = (success, record w { device = (record w.device { stats = zero_stats }) })

  -- The switch over the command.
  abbrev pub ioctl_command : Answers → World u → ℕ → ℕ → Ret × World u
  ioctl_command a w cmd arg =
      if cmd == ioc_transfer
      then ioctl_transfer a w arg
      else (if cmd == ioc_get_stats
          then ioctl_get_stats w arg
          else (if cmd == ioc_reset_stats then ioctl_reset_stats w else (fail enotty, w)))

  -- pcie_sim_char_ioctl. `opened` says whether the file has private data, and `interrupted`
  -- whether mutex_lock_interruptible() was broken off.
  unfoldable pub char_ioctl : Answers → Bool → Bool → World u → ℕ → ℕ → Ret × World u
  char_ioctl a opened interrupted w cmd arg =
      if opened
      then (if ioc_type cmd == ioc_magic
          then (if interrupted
              then (fail erestartsys, w)
              else (let (ret, w') = ioctl_command a (set_mutex true w) cmd arg in
                  (ret, set_mutex false w')))
          else (fail einval, w))
      else (fail einval, w)
