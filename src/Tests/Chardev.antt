-- ===== src/Tests/Chardev.antt =====
-- Runs of kernel/chardev.c, with the numbers that Linux gives to the commands on 64 bits.
use pcie_sim.Base.{
  ℕ, ◌/◌, ◌%◌, ◌≡◌, ◌≢◌, ◌⊎◌, refl, true, false, [], ◌∷◌, arith, success, fail, enotty, einval,
}
use pcie_sim.Kernel.Dma.{dma_transfer}
use pcie_sim.Kernel.Chardev.{ioc_magic, Commands, set_mutex, char_ioctl}
use pcie_sim.Kernel.Chardev.Ioctl.{
  AreCommands, char_ioctl_releases, ioctl_refuses, transfer_command,
}
use pcie_sim.Tests.Data.{user_memory, world, answers, request}

abbrev commands : Commands
commands = record {
  ioc_type = λ cmd. cmd / 256 % 256;
  ioc_transfer = 0xC0205001;
  ioc_get_stats = 0x80305002;
  ioc_reset_stats = 0x5003;
  ioc_set_error = 0x40105004;
}

commands-AreCommands : AreCommands commands
commands-AreCommands = record {
  transfer_type = refl;
  get_stats_type = refl;
  reset_stats_type = refl;
  set_error_type = refl;
  transfer-get_stats = λ e. absurd (omega (arith, e));
  transfer-reset_stats = λ e. absurd (omega (arith, e));
  transfer-set_error = λ e. absurd (omega (arith, e));
  get_stats-reset_stats = λ e. absurd (omega (arith, e));
  get_stats-set_error = λ e. absurd (omega (arith, e));
  reset_stats-set_error = λ e. absurd (omega (arith, e));
}

char_ioctl_releases_example :
    let w' = (char_ioctl commands user_memory answers true false world 0xC0205001 4096).1 in
    (w'.device.mutex ≡ false)
    × (w'.device ≡ record world.device { stats = w'.device.stats })
    × (w'.buffers ≡ 0)
char_ioctl_releases_example =
    char_ioctl_releases commands user_memory answers true false world 0xC0205001 4096 refl

-- A command of the magic number that no header defines.
abbrev unknown_command : ℕ
unknown_command = 0x5009

ioctl_refuses_example :
    let answer = char_ioctl commands user_memory answers true false world unknown_command 4096 in
    ((commands.ioc_type unknown_command ≢ ioc_magic)
      × (unknown_command ≢ commands.ioc_set_error)
      × (answer ≡ (fail einval, world)))
    ⊎ ((commands.ioc_type unknown_command ≡ ioc_magic)
        × (unknown_command ≢ commands.ioc_transfer)
        × (unknown_command ≢ commands.ioc_get_stats)
        × (unknown_command ≢ commands.ioc_reset_stats)
        × (answer ≡ (fail enotty, world)))
    ⊎ ((commands.ioc_type unknown_command ≡ ioc_magic)
        × (unknown_command ≢ commands.ioc_set_error)
        × ((unknown_command ≡ commands.ioc_transfer)
            ⊎ (unknown_command ≡ commands.ioc_get_stats)
            ⊎ (unknown_command ≡ commands.ioc_reset_stats))
        × (answer.0 ≢ fail enotty))
ioctl_refuses_example =
    ioctl_refuses commands user_memory answers world unknown_command 4096 commands-AreCommands refl

transfer_command_example :
    let (ret, w') = char_ioctl commands user_memory answers true false world 0xC0205001 4096 in
    let (moved, v, req') =
      dma_transfer user_memory answers (set_mutex commands user_memory true world) request in
    (w'.device.stats ≡ v.device.stats)
    × (((moved ≢ success) × (ret ≡ moved) × (w'.mem ≡ v.mem))
        ⊎ ((moved ≡ success) × ((ret ≡ success) × (w'.mem ≡ 20000 ∷ []))))
transfer_command_example =
    transfer_command commands user_memory commands-AreCommands answers world 4096 request refl refl
