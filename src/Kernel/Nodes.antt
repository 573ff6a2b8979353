-- ===== src/Kernel/Nodes.antt =====
-- The files of a device: the character device of kernel/chardev.c and the procfs entries of
-- kernel/procfs.c, set up and removed. What the kernel's calls return is an argument.
use pcie_sim.Base.{
  ℕ, suc, Bool, true, false, Option, none, some, ◌>>=◌, Errno, Ret, success, fail, enomem,
}
use pcie_sim.Kernel.Device.{Device, Pointer, null, valid, err_ptr}
use pcie_sim.Kernel.Ledger.{Ledger, cdev_del, device_destroy, proc_remove}

-- What cdev_add(), device_create(), proc_mkdir() and proc_create_data() return.
pub record NodeAnswers : Type 0 where
  pub cdev_add : Ret
  pub device_create : Option Errno
  pub proc_mkdir : Bool
  pub proc_create_data : Bool

-- pcie_sim_char_init; `devt` is MKDEV of the driver's major number and the device's number.
unfoldable pub char_init : NodeAnswers → ℕ → Ledger → Device → Option (Ret × Ledger × Device)
char_init a devt l dev = added a.cdev_add
  where
    created : Ledger → Option Errno → Option (Ret × Ledger × Device)
    created l' (some e) =
        cdev_del l' >>= (λ l''. some (fail e, l'', record dev { devt = devt; dev = err_ptr e }))
    created l' none =
        some (success, record l' { nodes = suc l'.nodes }, record dev { devt = devt; dev = valid })

    added : Ret → Option (Ret × Ledger × Device)
    added (some e) = some (fail e, l, record dev { devt = devt })
    added none = created (record l { cdevs = suc l.cdevs }) a.device_create

-- Removes the device file, unless the pointer is NULL.
abbrev pub destroy_node : Ledger → Device → Pointer → Option (Ledger × Device)
destroy_node l dev null = some (l, dev)
destroy_node l dev valid = device_destroy l >>= (λ l'. some (l', record dev { dev = null }))
destroy_node l dev (err_ptr e) = device_destroy l >>= (λ l'. some (l', record dev { dev = null }))

-- pcie_sim_char_cleanup, of a device that is there.
unfoldable pub char_cleanup : Ledger → Device → Option (Ledger × Device)
char_cleanup l dev =
    destroy_node l dev dev.dev >>= (λ (l', dev'). cdev_del l' >>= (λ l''. some (l'', dev')))

-- pcie_sim_proc_init, of a device that is there.
unfoldable pub proc_init : NodeAnswers → Ledger → Device → Option (Ret × Ledger × Device)
proc_init a l dev = made a.proc_mkdir
  where
    created : Ledger → Bool → Option (Ret × Ledger × Device)
    created l' false =
        proc_remove l'
        >>= (λ l''. some (fail enomem, l'', record dev { proc_dir = null; proc_stats = null }))
    created l' true = some (
      success,
      record l' { proc_entries = suc l'.proc_entries },
      record dev { proc_dir = valid; proc_stats = valid },
    )

    made : Bool → Option (Ret × Ledger × Device)
    made false = some (fail enomem, l, record dev { proc_dir = null })
    made true = created (record l { proc_entries = suc l.proc_entries }) a.proc_create_data

-- proc_remove() of a pointer that is not NULL.
abbrev pub remove_entry : Ledger → Pointer → Option Ledger
remove_entry l null = some l
remove_entry l valid = proc_remove l
remove_entry l (err_ptr e) = proc_remove l

-- pcie_sim_proc_cleanup, of a device that is there.
unfoldable pub proc_cleanup : Ledger → Device → Option (Ledger × Device)
proc_cleanup l dev = remove_entry l dev.proc_stats >>= (λ l'.
    remove_entry l' dev.proc_dir
    >>= (λ l''. some (l'', record dev { proc_stats = null; proc_dir = null })))
