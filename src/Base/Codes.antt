-- ===== src/Base/Codes.antt =====
-- What a kernel function returns: 0 or a negated error number. `other` stands for the numbers
-- that only callees outside of the repository choose.
use Prim.Native.Nat.{ℕ}
use mathlib.Core.Option.{Option, none, some}

pub data Errno : Type 0 where
  einval enomem enospc enodata efault enodev enotty erestartsys : Errno
  other : ℕ → Errno

-- An `int` that is 0 (`none`) or an error.
abbrev pub Ret : Type 0
Ret = Option Errno

pattern abbrev pub success : Ret
success = none

pattern abbrev pub fail : Errno → Ret
fail e = some e
