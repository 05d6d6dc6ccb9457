-- ===== src/Kernel/Errno.antt =====
-- The error codes of the kernel (asm-generic/errno-base.h, asm-generic/errno.h).
use Prim.Native.Nat.{ℕ}

abbrev pub eio : ℕ
eio = 5

abbrev pub enxio : ℕ
enxio = 6

abbrev pub enomem : ℕ
enomem = 12

abbrev pub efault : ℕ
efault = 14

abbrev pub ebusy : ℕ
ebusy = 16

abbrev pub enodev : ℕ
enodev = 19

abbrev pub einval : ℕ
einval = 22

abbrev pub enotty : ℕ
enotty = 25

abbrev pub enospc : ℕ
enospc = 28

abbrev pub eopnotsupp : ℕ
eopnotsupp = 95

abbrev pub etimedout : ℕ
etimedout = 110
