-- ===== src/Prelude/Errno.antt =====
-- The negative return values of the kernel, and results that carry one.
use Prim.Native.Nat.{ℕ}

-- The names of <linux/errno.h> that the modules return.
pub data Errno : Type 0 where
  eperm enoent eio enomem efault ebusy enodev einval eagain eopnotsupp erestartsys : Errno
  -- An error of the kernel that is passed on.
  other : ℕ → Errno

-- `ssize_t` and `int` results: a count, or an error.
pub data Ret : Type 0 where
  value : ℕ → Ret
  error : Errno → Ret
