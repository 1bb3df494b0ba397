-- ===== src/Common/Errors.antt =====
-- The error numbers of include/linux/errno.h that the modelled code returns, and the result of a
-- system call: a value that is not negative, or the number of an error, returned as `-errno`.
use Prim.Native.Nat.{ℕ}

pub data Errno : Type 0 where
  eperm enoent eintr e2big ebadf eagain enomem efault eexist einval emfile efbig enospc : Errno
  enomsg : Errno

pub data Reply : Type 0 where
  ok : ℕ → Reply
  err : Errno → Reply
