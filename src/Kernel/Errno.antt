-- ===== src/Kernel/Errno.antt =====
-- The error codes that the drivers return, as the negative `int` that the kernel's headers give.
use testings.Prelude.Int.{ℤ, pos, negsuc}

abbrev pub success : ℤ
success = pos 0

-- -EIO is -5
abbrev pub eio : ℤ
eio = negsuc 4

-- -ENXIO is -6
abbrev pub enxio : ℤ
enxio = negsuc 5

-- -EAGAIN is -11
abbrev pub eagain : ℤ
eagain = negsuc 10

-- -ENOMEM is -12
abbrev pub enomem : ℤ
enomem = negsuc 11

-- -EFAULT is -14
abbrev pub efault : ℤ
efault = negsuc 13

-- -EINVAL is -22
abbrev pub einval : ℤ
einval = negsuc 21

-- -ERANGE is -34
abbrev pub erange : ℤ
erange = negsuc 33

-- -ERESTARTSYS is -512
abbrev pub erestartsys : ℤ
erestartsys = negsuc 511
