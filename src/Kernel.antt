-- ===== src/Kernel.antt =====
-- What the drivers take from the kernel, which is not part of the repository: each service is a
-- record of operations with the laws that the code relies on.
pub mod Errno
pub mod Kfifo
pub mod Wait
pub mod UserBuffer
pub mod FlipBuffer
