-- ===== src/Kernel.antt =====
-- src/kernels/cpu: the vector operations of each instruction set, and the kernels written over them.
pub mod Ops
pub mod Isa
pub mod Md5
pub mod Sha
pub mod Sha1
pub mod Sha512
mod Tests
