-- ===== src/Bits.antt =====
-- Laws of `&`, `|` and `^` on native numbers, for every width: those that the checksum's XOR and
-- the kernels' round functions rest on.
mod Step
pub mod Ext
pub mod Xor
pub mod Sum
pub mod Fold
pub mod Bound
pub mod Big
