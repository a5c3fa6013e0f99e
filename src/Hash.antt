-- ===== src/Hash.antt =====
-- The scalar reference hashes of src/reference: one streaming engine, which md5.c, sha1.c and
-- sha512.c write out three times, and the three compression functions.
pub mod Stream
pub mod Bytes
pub mod Big
pub mod Md5
pub mod Sha1
pub mod Sha512
mod Tests
