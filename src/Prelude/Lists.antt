-- ===== src/Prelude/Lists.antt =====
-- Lists measured and indexed by native numbers, under the library's names; C arrays are such lists.
mod Chunks
mod Index
mod Core
pub use Core.*
pub use Chunks.*
pub use Index.*
