-- ===== src/Kernel/Isa.antt =====
-- What the vector extensions of src/kernels/cpu have in common: lanes of 32 bits, broadcast, add,
-- XOR, load and store. The compiler's intrinsics are inputs; `IsSimd` is their documentation.
pub mod Rotate
pub mod Scalar
pub mod Shifts
pub mod Ternary
pub mod Select
pub mod Choose
pub mod Sha1Sets
pub mod Sha512Sets
use valubench.Prelude.{ℕ, ◌+◌, ◌^◌, ◌<◌, ◌≡◌, bit_xor, u32}

pub record Simd : Type 1 where
  pub Vec : Type 0
  pub lanes : ℕ
  pub set1 : ℕ → Vec
  pub add : Vec → Vec → Vec
  pub xor : Vec → Vec → Vec
  pub store : Vec → ℕ → ℕ
  pub load : (ℕ → ℕ) → ℕ → Vec

pub record IsSimd (v : Simd) : Type 0 where
  pub some_lanes : 0 < v.lanes
  pub bounded : (x : v.Vec) (l : ℕ) → l < v.lanes → v.store x l < 2 ^ 32
  pub on_set1 : (x l : ℕ) → l < v.lanes → v.store (v.set1 x) l ≡ u32 x
  pub on_add :
      (x y : v.Vec) (l : ℕ) → l < v.lanes → v.store (v.add x y) l ≡ u32 (v.store x l + v.store y l)
  pub on_xor :
      (x y : v.Vec) (l : ℕ)
      → l < v.lanes
      → v.store (v.xor x y) l ≡ bit_xor (v.store x l) (v.store y l)
  pub on_load : (mem : ℕ → ℕ) (p l : ℕ) → l < v.lanes → v.store (v.load mem p) l ≡ u32 (mem (p + l))
