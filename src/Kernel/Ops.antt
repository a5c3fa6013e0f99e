-- ===== src/Kernel/Ops.antt =====
-- The OPS_* macros of src/kernels/cpu: an instruction set's operations on vectors of 32-bit lanes,
-- and what the kernel templates rely on.
use valubench.Prelude.{ℕ, ◌+◌, ◌^◌, ◌<◌, ◌≡◌, bit_xor, u32}
use valubench.Hash.Bytes.{rotl32}
use valubench.Hash.Md5.{md5_f, md5_g, md5_h, md5_i}

-- `load` reads at an element of a `uint32_t` array; `store` gives the array that it fills.
pub record Ops : Type 1 where
  pub Vec : Type 0
  pub lanes : ℕ
  pub set1 : ℕ → Vec
  pub add : Vec → Vec → Vec
  pub xor : Vec → Vec → Vec
  pub rotl : Vec → ℕ → Vec
  pub store : Vec → ℕ → ℕ
  pub load : (ℕ → ℕ) → ℕ → Vec
  pub f : Vec → Vec → Vec → Vec
  pub g : Vec → Vec → Vec → Vec
  pub h : Vec → Vec → Vec → Vec
  pub i : Vec → Vec → Vec → Vec

-- Each operation works on every lane by itself, as the operation on words does. A rotate is by a
-- literal from 1 to 31.
pub record IsOps (o : Ops) : Type 0 where
  pub some_lanes : 0 < o.lanes
  pub bounded : (v : o.Vec) (l : ℕ) → l < o.lanes → o.store v l < 2 ^ 32
  pub on_set1 : (x l : ℕ) → l < o.lanes → o.store (o.set1 x) l ≡ u32 x
  pub on_add :
      (x y : o.Vec) (l : ℕ) → l < o.lanes → o.store (o.add x y) l ≡ u32 (o.store x l + o.store y l)
  pub on_xor :
      (x y : o.Vec) (l : ℕ)
      → l < o.lanes
      → o.store (o.xor x y) l ≡ bit_xor (o.store x l) (o.store y l)
  pub on_rotl :
      (x : o.Vec) (n l : ℕ)
      → l < o.lanes
      → 0 < n
      → n < 32
      → o.store (o.rotl x n) l ≡ rotl32 (o.store x l) n
  pub on_load : (mem : ℕ → ℕ) (p l : ℕ) → l < o.lanes → o.store (o.load mem p) l ≡ u32 (mem (p + l))
  pub on_f :
      (x y z : o.Vec) (l : ℕ)
      → l < o.lanes
      → o.store (o.f x y z) l ≡ md5_f (o.store x l) (o.store y l) (o.store z l)
  pub on_g :
      (x y z : o.Vec) (l : ℕ)
      → l < o.lanes
      → o.store (o.g x y z) l ≡ md5_g (o.store x l) (o.store y l) (o.store z l)
  pub on_h :
      (x y z : o.Vec) (l : ℕ)
      → l < o.lanes
      → o.store (o.h x y z) l ≡ md5_h (o.store x l) (o.store y l) (o.store z l)
  pub on_i :
      (x y z : o.Vec) (l : ℕ)
      → l < o.lanes
      → o.store (o.i x y z) l ≡ md5_i (o.store x l) (o.store y l) (o.store z l)
