-- ===== src/Kernel/Isa/Select.antt =====
-- src/kernels/cpu/neon.c: a bitwise select for the round functions, and a shift that inserts for the
-- rotate.
use valubench.Prelude.{ℕ, ◌+◌, ◌-◌, ◌*◌, ◌/◌, ◌%◌, ◌^◌, ◌≤◌, ◌<◌, ◌≡◌, sym, ap, ap₂, ◌∙◌, arith}
use valubench.Prelude.{bit_and, bit_or, bit_xor, u32, ◌<<<◌}
use native.Mathlib.Nat.{mul-div_cancel, one-le-pow}
use valubench.Bits.Bound.{and_comm}
use valubench.Hash.Bytes.{rotl32, not32}
use valubench.Hash.Md5.{md5_f, md5_g, md5_h, md5_i}
use valubench.Kernel.Ops.{Ops, IsOps}
use valubench.Kernel.Isa.{Simd, IsSimd}
use valubench.Kernel.Isa.Rotate.{shifted, rotl32-sum}

-- `vbslq_u32`, `vorrq_u32`, `vmvnq_u32`, `vshlq_n_u32` and `vsriq_n_u32`.
pub record SelectOps (v : Simd) : Type 0 where
  pub bsl : v.Vec → v.Vec → v.Vec → v.Vec
  pub orr : v.Vec → v.Vec → v.Vec
  pub mvn : v.Vec → v.Vec
  pub shl : v.Vec → ℕ → v.Vec
  pub sri : v.Vec → v.Vec → ℕ → v.Vec

-- An insert by `k` keeps the top `k` bits of its first argument.
pub record IsSelectOps (v : Simd) (s : SelectOps v) : Type 0 where
  pub on_bsl :
      (m x y : v.Vec) (l : ℕ)
      → l < v.lanes
      → v.store (s.bsl m x y) l
        ≡ bit_or (bit_and (v.store m l) (v.store x l)) (bit_and (not32 (v.store m l)) (v.store y l))
  pub on_orr :
      (x y : v.Vec) (l : ℕ)
      → l < v.lanes
      → v.store (s.orr x y) l ≡ bit_or (v.store x l) (v.store y l)
  pub on_mvn : (x : v.Vec) (l : ℕ) → l < v.lanes → v.store (s.mvn x) l ≡ not32 (v.store x l)
  pub on_shl :
      (x : v.Vec) (n l : ℕ) → l < v.lanes → n < 32 → v.store (s.shl x n) l ≡ u32 (v.store x l <<< n)
  pub on_sri :
      (x y : v.Vec) (k l : ℕ)
      → l < v.lanes
      → 0 < k
      → k ≤ 32
      → v.store (s.sri x y k) l ≡ v.store x l / 2 ^ (32 - k) * 2 ^ (32 - k) + v.store y l / 2 ^ k

-- The OPS_* macros.
unfoldable pub select_ops : (v : Simd) → SelectOps v → Ops
select_ops v s = record {
  Vec = v.Vec;
  lanes = v.lanes;
  set1 = v.set1;
  add = v.add;
  xor = v.xor;
  rotl = λ x n. s.sri (s.shl x n) x (32 - n);
  store = v.store;
  load = v.load;
  f = λ x y z. s.bsl x y z;
  g = λ x y z. s.bsl z x y;
  h = λ x y z. v.xor (v.xor x y) z;
  i = λ x y z. v.xor y (s.orr x (s.mvn z));
}

-- The shift and the insert rotate a word.
inserted :
    (x n : ℕ)
    → x < 2 ^ 32
    → 0 < n
    → n < 32
    → u32 (x <<< n) / 2 ^ (32 - (32 - n)) * 2 ^ (32 - (32 - n)) + x / 2 ^ (32 - n) ≡ rotl32 x n
inserted x n bounded pos small =
    let back : 32 - (32 - n) ≡ n = omega arith in
    ap (λ k. u32 (x <<< n) / 2 ^ k * 2 ^ k + x / 2 ^ (32 - n)) back
    ∙ ap (λ t. t / 2 ^ n * 2 ^ n + x / 2 ^ (32 - n)) (shifted x n pos small)
    ∙ ap (λ t. t * 2 ^ n + x / 2 ^ (32 - n))
        (mul-div_cancel (x % 2 ^ (32 - n)) (omega (arith, one-le-pow n 2)))
    ∙ omega arith
    ∙ sym (rotl32-sum x n pos small bounded)

-- If the intrinsics do what their documentation says, the select and the insert give the rotate and
-- the round functions of the reference, on every lane.
pub select_ops-IsOps :
    (v : Simd) (s : SelectOps v) → IsSimd v → IsSelectOps v s → IsOps (select_ops v s)
unfolding select_ops md5_f md5_g md5_h md5_i
select_ops-IsOps v s simd selects = record {
  some_lanes = simd.some_lanes;
  bounded = simd.bounded;
  on_set1 = simd.on_set1;
  on_add = simd.on_add;
  on_xor = simd.on_xor;
  on_rotl = λ x n l h pos small.
      selects.on_sri (s.shl x n) x (32 - n) l h (omega arith) (omega arith)
      ∙ ap (λ t. t / 2 ^ (32 - (32 - n)) * 2 ^ (32 - (32 - n)) + v.store x l / 2 ^ (32 - n))
          (selects.on_shl x n l h small)
      ∙ inserted (v.store x l) n (simd.bounded x l h) pos small;
  on_load = simd.on_load;
  on_f = λ x y z l h. selects.on_bsl x y z l h;
  on_g = λ x y z l h.
      selects.on_bsl z x y l h
      ∙ ap₂ bit_or (and_comm (v.store z l) (v.store x l))
          (and_comm (not32 (v.store z l)) (v.store y l));
  on_h = λ x y z l h.
      simd.on_xor (v.xor x y) z l h ∙ ap (λ t. bit_xor t (v.store z l)) (simd.on_xor x y l h);
  on_i = λ x y z l h.
      simd.on_xor y (s.orr x (s.mvn z)) l h
      ∙ ap (bit_xor (v.store y l))
          (selects.on_orr x (s.mvn z) l h ∙ ap (bit_or (v.store x l)) (selects.on_mvn z l h));
}
