-- ===== src/Kernel/Isa/Shifts.antt =====
-- src/kernels/cpu/sse2.c and avx2.c: no rotate and no three-input logic, so both are composed.
use valubench.Prelude.{ℕ, ◌-◌, ◌%◌, ◌<◌, ◌≡◌, ap, ap₂, ◌∙◌, arith}
use valubench.Prelude.{bit_and, bit_or, bit_xor, u32, ◌<<<◌, ◌>>>◌}
use valubench.Bits.Bound.{and_comm}
use valubench.Hash.Bytes.{rotl32, not32}
use valubench.Hash.Md5.{md5_f, md5_g, md5_h, md5_i}
use valubench.Kernel.Ops.{Ops, IsOps}
use valubench.Kernel.Isa.{Simd, IsSimd}

-- `_mm_and_si128`, `_mm_andnot_si128`, `_mm_or_si128`, `_mm_slli_epi32`, `_mm_srli_epi32`, and
-- their 256-bit siblings.
pub record ShiftOps (v : Simd) : Type 0 where
  pub and : v.Vec → v.Vec → v.Vec
  pub andnot : v.Vec → v.Vec → v.Vec
  pub or : v.Vec → v.Vec → v.Vec
  pub slli : v.Vec → ℕ → v.Vec
  pub srli : v.Vec → ℕ → v.Vec

pub record IsShiftOps (v : Simd) (s : ShiftOps v) : Type 0 where
  pub on_and :
      (x y : v.Vec) (l : ℕ)
      → l < v.lanes
      → v.store (s.and x y) l ≡ bit_and (v.store x l) (v.store y l)
  pub on_andnot :
      (x y : v.Vec) (l : ℕ)
      → l < v.lanes
      → v.store (s.andnot x y) l ≡ bit_and (not32 (v.store x l)) (v.store y l)
  pub on_or :
      (x y : v.Vec) (l : ℕ)
      → l < v.lanes
      → v.store (s.or x y) l ≡ bit_or (v.store x l) (v.store y l)
  pub on_slli :
      (x : v.Vec) (n l : ℕ)
      → l < v.lanes
      → n < 32
      → v.store (s.slli x n) l ≡ u32 (v.store x l <<< n)
  pub on_srli :
      (x : v.Vec) (n l : ℕ) → l < v.lanes → n < 32 → v.store (s.srli x n) l ≡ v.store x l >>> n

-- The OPS_* macros.
unfoldable pub shift_ops : (v : Simd) → ShiftOps v → Ops
shift_ops v s = record {
  Vec = v.Vec;
  lanes = v.lanes;
  set1 = v.set1;
  add = v.add;
  xor = v.xor;
  rotl = λ x n. s.or (s.slli x n) (s.srli x (32 - n));
  store = v.store;
  load = v.load;
  f = λ x y z. s.or (s.and x y) (s.andnot x z);
  g = λ x y z. s.or (s.and x z) (s.andnot z y);
  h = λ x y z. v.xor (v.xor x y) z;
  i = λ x y z. v.xor y (s.or x (v.xor z (v.set1 0xffff_ffff)));
}

-- If the intrinsics do what their documentation says, the composed rotate and round functions are
-- those of the reference, on every lane.
pub shift_ops-IsOps :
    (v : Simd) (s : ShiftOps v) → IsSimd v → IsShiftOps v s → IsOps (shift_ops v s)
unfolding shift_ops rotl32 md5_f md5_g md5_h md5_i
shift_ops-IsOps v s simd shifts = record {
  some_lanes = simd.some_lanes;
  bounded = simd.bounded;
  on_set1 = simd.on_set1;
  on_add = simd.on_add;
  on_xor = simd.on_xor;
  on_rotl = λ x n l h pos small.
      let amount : 32 - n ≡ (32 - n) % 32 = omega arith in
      shifts.on_or (s.slli x n) (s.srli x (32 - n)) l h
      ∙ ap₂ bit_or (shifts.on_slli x n l h small)
          (shifts.on_srli x (32 - n) l h (omega arith) ∙ ap (λ k. v.store x l >>> k) amount);
  on_load = simd.on_load;
  on_f = λ x y z l h.
      shifts.on_or (s.and x y) (s.andnot x z) l h
      ∙ ap₂ bit_or (shifts.on_and x y l h) (shifts.on_andnot x z l h);
  on_g = λ x y z l h.
      shifts.on_or (s.and x z) (s.andnot z y) l h
      ∙ ap₂ bit_or (shifts.on_and x z l h)
          (shifts.on_andnot z y l h ∙ and_comm (not32 (v.store z l)) (v.store y l));
  on_h = λ x y z l h.
      simd.on_xor (v.xor x y) z l h ∙ ap (λ t. bit_xor t (v.store z l)) (simd.on_xor x y l h);
  on_i = λ x y z l h.
      simd.on_xor y (s.or x (v.xor z (v.set1 0xffff_ffff))) l h
      ∙ ap (bit_xor (v.store y l)) (
          shifts.on_or x (v.xor z (v.set1 0xffff_ffff)) l h
          ∙ ap (bit_or (v.store x l)) (
              simd.on_xor z (v.set1 0xffff_ffff) l h
              ∙ ap (bit_xor (v.store z l)) (simd.on_set1 0xffff_ffff l h)));
}
