-- ===== src/Kernel/Isa/Sha1Sets.antt =====
-- OPS_CH and OPS_MAJ of src/kernels/cpu: scalar.c, sse2.c and avx2.c, neon.c and avx512.c.
use valubench.Prelude.{ℕ, ◌-◌, ◌^◌, ◌<◌, ◌≡◌, refl, ap, ap₂, ◌∙◌, max, min}
use valubench.Prelude.{bit_and, bit_or, bit_xor}
use valubench.Bits.Ext.{bit, bit-and, bit-or}
use valubench.Bits.Bound.{and-lt, or-lt, xor-lt}
use valubench.Hash.Bytes.{not32}
use valubench.Hash.Md5.{md5_f}
use valubench.Hash.Sha1.{round_fn}
use valubench.Kernel.Isa.{Simd, IsSimd}
use valubench.Kernel.Isa.Scalar.{U32, not32-lt, sc_rotl, scalar_ops, scalar_ops-IsOps}
use valubench.Kernel.Isa.Shifts.{ShiftOps, IsShiftOps, shift_ops, shift_ops-IsOps}
use valubench.Kernel.Isa.Select.{SelectOps, IsSelectOps, select_ops, select_ops-IsOps}
use valubench.Kernel.Isa.Ternary.{
  TernaryOps, IsTernaryOps, ternary_ops, ternary_ops-IsOps, Table, by-Table,
}
use valubench.Kernel.Isa.Choose.{choose-xor, majority-xor, majority-select}
use valubench.Kernel.Sha1.{Sha1Ops, IsSha1Ops}

-- What the MD5 operations of a set have in common with the SHA ones.
abbrev pub scalar_simd : Simd
scalar_simd = record {
  Vec = U32;
  lanes = 1;
  set1 = scalar_ops.set1;
  add = scalar_ops.add;
  xor = scalar_ops.xor;
  store = scalar_ops.store;
  load = scalar_ops.load;
}

pub scalar_simd-IsSimd : IsSimd scalar_simd
scalar_simd-IsSimd = record {
  some_lanes = scalar_ops-IsOps.some_lanes;
  bounded = scalar_ops-IsOps.bounded;
  on_set1 = scalar_ops-IsOps.on_set1;
  on_add = scalar_ops-IsOps.on_add;
  on_xor = scalar_ops-IsOps.on_xor;
  on_load = scalar_ops-IsOps.on_load;
}

unfoldable pub scalar_ch : U32 → U32 → U32 → U32
scalar_ch x y z = record {
  value = bit_xor (bit_and x.value y.value) (bit_and (not32 x.value) z.value);
  below =
      xor-lt 32 (bit_and x.value y.value) (bit_and (not32 x.value) z.value)
        (and-lt 32 x.value y.value x.below y.below)
        (and-lt 32 (not32 x.value) z.value (not32-lt x) z.below);
}

unfoldable pub scalar_maj : U32 → U32 → U32 → U32
scalar_maj x y z = record {
  value =
      bit_xor (bit_xor (bit_and x.value y.value) (bit_and x.value z.value))
        (bit_and y.value z.value);
  below =
      xor-lt 32 (bit_xor (bit_and x.value y.value) (bit_and x.value z.value))
        (bit_and y.value z.value)
        (xor-lt 32 (bit_and x.value y.value) (bit_and x.value z.value)
          (and-lt 32 x.value y.value x.below y.below) (and-lt 32 x.value z.value x.below z.below))
        (and-lt 32 y.value z.value y.below z.below);
}

abbrev pub scalar_sha1 : Sha1Ops scalar_simd
scalar_sha1 = record { rotl = sc_rotl; ch = scalar_ch; maj = scalar_maj }

pub scalar_sha1-IsSha1Ops : IsSha1Ops scalar_simd scalar_sha1
unfolding scalar_ch scalar_maj round_fn
scalar_sha1-IsSha1Ops = record {
  on_rotl = scalar_ops-IsOps.on_rotl;
  on_ch = λ x y z l h. choose-xor 32 x.value y.value z.value x.below y.below z.below;
  on_maj = λ x y z l h. majority-xor x.value y.value z.value;
}

-- sse2.c and avx2.c.
abbrev pub shift_sha1 : (v : Simd) → ShiftOps v → Sha1Ops v
shift_sha1 v s = record {
  rotl = λ x n. s.or (s.slli x n) (s.srli x (32 - n));
  ch = λ x y z. v.xor (s.and x y) (s.andnot x z);
  maj = λ x y z. v.xor (v.xor (s.and x y) (s.and x z)) (s.and y z);
}

-- If the SSE2 or AVX2 intrinsics do what their documentation says, OPS_ROTL, OPS_CH and OPS_MAJ of sse2.c and avx2.c
-- are the rotate, Ch and Maj of the reference on every lane.
pub shift_sha1-IsSha1Ops :
    (v : Simd) (s : ShiftOps v) → IsSimd v → IsShiftOps v s → IsSha1Ops v (shift_sha1 v s)
unfolding round_fn shift_ops
shift_sha1-IsSha1Ops v s simd shifts = record {
  on_rotl = (shift_ops-IsOps v s simd shifts).on_rotl;
  on_ch = λ x y z l h.
      simd.on_xor (s.and x y) (s.andnot x z) l h
      ∙ ap₂ bit_xor (shifts.on_and x y l h) (shifts.on_andnot x z l h)
      ∙ choose-xor 32 (v.store x l) (v.store y l) (v.store z l) (simd.bounded x l h)
          (simd.bounded y l h) (simd.bounded z l h);
  on_maj = λ x y z l h.
      simd.on_xor (v.xor (s.and x y) (s.and x z)) (s.and y z) l h
      ∙ ap₂ bit_xor
          (simd.on_xor (s.and x y) (s.and x z) l h
            ∙ ap₂ bit_xor (shifts.on_and x y l h) (shifts.on_and x z l h))
          (shifts.on_and y z l h)
      ∙ majority-xor (v.store x l) (v.store y l) (v.store z l);
}

-- neon.c.
abbrev pub select_sha1 : (v : Simd) → SelectOps v → Sha1Ops v
select_sha1 v s = record {
  rotl = λ x n. s.sri (s.shl x n) x (32 - n);
  ch = λ x y z. s.bsl x y z;
  maj = λ x y z. s.bsl (v.xor x y) z x;
}

-- If the NEON intrinsics do what their documentation says, OPS_ROTL, OPS_CH and OPS_MAJ of neon.c
-- are the rotate, Ch and Maj of the reference on every lane.
pub select_sha1-IsSha1Ops :
    (v : Simd) (s : SelectOps v) → IsSimd v → IsSelectOps v s → IsSha1Ops v (select_sha1 v s)
unfolding round_fn select_ops
select_sha1-IsSha1Ops v s simd selects = record {
  on_rotl = (select_ops-IsOps v s simd selects).on_rotl;
  on_ch = λ x y z l h. selects.on_bsl x y z l h;
  on_maj = λ x y z l h.
      selects.on_bsl (v.xor x y) z x l h
      ∙ ap (λ m. bit_or (bit_and m (v.store z l)) (bit_and (not32 m) (v.store x l)))
          (simd.on_xor x y l h)
      ∙ majority-select 32 (v.store x l) (v.store y l) (v.store z l) (simd.bounded x l h)
          (simd.bounded y l h) (simd.bounded z l h);
}

-- avx512.c.
abbrev pub ternary_sha1 : (v : Simd) → TernaryOps v → Sha1Ops v
ternary_sha1 v s = record {
  rotl = s.rol;
  ch = λ x y z. s.ternarylogic x y z 0xca;
  maj = λ x y z. s.ternarylogic x y z 0xe8;
}

abbrev digits_maj : ℕ → ℕ → ℕ → ℕ
digits_maj a b c = max (max (min a b) (min a c)) (min b c)

maj-Table : Table 0xe8 digits_maj
maj-Table = (refl, refl, refl, refl, refl, refl, refl, refl)

bit-maj :
    (x y z i : ℕ)
    → bit i (bit_or (bit_or (bit_and x y) (bit_and x z)) (bit_and y z))
      ≡ digits_maj (bit i x) (bit i y) (bit i z)
bit-maj x y z i =
    bit-or i (bit_or (bit_and x y) (bit_and x z)) (bit_and y z)
    ∙ ap₂ max (bit-or i (bit_and x y) (bit_and x z) ∙ ap₂ max (bit-and i x y) (bit-and i x z))
        (bit-and i y z)

maj-lt :
    (x y z : ℕ)
    → x < 2 ^ 32
    → y < 2 ^ 32
    → z < 2 ^ 32
    → bit_or (bit_or (bit_and x y) (bit_and x z)) (bit_and y z) < 2 ^ 32
maj-lt x y z hx hy hz =
    or-lt 32 (bit_or (bit_and x y) (bit_and x z)) (bit_and y z)
      (or-lt 32 (bit_and x y) (bit_and x z) (and-lt 32 x y hx hy) (and-lt 32 x z hx hz))
      (and-lt 32 y z hy hz)

-- If the AVX-512 intrinsics do what their documentation says, OPS_ROTL, OPS_CH and OPS_MAJ of avx512.c
-- are the rotate, Ch and Maj of the reference on every lane.
pub ternary_sha1-IsSha1Ops :
    (v : Simd) (s : TernaryOps v) → IsSimd v → IsTernaryOps v s → IsSha1Ops v (ternary_sha1 v s)
unfolding round_fn ternary_ops md5_f
ternary_sha1-IsSha1Ops v s simd ternary = record {
  on_rotl = (ternary_ops-IsOps v s simd ternary).on_rotl;
  on_ch = (ternary_ops-IsOps v s simd ternary).on_f;
  on_maj = λ x y z l h.
      by-Table v s simd ternary 0xe8 digits_maj
        (λ x y z. bit_or (bit_or (bit_and x y) (bit_and x z)) (bit_and y z)) x y z l h maj-Table
        (maj-lt (v.store x l) (v.store y l) (v.store z l) (simd.bounded x l h) (simd.bounded y l h)
          (simd.bounded z l h))
        (λ i below. bit-maj (v.store x l) (v.store y l) (v.store z l) i);
}
