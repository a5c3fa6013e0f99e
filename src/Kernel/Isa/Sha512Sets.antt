-- ===== src/Kernel/Isa/Sha512Sets.antt =====
-- The OPS64_* macros of src/kernels/cpu: scalar.c, and sse2.c and avx2.c.
use valubench.Prelude.{ℕ, ◌+◌, ◌-◌, ◌%◌, ◌^◌, ◌<◌, ◌≡◌, refl, ap, ap₂, ◌∙◌, arith}
use valubench.Prelude.{bit_and, bit_or, bit_xor, u64, ◌<<<◌, ◌>>>◌}
use valubench.Bits.Bound.{and-lt, or-lt, xor-lt}
use valubench.Hash.Bytes.{rotr64, not64}
use valubench.Hash.Sha512.{ch, maj}
use valubench.Kernel.Isa.{Simd}
use valubench.Kernel.Sha512.{IsSimd64, Sha512Ops, IsSha512Ops}
use native.Mathlib.Nat.{div-le_self}

-- `uint64_t`.
pub record U64 : Type 0 where
  pub value : ℕ
  pub below : value < 2 ^ 64

unfoldable pub sc_rotr64 : U64 → ℕ → U64
sc_rotr64 v s = record {
  value = bit_or (v.value >>> s) (u64 (v.value <<< ((64 - s) % 64)));
  below =
      or-lt 64 (v.value >>> s) (u64 (v.value <<< ((64 - s) % 64)))
        (omega (arith, v.below, div-le_self v.value (2 ^ s))) (omega arith);
}

unfoldable pub scalar_ch64 : U64 → U64 → U64 → U64
scalar_ch64 x y z = record {
  value = bit_xor (bit_and x.value y.value) (bit_and (not64 x.value) z.value);
  below =
      xor-lt 64 (bit_and x.value y.value) (bit_and (not64 x.value) z.value)
        (and-lt 64 x.value y.value x.below y.below)
        (and-lt 64 (not64 x.value) z.value
          (xor-lt 64 x.value 0xffff_ffff_ffff_ffff x.below (omega arith)) z.below);
}

unfoldable pub scalar_maj64 : U64 → U64 → U64 → U64
scalar_maj64 x y z = record {
  value =
      bit_xor (bit_xor (bit_and x.value y.value) (bit_and x.value z.value))
        (bit_and y.value z.value);
  below =
      xor-lt 64 (bit_xor (bit_and x.value y.value) (bit_and x.value z.value))
        (bit_and y.value z.value)
        (xor-lt 64 (bit_and x.value y.value) (bit_and x.value z.value)
          (and-lt 64 x.value y.value x.below y.below) (and-lt 64 x.value z.value x.below z.below))
        (and-lt 64 y.value z.value y.below z.below);
}

abbrev pub scalar_simd64 : Simd
scalar_simd64 = record {
  Vec = U64;
  lanes = 1;
  set1 = λ x. record { value = u64 x; below = omega arith };
  add = λ x y. record { value = u64 (x.value + y.value); below = omega arith };
  xor = λ x y. record {
    value = bit_xor x.value y.value;
    below = xor-lt 64 x.value y.value x.below y.below;
  };
  store = λ v l. v.value;
  load = λ mem p. record { value = u64 (mem (p + 0)); below = omega arith };
}

pub scalar_simd64-IsSimd64 : IsSimd64 scalar_simd64
scalar_simd64-IsSimd64 = record {
  some_lanes = omega arith;
  bounded = λ v l h. v.below;
  on_set1 = λ x l h. refl;
  on_add = λ x y l h. refl;
  on_xor = λ x y l h. refl;
  on_load = λ mem p l h. let e : 0 ≡ l = omega arith in ap (λ k. u64 (mem (p + k))) e;
}

abbrev pub scalar_sha512 : Sha512Ops scalar_simd64
scalar_sha512 = record {
  rotr = sc_rotr64;
  shr = λ x n. record {
    value = x.value >>> n;
    below = omega (arith, x.below, div-le_self x.value (2 ^ n));
  };
  ch = scalar_ch64;
  maj = scalar_maj64;
}

pub scalar_sha512-IsSha512Ops : IsSha512Ops scalar_simd64 scalar_sha512
unfolding sc_rotr64 scalar_ch64 scalar_maj64 rotr64 ch maj
scalar_sha512-IsSha512Ops = record {
  on_rotr = λ x n l h p s. refl;
  on_shr = λ x n l h s. refl;
  on_ch = λ x y z l h. refl;
  on_maj = λ x y z l h. refl;
}

-- `_mm_and_si128`, `_mm_andnot_si128`, `_mm_or_si128`, `_mm_slli_epi64`, `_mm_srli_epi64`, and
-- their 256-bit siblings.
pub record ShiftOps64 (v : Simd) : Type 0 where
  pub and : v.Vec → v.Vec → v.Vec
  pub andnot : v.Vec → v.Vec → v.Vec
  pub or : v.Vec → v.Vec → v.Vec
  pub slli : v.Vec → ℕ → v.Vec
  pub srli : v.Vec → ℕ → v.Vec

pub record IsShiftOps64 (v : Simd) (s : ShiftOps64 v) : Type 0 where
  pub on_and :
      (x y : v.Vec) (l : ℕ)
      → l < v.lanes
      → v.store (s.and x y) l ≡ bit_and (v.store x l) (v.store y l)
  pub on_andnot :
      (x y : v.Vec) (l : ℕ)
      → l < v.lanes
      → v.store (s.andnot x y) l ≡ bit_and (not64 (v.store x l)) (v.store y l)
  pub on_or :
      (x y : v.Vec) (l : ℕ)
      → l < v.lanes
      → v.store (s.or x y) l ≡ bit_or (v.store x l) (v.store y l)
  pub on_slli :
      (x : v.Vec) (n l : ℕ)
      → l < v.lanes
      → n < 64
      → v.store (s.slli x n) l ≡ u64 (v.store x l <<< n)
  pub on_srli :
      (x : v.Vec) (n l : ℕ) → l < v.lanes → n < 64 → v.store (s.srli x n) l ≡ v.store x l >>> n

abbrev pub shift_sha512 : (v : Simd) → ShiftOps64 v → Sha512Ops v
shift_sha512 v s = record {
  rotr = λ x n. s.or (s.srli x n) (s.slli x (64 - n));
  shr = s.srli;
  ch = λ x y z. v.xor (s.and x y) (s.andnot x z);
  maj = λ x y z. v.xor (v.xor (s.and x y) (s.and x z)) (s.and y z);
}

pub shift_sha512-IsSha512Ops :
    (v : Simd) (s : ShiftOps64 v) → IsSimd64 v → IsShiftOps64 v s → IsSha512Ops v (shift_sha512 v s)
unfolding rotr64 ch maj
shift_sha512-IsSha512Ops v s simd shifts = record {
  on_rotr = λ x n l h pos small.
      let amount : 64 - n ≡ (64 - n) % 64 = omega arith in
      shifts.on_or (s.srli x n) (s.slli x (64 - n)) l h
      ∙ ap₂ bit_or (shifts.on_srli x n l h small)
          (shifts.on_slli x (64 - n) l h (omega arith) ∙ ap (λ k. u64 (v.store x l <<< k)) amount);
  on_shr = shifts.on_srli;
  on_ch = λ x y z l h.
      simd.on_xor (s.and x y) (s.andnot x z) l h
      ∙ ap₂ bit_xor (shifts.on_and x y l h) (shifts.on_andnot x z l h);
  on_maj = λ x y z l h.
      simd.on_xor (v.xor (s.and x y) (s.and x z)) (s.and y z) l h
      ∙ ap₂ bit_xor
          (simd.on_xor (s.and x y) (s.and x z) l h
            ∙ ap₂ bit_xor (shifts.on_and x y l h) (shifts.on_and x z l h))
          (shifts.on_and y z l h);
}
