-- ===== src/Kernel/Isa/Scalar.antt =====
-- src/kernels/cpu/scalar.c: one lane, and the operators of C.
use valubench.Prelude.{ℕ, ◌+◌, ◌-◌, ◌%◌, ◌^◌, ◌<◌, ◌≡◌, refl, ap, arith}
use valubench.Prelude.{bit_and, bit_or, bit_xor, u32, ◌<<<◌, ◌>>>◌}
use valubench.Bits.Bound.{and-lt, or-lt, xor-lt}
use valubench.Hash.Bytes.{rotl32, not32}
use valubench.Hash.Md5.{md5_f, md5_g, md5_h, md5_i}
use valubench.Kernel.Ops.{Ops, IsOps}
use native.Mathlib.Nat.{div-le_self}

-- `uint32_t`.
pub record U32 : Type 0 where
  pub value : ℕ
  pub below : value < 2 ^ 32

pub not32-lt : (x : U32) → not32 x.value < 2 ^ 32
not32-lt x = xor-lt 32 x.value 0xffff_ffff x.below (omega arith)

unfoldable pub sc_rotl : U32 → ℕ → U32
sc_rotl v s = record {
  value = bit_or (u32 (v.value <<< s)) (v.value >>> ((32 - s) % 32));
  below =
      or-lt 32 (u32 (v.value <<< s)) (v.value >>> ((32 - s) % 32)) (omega arith)
        (omega (arith, v.below, div-le_self v.value (2 ^ ((32 - s) % 32))));
}

unfoldable pub scalar_f : U32 → U32 → U32 → U32
scalar_f x y z = record {
  value = bit_or (bit_and x.value y.value) (bit_and (not32 x.value) z.value);
  below =
      or-lt 32 (bit_and x.value y.value) (bit_and (not32 x.value) z.value)
        (and-lt 32 x.value y.value x.below y.below)
        (and-lt 32 (not32 x.value) z.value (not32-lt x) z.below);
}

unfoldable pub scalar_g : U32 → U32 → U32 → U32
scalar_g x y z = record {
  value = bit_or (bit_and x.value z.value) (bit_and y.value (not32 z.value));
  below =
      or-lt 32 (bit_and x.value z.value) (bit_and y.value (not32 z.value))
        (and-lt 32 x.value z.value x.below z.below)
        (and-lt 32 y.value (not32 z.value) y.below (not32-lt z));
}

unfoldable pub scalar_h : U32 → U32 → U32 → U32
scalar_h x y z = record {
  value = bit_xor (bit_xor x.value y.value) z.value;
  below =
      xor-lt 32 (bit_xor x.value y.value) z.value (xor-lt 32 x.value y.value x.below y.below)
        z.below;
}

unfoldable pub scalar_i : U32 → U32 → U32 → U32
scalar_i x y z = record {
  value = bit_xor y.value (bit_or x.value (not32 z.value));
  below =
      xor-lt 32 y.value (bit_or x.value (not32 z.value)) y.below
        (or-lt 32 x.value (not32 z.value) x.below (not32-lt z));
}

abbrev pub scalar_ops : Ops
scalar_ops = record {
  Vec = U32;
  lanes = 1;
  set1 = λ x. record { value = u32 x; below = omega arith };
  add = λ x y. record { value = u32 (x.value + y.value); below = omega arith };
  xor = λ x y. record {
    value = bit_xor x.value y.value;
    below = xor-lt 32 x.value y.value x.below y.below;
  };
  rotl = sc_rotl;
  store = λ v l. v.value;
  load = λ mem p. record { value = u32 (mem (p + 0)); below = omega arith };
  f = scalar_f;
  g = scalar_g;
  h = scalar_h;
  i = scalar_i;
}

-- The scalar operations are the operations on words that the kernels rely on, with one lane.
pub scalar_ops-IsOps : IsOps scalar_ops
unfolding sc_rotl scalar_f scalar_g scalar_h scalar_i rotl32 md5_f md5_g md5_h md5_i
scalar_ops-IsOps = record {
  some_lanes = omega arith;
  bounded = λ v l h. v.below;
  on_set1 = λ x l h. refl;
  on_add = λ x y l h. refl;
  on_xor = λ x y l h. refl;
  on_rotl = λ x n l h p s. refl;
  on_load = λ mem p l h. let e : 0 ≡ l = omega arith in ap (λ k. u32 (mem (p + k))) e;
  on_f = λ x y z l h. refl;
  on_g = λ x y z l h. refl;
  on_h = λ x y z l h. refl;
  on_i = λ x y z l h. refl;
}
