-- ===== src/Kernel/Isa/Ternary.antt =====
-- src/kernels/cpu/avx512.c: any function of three bits by its truth table, and a rotate.
use valubench.Prelude.{
  ℕ, zero, suc, ◌+◌, ◌-◌, ◌*◌, ◌/◌, ◌%◌, ◌^◌, ◌<◌, ◌≡◌, refl, sym, ap, ap₂, ◌∙◌, arith,
}
use valubench.Prelude.{bit_and, bit_or, bit_xor, min, max}
use valubench.Bits.Ext.{bit, bit-lt, bit-and, bit-or, bit-xor}
use valubench.Bits.Bound.{and-lt, or-lt, xor-lt, bit-not, bit_ext_below}
use valubench.Hash.Bytes.{not32}
use valubench.Hash.Md5.{md5_f, md5_g, md5_h, md5_i}
use valubench.Kernel.Ops.{Ops, IsOps}
use valubench.Kernel.Isa.{Simd, IsSimd}
use valubench.Kernel.Isa.Rotate.{rotl32-sum}

-- `_mm512_ternarylogic_epi32` and `_mm512_rol_epi32`.
pub record TernaryOps (v : Simd) : Type 0 where
  pub ternarylogic : v.Vec → v.Vec → v.Vec → ℕ → v.Vec
  pub rol : v.Vec → ℕ → v.Vec

-- Digit `i` of the result is the digit of the immediate at the number that the three digits spell.
pub record IsTernaryOps (v : Simd) (s : TernaryOps v) : Type 0 where
  pub on_ternarylogic :
      (x y z : v.Vec) (imm l i : ℕ)
      → l < v.lanes
      → i < 32
      → bit i (v.store (s.ternarylogic x y z imm) l)
        ≡ bit (4 * bit i (v.store x l) + 2 * bit i (v.store y l) + bit i (v.store z l)) imm
  pub on_rol :
      (x : v.Vec) (n l : ℕ)
      → l < v.lanes
      → 0 < n
      → n < 32
      → v.store (s.rol x n) l ≡ v.store x l / 2 ^ (32 - n) + v.store x l % 2 ^ (32 - n) * 2 ^ n

-- The OPS_* macros.
unfoldable pub ternary_ops : (v : Simd) → TernaryOps v → Ops
ternary_ops v s = record {
  Vec = v.Vec;
  lanes = v.lanes;
  set1 = v.set1;
  add = v.add;
  xor = v.xor;
  rotl = s.rol;
  store = v.store;
  load = v.load;
  f = λ x y z. s.ternarylogic x y z 0xca;
  g = λ x y z. s.ternarylogic x y z 0xe4;
  h = λ x y z. s.ternarylogic x y z 0x96;
  i = λ x y z. s.ternarylogic x y z 0x39;
}

-- A table is right if it is at the eight places.
abbrev pub Table : ℕ → (ℕ → ℕ → ℕ → ℕ) → Type 0
Table imm fn =
    (bit 0 imm ≡ fn 0 0 0)
    × (bit 1 imm ≡ fn 0 0 1)
    × (bit 2 imm ≡ fn 0 1 0)
    × (bit 3 imm ≡ fn 0 1 1)
    × (bit 4 imm ≡ fn 1 0 0)
    × (bit 5 imm ≡ fn 1 0 1)
    × (bit 6 imm ≡ fn 1 1 0)
    × (bit 7 imm ≡ fn 1 1 1)

Table-entry :
    (imm : ℕ) (fn : ℕ → ℕ → ℕ → ℕ) (a b c : ℕ)
    → Table imm fn
    → a < 2
    → b < 2
    → c < 2
    → bit (4 * a + 2 * b + c) imm ≡ fn a b c
Table-entry imm fn zero zero zero t p q r = t.0
Table-entry imm fn zero zero (suc zero) t p q r = t.1
Table-entry imm fn zero (suc zero) zero t p q r = t.2
Table-entry imm fn zero (suc zero) (suc zero) t p q r = t.3
Table-entry imm fn (suc zero) zero zero t p q r = t.4
Table-entry imm fn (suc zero) zero (suc zero) t p q r = t.5
Table-entry imm fn (suc zero) (suc zero) zero t p q r = t.6
Table-entry imm fn (suc zero) (suc zero) (suc zero) t p q r = t.7
Table-entry imm fn a b (suc (suc c)) t p q r = absurd (omega arith)
Table-entry imm fn a (suc (suc b)) c t p q r = absurd (omega arith)
Table-entry imm fn (suc (suc a)) b c t p q r = absurd (omega arith)

-- What the round functions do to digits.
abbrev digits_f : ℕ → ℕ → ℕ → ℕ
digits_f a b c = max (min a b) (min (1 - a) c)

abbrev digits_g : ℕ → ℕ → ℕ → ℕ
digits_g a b c = max (min a c) (min b (1 - c))

abbrev digits_h : ℕ → ℕ → ℕ → ℕ
digits_h a b c = ((a + b) % 2 + c) % 2

abbrev digits_i : ℕ → ℕ → ℕ → ℕ
digits_i a b c = (b + max a (1 - c)) % 2

f-Table : Table 0xca digits_f
f-Table = (refl, refl, refl, refl, refl, refl, refl, refl)

g-Table : Table 0xe4 digits_g
g-Table = (refl, refl, refl, refl, refl, refl, refl, refl)

h-Table : Table 0x96 digits_h
h-Table = (refl, refl, refl, refl, refl, refl, refl, refl)

i-Table : Table 0x39 digits_i
i-Table = (refl, refl, refl, refl, refl, refl, refl, refl)

module _ (x y z i : ℕ) (below : i < 32) where
  bit-md5_f : bit i (md5_f x y z) ≡ digits_f (bit i x) (bit i y) (bit i z)
  unfolding md5_f
  bit-md5_f =
      bit-or i (bit_and x y) (bit_and (not32 x) z)
      ∙ ap₂ max (bit-and i x y)
          (bit-and i (not32 x) z ∙ ap (λ t. min t (bit i z)) (bit-not 32 i x below))

  bit-md5_g : bit i (md5_g x y z) ≡ digits_g (bit i x) (bit i y) (bit i z)
  unfolding md5_g
  bit-md5_g =
      bit-or i (bit_and x z) (bit_and y (not32 z))
      ∙ ap₂ max (bit-and i x z) (bit-and i y (not32 z) ∙ ap (min (bit i y)) (bit-not 32 i z below))

  bit-md5_h : bit i (md5_h x y z) ≡ digits_h (bit i x) (bit i y) (bit i z)
  unfolding md5_h
  bit-md5_h = bit-xor i (bit_xor x y) z ∙ ap (λ t. (t + bit i z) % 2) (bit-xor i x y)

  bit-md5_i : bit i (md5_i x y z) ≡ digits_i (bit i x) (bit i y) (bit i z)
  unfolding md5_i
  bit-md5_i =
      bit-xor i y (bit_or x (not32 z))
      ∙ ap (λ t. (bit i y + t) % 2)
          (bit-or i x (not32 z) ∙ ap (max (bit i x)) (bit-not 32 i z below))

module _ (x y z : ℕ) (hx : x < 2 ^ 32) (hy : y < 2 ^ 32) (hz : z < 2 ^ 32) where
  not-lt : (w : ℕ) → w < 2 ^ 32 → not32 w < 2 ^ 32
  not-lt w h = xor-lt 32 w 0xffff_ffff h (omega arith)

  md5_f-lt : md5_f x y z < 2 ^ 32
  unfolding md5_f
  md5_f-lt =
      or-lt 32 (bit_and x y) (bit_and (not32 x) z) (and-lt 32 x y hx hy)
        (and-lt 32 (not32 x) z (not-lt x hx) hz)

  md5_g-lt : md5_g x y z < 2 ^ 32
  unfolding md5_g
  md5_g-lt =
      or-lt 32 (bit_and x z) (bit_and y (not32 z)) (and-lt 32 x z hx hz)
        (and-lt 32 y (not32 z) hy (not-lt z hz))

  md5_h-lt : md5_h x y z < 2 ^ 32
  unfolding md5_h
  md5_h-lt = xor-lt 32 (bit_xor x y) z (xor-lt 32 x y hx hy) hz

  md5_i-lt : md5_i x y z < 2 ^ 32
  unfolding md5_i
  md5_i-lt = xor-lt 32 y (bit_or x (not32 z)) hy (or-lt 32 x (not32 z) hx (not-lt z hz))

module _ (v : Simd) (s : TernaryOps v) (simd : IsSimd v) (ternary : IsTernaryOps v s) where
  -- A right table computes the function on every lane.
  pub by-Table :
      (imm : ℕ) (digits fn : ℕ → ℕ → ℕ → ℕ) (x y z : v.Vec) (l : ℕ)
      → l < v.lanes
      → Table imm digits
      → fn (v.store x l) (v.store y l) (v.store z l) < 2 ^ 32
      → ((i : ℕ)
          → i < 32
          → bit i (fn (v.store x l) (v.store y l) (v.store z l))
            ≡ digits (bit i (v.store x l)) (bit i (v.store y l)) (bit i (v.store z l)))
      → v.store (s.ternarylogic x y z imm) l ≡ fn (v.store x l) (v.store y l) (v.store z l)
  by-Table imm digits fn x y z l h table bounded each =
      bit_ext_below 32 (v.store (s.ternarylogic x y z imm) l)
        (fn (v.store x l) (v.store y l) (v.store z l)) (simd.bounded (s.ternarylogic x y z imm) l h)
        bounded
        (λ i below.
          ternary.on_ternarylogic x y z imm l i h below
          ∙ Table-entry imm digits (bit i (v.store x l)) (bit i (v.store y l)) (bit i (v.store z l))
              table (bit-lt i (v.store x l)) (bit-lt i (v.store y l)) (bit-lt i (v.store z l))
          ∙ sym (each i below))

  -- If the intrinsics do what their documentation says, the four truth tables and the rotate are the
  -- round functions and the rotate of the reference, on every lane.
  pub ternary_ops-IsOps : IsOps (ternary_ops v s)
  unfolding ternary_ops
  ternary_ops-IsOps = record {
    some_lanes = simd.some_lanes;
    bounded = simd.bounded;
    on_set1 = simd.on_set1;
    on_add = simd.on_add;
    on_xor = simd.on_xor;
    on_rotl = λ x n l h pos small.
        ternary.on_rol x n l h pos small
        ∙ sym (rotl32-sum (v.store x l) n pos small (simd.bounded x l h));
    on_load = simd.on_load;
    on_f = λ x y z l h.
        by-Table 0xca digits_f md5_f x y z l h f-Table
          (md5_f-lt (v.store x l) (v.store y l) (v.store z l) (simd.bounded x l h)
            (simd.bounded y l h) (simd.bounded z l h))
          (bit-md5_f (v.store x l) (v.store y l) (v.store z l));
    on_g = λ x y z l h.
        by-Table 0xe4 digits_g md5_g x y z l h g-Table
          (md5_g-lt (v.store x l) (v.store y l) (v.store z l) (simd.bounded x l h)
            (simd.bounded y l h) (simd.bounded z l h))
          (bit-md5_g (v.store x l) (v.store y l) (v.store z l));
    on_h = λ x y z l h.
        by-Table 0x96 digits_h md5_h x y z l h h-Table
          (md5_h-lt (v.store x l) (v.store y l) (v.store z l) (simd.bounded x l h)
            (simd.bounded y l h) (simd.bounded z l h))
          (bit-md5_h (v.store x l) (v.store y l) (v.store z l));
    on_i = λ x y z l h.
        by-Table 0x39 digits_i md5_i x y z l h i-Table
          (md5_i-lt (v.store x l) (v.store y l) (v.store z l) (simd.bounded x l h)
            (simd.bounded y l h) (simd.bounded z l h))
          (bit-md5_i (v.store x l) (v.store y l) (v.store z l));
  }
