-- ===== src/Kernel/Tests/Words.antt =====
-- Vectors of `n + 1` words that are functions of the lane, with intrinsics that do what their
-- documentation says.
use valubench.Prelude.{ℕ, zero, suc, ◌+◌, ◌-◌, ◌*◌, ◌/◌, ◌^◌, ◌≤◌, ◌<◌, ◌≡◌, refl, ap, ◌∙◌, arith}
use valubench.Prelude.{bit_and, bit_or, bit_xor, u32, ◌<<<◌, ◌>>>◌}
use native.Mathlib.Nat.{pow-suc, div-le_self, div-lt_iff_lt-mul, one-le-pow}
use valubench.Bits.Ext.{bit, bit-lt}
use valubench.Bits.Bound.{and-lt, or-lt, xor-lt}
use valubench.Hash.Bytes.{not32, rotl32}
use valubench.Kernel.Isa.{Simd, IsSimd}
use valubench.Kernel.Isa.Rotate.{pow_split, rotl32-sum}
use valubench.Kernel.Isa.Scalar.{U32, not32-lt, sc_rotl}
use valubench.Kernel.Isa.Shifts.{ShiftOps, IsShiftOps}
use valubench.Kernel.Isa.Select.{SelectOps, IsSelectOps}
use valubench.Kernel.Isa.Ternary.{TernaryOps, IsTernaryOps}
use valubench.Workload.Corpus.Index.{mix_lt}

abbrev word : ℕ → U32
word x = record { value = u32 x; below = omega arith }

abbrev word_and : U32 → U32 → U32
word_and x y = record {
  value = bit_and x.value y.value;
  below = and-lt 32 x.value y.value x.below y.below;
}

abbrev word_or : U32 → U32 → U32
word_or x y = record {
  value = bit_or x.value y.value;
  below = or-lt 32 x.value y.value x.below y.below;
}

abbrev word_xor : U32 → U32 → U32
word_xor x y = record {
  value = bit_xor x.value y.value;
  below = xor-lt 32 x.value y.value x.below y.below;
}

abbrev word_not : U32 → U32
word_not x = record { value = not32 x.value; below = not32-lt x }

abbrev word_shr : U32 → ℕ → U32
word_shr x n = record {
  value = x.value >>> n;
  below = omega (arith, x.below, div-le_self x.value (2 ^ n));
}

abbrev pub word_simd : ℕ → Simd
word_simd n = record {
  Vec = ℕ → U32;
  lanes = suc n;
  set1 = λ x l. word x;
  add = λ x y l. word ((x l).value + (y l).value);
  xor = λ x y l. word_xor (x l) (y l);
  store = λ v l. (v l).value;
  load = λ mem p l. word (mem (p + l));
}

pub word_simd-IsSimd : (n : ℕ) → IsSimd (word_simd n)
word_simd-IsSimd n = record {
  some_lanes = omega arith;
  bounded = λ x l h. (x l).below;
  on_set1 = λ x l h. refl;
  on_add = λ x y l h. refl;
  on_xor = λ x y l h. refl;
  on_load = λ mem p l h. refl;
}

abbrev pub word_shifts : (n : ℕ) → ShiftOps (word_simd n)
word_shifts n = record {
  and = λ x y l. word_and (x l) (y l);
  andnot = λ x y l. word_and (word_not (x l)) (y l);
  or = λ x y l. word_or (x l) (y l);
  slli = λ x k l. word ((x l).value <<< k);
  srli = λ x k l. word_shr (x l) k;
}

pub word_shifts-IsShiftOps : (n : ℕ) → IsShiftOps (word_simd n) (word_shifts n)
word_shifts-IsShiftOps n = record {
  on_and = λ x y l h. refl;
  on_andnot = λ x y l h. refl;
  on_or = λ x y l h. refl;
  on_slli = λ x k l h s. refl;
  on_srli = λ x k l h s. refl;
}

abbrev insert : ℕ → ℕ → ℕ → ℕ
insert x y k = x / 2 ^ (32 - k) * 2 ^ (32 - k) + y / 2 ^ k

insert-lt : (x y k : ℕ) → x < 2 ^ 32 → y < 2 ^ 32 → k ≤ 32 → insert x y k < 2 ^ 32
insert-lt x y k hx hy h =
    omega (arith, mix_lt (x / 2 ^ (32 - k)) (y / 2 ^ k) (2 ^ k) (2 ^ (32 - k)) top low, whole)
  where
    whole : 2 ^ k * 2 ^ (32 - k) ≡ 2 ^ 32
    whole = pow_split k (32 - k) ∙ ap (λ t. 2 ^ t) {x = k + (32 - k)} {y = 32} (omega arith)

    top : x / 2 ^ (32 - k) < 2 ^ k
    top = (div-lt_iff_lt-mul (omega (arith, one-le-pow (32 - k) 2))).1 (omega (arith, whole))

    low : y / 2 ^ k < 2 ^ (32 - k)
    low = (div-lt_iff_lt-mul (omega (arith, one-le-pow k 2))).1 (omega (arith, whole))

abbrev pub word_selects : (n : ℕ) → SelectOps (word_simd n)
word_selects n = record {
  bsl = λ m x y l. word_or (word_and (m l) (x l)) (word_and (word_not (m l)) (y l));
  orr = λ x y l. word_or (x l) (y l);
  mvn = λ x l. word_not (x l);
  shl = λ x k l. word ((x l).value <<< k);
  sri = λ x y k l. word (insert (x l).value (y l).value k);
}

pub word_selects-IsSelectOps : (n : ℕ) → IsSelectOps (word_simd n) (word_selects n)
word_selects-IsSelectOps n = record {
  on_bsl = λ m x y l h. refl;
  on_orr = λ x y l h. refl;
  on_mvn = λ x l h. refl;
  on_shl = λ x k l h s. refl;
  on_sri =
      λ x y k l h p s. omega (arith, insert-lt (x l).value (y l).value k (x l).below (y l).below s);
}

-- The number of `w` digits.
abbrev pub from_digits : ℕ → (ℕ → ℕ) → ℕ
from_digits zero d = 0
from_digits (suc w) d = from_digits w (λ i. d (suc i)) * 2 + d 0

pub from_digits-lt : (w : ℕ) (d : ℕ → ℕ) → ((i : ℕ) → d i < 2) → from_digits w d < 2 ^ w
from_digits-lt zero d h = omega arith
from_digits-lt (suc w) d h =
    omega (arith, pow-suc 2 w, h 0, from_digits-lt w (λ i. d (suc i)) (λ i. h (suc i)))

bit-from_digits :
    (w i : ℕ) (d : ℕ → ℕ) → ((i : ℕ) → d i < 2) → i < w → bit i (from_digits w d) ≡ d i
bit-from_digits zero i d h p = absurd (omega arith)
bit-from_digits (suc w) zero d h p = omega (arith, h 0)
bit-from_digits (suc w) (suc i) d h p =
    let half : (from_digits w (λ i. d (suc i)) * 2 + d 0) / 2 ≡ from_digits w (λ i. d (suc i)) =
      omega (arith, h 0) in
    ap (bit i) half ∙ bit-from_digits w i (λ i. d (suc i)) (λ i. h (suc i)) (omega arith)

abbrev table_digit : ℕ → U32 → U32 → U32 → ℕ → ℕ
table_digit imm x y z i = bit (4 * bit i x.value + 2 * bit i y.value + bit i z.value) imm

abbrev word_table : ℕ → U32 → U32 → U32 → U32
word_table imm x y z = record {
  value = from_digits 32 (table_digit imm x y z);
  below =
      from_digits-lt 32 (table_digit imm x y z)
        (λ i. bit-lt (4 * bit i x.value + 2 * bit i y.value + bit i z.value) imm);
}

unfoldable pub word_ternary : (n : ℕ) → TernaryOps (word_simd n)
word_ternary n = record {
  ternarylogic = λ x y z imm l. word_table imm (x l) (y l) (z l);
  rol = λ x k l. sc_rotl (x l) k;
}

pub word_ternary-IsTernaryOps : (n : ℕ) → IsTernaryOps (word_simd n) (word_ternary n)
unfolding word_ternary sc_rotl rotl32
word_ternary-IsTernaryOps n = record {
  on_ternarylogic = λ x y z imm l i h below.
      bit-from_digits 32 i (table_digit imm (x l) (y l) (z l))
        (λ i. bit-lt (4 * bit i (x l).value + 2 * bit i (y l).value + bit i (z l).value) imm) below;
  on_rol = λ x k l h pos small. rotl32-sum (x l).value k pos small (x l).below;
}
