-- ===== src/Bits/Bound.antt =====
-- The operations stay within a width, and what the masked complement does to each digit.
use valubench.Prelude.{ℕ, zero, suc, ◌-◌, ◌/◌, ◌^◌, ◌≤◌, ◌<◌, ◌≡◌, sym, ◌∙◌, arith}
use valubench.Prelude.{bit_and, bit_or, bit_xor, ◌⊎◌, inl, inr}
use native.Mathlib.Nat.{pow-suc}
use valubench.Bits.Ext.{
  bit, bit_ext, bit-lt, bit-and, bit-or, bit-xor, bit-zero, bit-eq-zero, bit-ones,
}

-- No digit from `w` on means below `2 ^ w`.
pub lt_of_bits : (w x : ℕ) → ((i : ℕ) → w ≤ i → bit i x ≡ 0) → x < 2 ^ w
lt_of_bits zero x h =
    let e : x ≡ 0 = bit_ext x 0 (λ i. h i (omega arith) ∙ sym (bit-zero i)) in omega (arith, e)
lt_of_bits (suc w) x h =
    omega (arith, pow-suc 2 w, lt_of_bits w (x / 2) (λ i p. h (suc i) (omega arith)))

module _ (w x y : ℕ) (hx : x < 2 ^ w) (hy : y < 2 ^ w) where
  pub and-lt : bit_and x y < 2 ^ w
  and-lt =
      lt_of_bits w (bit_and x y)
        λ i p. omega (arith, bit-and i x y, bit-eq-zero w i x hx p, bit-eq-zero w i y hy p)

  pub or-lt : bit_or x y < 2 ^ w
  or-lt =
      lt_of_bits w (bit_or x y)
        λ i p. omega (arith, bit-or i x y, bit-eq-zero w i x hx p, bit-eq-zero w i y hy p)

  pub xor-lt : bit_xor x y < 2 ^ w
  xor-lt =
      lt_of_bits w (bit_xor x y)
        λ i p. omega (arith, bit-xor i x y, bit-eq-zero w i x hx p, bit-eq-zero w i y hy p)

-- Below the width, the complement turns each digit over.
pub bit-not : (w i x : ℕ) → i < w → bit i (bit_xor x (2 ^ w - 1)) ≡ 1 - bit i x
bit-not w i x h = omega (arith, bit-xor i x (2 ^ w - 1), bit-ones w i h, bit-lt i x)

-- Two numbers within a width are equal if their digits below it are.
pub bit_ext_below :
    (w x y : ℕ) → x < 2 ^ w → y < 2 ^ w → ((i : ℕ) → i < w → bit i x ≡ bit i y) → x ≡ y
bit_ext_below w x y hx hy h = bit_ext x y λ i. elim (side i) [
  | inl below ↦ h i below
  | inr above ↦ bit-eq-zero w i x hx above ∙ sym (bit-eq-zero w i y hy above)
]
  where
    side : (i : ℕ) → (i < w) ⊎ (w ≤ i)
    side i = omega arith

pub and_comm : (a b : ℕ) → bit_and a b ≡ bit_and b a
and_comm a b = bit_ext _ _ λ i. omega (arith, bit-and i a b, bit-and i b a)
