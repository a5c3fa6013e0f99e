-- ===== src/Bits/Sum.antt =====
-- Where two numbers share no binary digit, `|` is the sum; so bytes put side by side make a word.
use valubench.Prelude.{
  ℕ, zero, suc, ◌+◌, ◌*◌, ◌/◌, ◌^◌, ◌<◌, ◌≡◌, sym, ap, ap₂, ◌∙◌, arith, bit_or, u8, ◌<<<◌, ◌>>>◌,
}
use native.Mathlib.Nat.{pow-suc, mul_assoc}
use valubench.Bits.Step.{bit_or_step}
use valubench.Bits.Ext.{bit_ext, bit-or, bit-zero, bit-lt}

pub zero-or : (y : ℕ) → bit_or 0 y ≡ y
zero-or y = bit_ext _ _ λ i. omega (arith, bit-or i 0 y, bit-zero i, bit-lt i y)

pub or-sum : (w x y : ℕ) → x < 2 ^ w → bit_or x (y * 2 ^ w) ≡ x + y * 2 ^ w
or-sum zero x y h =
    let none : x ≡ 0 = omega arith in
    let one : y * 2 ^ zero ≡ y = omega arith in ap₂ bit_or none one ∙ zero-or y ∙ omega arith
or-sum (suc w) x y h =
    let even : y * 2 ^ suc w ≡ y * 2 ^ w * 2 =
      ap (λ t. y * t) (pow-suc 2 w) ∙ sym (mul_assoc y (2 ^ w) 2) in
    let half : y * 2 ^ suc w / 2 ≡ y * 2 ^ w = omega arith in
    omega (
      arith,
      bit_or_step x (y * 2 ^ suc w),
      ap (bit_or (x / 2)) half,
      or-sum w (x / 2) y (omega (arith, pow-suc 2 w)),
    )

-- Four bytes, the lowest first, are the word that they were cut from.
pub or-bytes :
    (v : ℕ)
    → v < 2 ^ 32
    → bit_or
        (bit_or (bit_or (u8 v) (u8 (v >>> 8) <<< 8)) (u8 (v >>> 16) <<< 16))
        (u8 (v >>> 24) <<< 24)
      ≡ v
or-bytes v h =
    let one = or-sum 8 (u8 v) (u8 (v >>> 8)) (omega arith) in
    let two = or-sum 16 (u8 v + u8 (v >>> 8) * 2 ^ 8) (u8 (v >>> 16)) (omega arith) in
    let three =
      or-sum 24 (u8 v + u8 (v >>> 8) * 2 ^ 8 + u8 (v >>> 16) * 2 ^ 16) (u8 (v >>> 24))
        (omega arith) in
    ap (λ t. bit_or (bit_or t (u8 (v >>> 16) <<< 16)) (u8 (v >>> 24) <<< 24)) one
    ∙ ap (λ t. bit_or t (u8 (v >>> 24) <<< 24)) two
    ∙ three
    ∙ omega arith

-- Setting the lowest digit.
pub or-one : (x : ℕ) → bit_or x 1 ≡ x / 2 * 2 + 1
or-one x = omega (arith, bit_or_step x 1, or-nothing (x / 2))
  where
    or-nothing : (y : ℕ) → bit_or y (1 / 2) ≡ y
    or-nothing y = bit_ext _ _ λ i. omega (arith, bit-or i y 0, bit-zero i, bit-lt i y)
