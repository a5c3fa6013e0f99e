-- ===== src/Bits/Ext.antt =====
-- A number is its binary digits, and the operations work on each digit by itself.
use valubench.Prelude.{ℕ, zero, suc, ◌-◌, ◌/◌, ◌%◌, ◌^◌, ◌≤◌, ◌<◌, min, max, ◌≡◌, ap, ◌∙◌, arith}
use valubench.Prelude.{bit_and, bit_or, bit_xor}
use native.Mathlib.Nat.{pow-suc, one-le-pow}
use valubench.Bits.Step.{xor_digit, bit_or_step, bit_and_step, bit_xor_step}

-- Digit `i` of `x`.
abbrev pub bit : ℕ → ℕ → ℕ
bit zero x = x % 2
bit (suc i) x = bit i (x / 2)

ext_fuel : (n x y : ℕ) → x ≤ n → y ≤ n → ((i : ℕ) → bit i x ≡ bit i y) → x ≡ y
ext_fuel zero x y p q h = omega arith
ext_fuel (suc n) x y p q h =
    omega (arith, h 0, ext_fuel n (x / 2) (y / 2) (omega arith) (omega arith) (λ i. h (suc i)))

pub bit_ext : (x y : ℕ) → ((i : ℕ) → bit i x ≡ bit i y) → x ≡ y
bit_ext x y h = ext_fuel (max x y) x y (omega arith) (omega arith) h

pub bit-lt : (i x : ℕ) → bit i x < 2
bit-lt zero x = omega arith
bit-lt (suc i) x = bit-lt i (x / 2)

pub bit-and : (i a b : ℕ) → bit i (bit_and a b) ≡ min (bit i a) (bit i b)
bit-and zero a b = omega (arith, bit_and_step a b)
bit-and (suc i) a b =
    let e : bit_and a b / 2 ≡ bit_and (a / 2) (b / 2) = omega (arith, bit_and_step a b) in
    ap (bit i) e ∙ bit-and i (a / 2) (b / 2)

pub bit-or : (i a b : ℕ) → bit i (bit_or a b) ≡ max (bit i a) (bit i b)
bit-or zero a b = omega (arith, bit_or_step a b)
bit-or (suc i) a b =
    let e : bit_or a b / 2 ≡ bit_or (a / 2) (b / 2) = omega (arith, bit_or_step a b) in
    ap (bit i) e ∙ bit-or i (a / 2) (b / 2)

pub bit-xor : (i a b : ℕ) → bit i (bit_xor a b) ≡ xor_digit (bit i a) (bit i b)
bit-xor zero a b = omega (arith, bit_xor_step a b)
bit-xor (suc i) a b =
    let e : bit_xor a b / 2 ≡ bit_xor (a / 2) (b / 2) = omega (arith, bit_xor_step a b) in
    ap (bit i) e ∙ bit-xor i (a / 2) (b / 2)

pub bit-zero : (i : ℕ) → bit i 0 ≡ 0
bit-zero zero = omega arith
bit-zero (suc i) = bit-zero i

-- Below `2 ^ w` means no digit from `w` on.
pub bit-eq-zero : (w i x : ℕ) → x < 2 ^ w → w ≤ i → bit i x ≡ 0
bit-eq-zero zero i x h k = let e : x ≡ 0 = omega arith in ap (bit i) e ∙ bit-zero i
bit-eq-zero (suc w) zero x h k = absurd (omega arith)
bit-eq-zero (suc w) (suc i) x h k =
    bit-eq-zero w i (x / 2) (omega (arith, pow-suc 2 w)) (omega arith)

-- The mask of `w` ones.
pub bit-ones : (w i : ℕ) → i < w → bit i (2 ^ w - 1) ≡ 1
bit-ones zero i h = absurd (omega arith)
bit-ones (suc w) zero h = omega (arith, pow-suc 2 w, one-le-pow w 2)
bit-ones (suc w) (suc i) h =
    let e : (2 ^ suc w - 1) / 2 ≡ 2 ^ w - 1 = omega (arith, pow-suc 2 w, one-le-pow w 2) in
    ap (bit i) e ∙ bit-ones w i (omega arith)
