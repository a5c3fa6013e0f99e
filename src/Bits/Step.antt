-- ===== src/Bits/Step.antt =====
-- The native bitwise operations, unrolled once: the lowest digit of the result is the
-- operation on the lowest digits, and the rest is the operation on the halves.
use Prim.Native.Nat.{min, max, differ, digits, bitwise}
use Prim.Native.Nat.{bit_and-bitwise, bit_or-bitwise, bit_xor-bitwise}
use valubench.Prelude.{
  ℕ, zero, suc, ◌+◌, ◌*◌, ◌/◌, ◌%◌, ◌≤◌, ◌<◌, bit_and, bit_or, bit_xor, ◌≡◌, refl, sym, ap, ◌∙◌,
  arith,
}

-- What two digits below 2 differ by is their sum modulo 2.
abbrev pub xor_digit : ℕ → ℕ → ℕ
xor_digit a b = (a + b) % 2

differ-xor_digit : (x y : ℕ) → x < 2 → y < 2 → differ x y ≡ xor_digit x y
differ-xor_digit zero y hx hy = omega arith
differ-xor_digit (suc zero) zero hx hy = refl
differ-xor_digit (suc zero) (suc y) hx hy = let y0 : y ≡ 0 = omega arith in rw y0 refl
differ-xor_digit (suc (suc x)) y hx hy = absurd (omega arith)

-- An operation given by digits: `rest` is its value once the first argument has run out.
module _ (rest : ℕ → ℕ) (on : ℕ → ℕ → ℕ) where
  exhausted : (fuel y : ℕ) → digits rest on fuel 0 y ≡ rest y
  exhausted zero y = refl
  exhausted (suc fuel) y = refl

  -- Steps beyond the digits of the first argument change nothing.
  agree :
      (fuel more x y : ℕ) → x ≤ fuel → x ≤ more → digits rest on fuel x y ≡ digits rest on more x y
  agree fuel more zero y p q = exhausted fuel y ∙ sym (exhausted more y)
  agree zero more (suc x) y p q = absurd (omega arith)
  agree (suc fuel) zero (suc x) y p q = absurd (omega arith)
  agree (suc fuel) (suc more) (suc x) y p q =
      ap (λ t. t * 2 + on (suc x % 2) (y % 2))
        (agree fuel more (suc x / 2) (y / 2) (omega arith) (omega arith))

  module _ (op : ℕ → ℕ → ℕ) (op-bitwise : (x y : ℕ) → op x y ≡ bitwise rest on x y)
      (rest_step : (y : ℕ) → rest y ≡ rest (y / 2) * 2 + on 0 (y % 2)) where
    unroll : (x y : ℕ) → op x y ≡ op (x / 2) (y / 2) * 2 + on (x % 2) (y % 2)
    unroll zero y = rw (op-bitwise 0 y, op-bitwise 0 (y / 2)) (rest_step y)
    unroll (suc x) y = rw (
      op-bitwise (suc x) y,
      op-bitwise (suc x / 2) (y / 2),
      agree x (suc x / 2) (suc x / 2) (y / 2) (omega arith) (omega arith),
    )

pub bit_and_step : (a b : ℕ) → bit_and a b ≡ bit_and (a / 2) (b / 2) * 2 + min (a % 2) (b % 2)
bit_and_step = unroll (λ y. 0) min bit_and bit_and-bitwise (λ y. omega arith)

pub bit_or_step : (a b : ℕ) → bit_or a b ≡ bit_or (a / 2) (b / 2) * 2 + max (a % 2) (b % 2)
bit_or_step = unroll (λ y. y) max bit_or bit_or-bitwise (λ y. omega arith)

pub bit_xor_step : (a b : ℕ) → bit_xor a b ≡ bit_xor (a / 2) (b / 2) * 2 + xor_digit (a % 2) (b % 2)
bit_xor_step a b =
    rw (← differ-xor_digit (a % 2) (b % 2) (omega arith) (omega arith))
      (unroll (λ y. y) differ bit_xor bit_xor-bitwise (λ y. omega arith) a b)
