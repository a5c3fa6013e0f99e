-- ===== src/Kernel/Isa/Choose.antt =====
-- Ch and Maj, in the forms that the instruction sets give them, at any width.
use valubench.Prelude.{ℕ, ◌-◌, ◌^◌, ◌<◌, ◌≡◌, arith, bit_and, bit_or, bit_xor}
use valubench.Bits.Ext.{bit_ext, bit-lt, bit-and, bit-or, bit-xor}
use valubench.Bits.Bound.{and-lt, or-lt, xor-lt, bit-not, bit_ext_below}

-- The two halves of a choice share no digit, so `^` joins them as `|` does.
pub choose-xor :
    (w x y z : ℕ)
    → x < 2 ^ w
    → y < 2 ^ w
    → z < 2 ^ w
    → bit_xor (bit_and x y) (bit_and (bit_xor x (2 ^ w - 1)) z)
      ≡ bit_or (bit_and x y) (bit_and (bit_xor x (2 ^ w - 1)) z)
choose-xor w x y z hx hy hz =
    bit_ext_below w (bit_xor one two) (bit_or one two) (xor-lt w one two first second)
      (or-lt w one two first second)
      λ i below. omega (
        arith,
        bit-xor i one two,
        bit-or i one two,
        bit-and i x y,
        bit-and i (bit_xor x (2 ^ w - 1)) z,
        bit-not w i x below,
        bit-lt i x,
        bit-lt i y,
        bit-lt i z,
      )
  where
    one : ℕ
    one = bit_and x y

    two : ℕ
    two = bit_and (bit_xor x (2 ^ w - 1)) z

    ones : 2 ^ w - 1 < 2 ^ w
    ones = omega arith

    first : one < 2 ^ w
    first = and-lt w x y hx hy

    second : two < 2 ^ w
    second = and-lt w (bit_xor x (2 ^ w - 1)) z (xor-lt w x (2 ^ w - 1) hx ones) hz

-- A majority of three, joined by `^` or by `|`.
pub majority-xor :
    (x y z : ℕ)
    → bit_xor (bit_xor (bit_and x y) (bit_and x z)) (bit_and y z)
      ≡ bit_or (bit_or (bit_and x y) (bit_and x z)) (bit_and y z)
majority-xor x y z = bit_ext _ _ λ i. omega (
  arith,
  bit-xor i (bit_xor (bit_and x y) (bit_and x z)) (bit_and y z),
  bit-xor i (bit_and x y) (bit_and x z),
  bit-or i (bit_or (bit_and x y) (bit_and x z)) (bit_and y z),
  bit-or i (bit_and x y) (bit_and x z),
  bit-and i x y,
  bit-and i x z,
  bit-and i y z,
  bit-lt i x,
  bit-lt i y,
  bit-lt i z,
)

-- Where `x` and `y` differ, `z` decides; elsewhere, either of them.
pub majority-select :
    (w x y z : ℕ)
    → x < 2 ^ w
    → y < 2 ^ w
    → z < 2 ^ w
    → bit_or (bit_and (bit_xor x y) z) (bit_and (bit_xor (bit_xor x y) (2 ^ w - 1)) x)
      ≡ bit_or (bit_or (bit_and x y) (bit_and x z)) (bit_and y z)
majority-select w x y z hx hy hz =
    bit_ext_below w (bit_or one two) (bit_or (bit_or (bit_and x y) (bit_and x z)) (bit_and y z))
      (or-lt w one two (and-lt w (bit_xor x y) z differ hz) (
        and-lt w (bit_xor (bit_xor x y) (2 ^ w - 1)) x
          (xor-lt w (bit_xor x y) (2 ^ w - 1) differ ones) hx))
      (or-lt w (bit_or (bit_and x y) (bit_and x z)) (bit_and y z)
        (or-lt w (bit_and x y) (bit_and x z) (and-lt w x y hx hy) (and-lt w x z hx hz))
        (and-lt w y z hy hz))
      λ i below. omega (
        arith,
        bit-or i one two,
        bit-and i (bit_xor x y) z,
        bit-and i (bit_xor (bit_xor x y) (2 ^ w - 1)) x,
        bit-not w i (bit_xor x y) below,
        bit-xor i x y,
        bit-or i (bit_or (bit_and x y) (bit_and x z)) (bit_and y z),
        bit-or i (bit_and x y) (bit_and x z),
        bit-and i x y,
        bit-and i x z,
        bit-and i y z,
        bit-lt i x,
        bit-lt i y,
        bit-lt i z,
      )
  where
    one : ℕ
    one = bit_and (bit_xor x y) z

    two : ℕ
    two = bit_and (bit_xor (bit_xor x y) (2 ^ w - 1)) x

    ones : 2 ^ w - 1 < 2 ^ w
    ones = omega arith

    differ : bit_xor x y < 2 ^ w
    differ = xor-lt w x y hx hy
