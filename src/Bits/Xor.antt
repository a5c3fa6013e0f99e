-- ===== src/Bits/Xor.antt =====
-- `^` is a commutative group in which every element undoes itself, so a XOR over many values does
-- not depend on how they are grouped or ordered.
use valubench.Prelude.{ℕ, ◌≡◌, ◌∙◌, arith, bit_xor}
use valubench.Bits.Ext.{bit_ext, bit-lt, bit-xor, bit-zero}

pub xor_comm : (a b : ℕ) → bit_xor a b ≡ bit_xor b a
xor_comm a b = bit_ext _ _ λ i. omega (arith, bit-xor i a b, bit-xor i b a)

pub xor_assoc : (a b c : ℕ) → bit_xor (bit_xor a b) c ≡ bit_xor a (bit_xor b c)
xor_assoc a b c = bit_ext _ _ λ i.
    omega
      (arith, bit-xor i (bit_xor a b) c, bit-xor i a b, bit-xor i a (bit_xor b c), bit-xor i b c)

pub xor_self : (a : ℕ) → bit_xor a a ≡ 0
xor_self a = bit_ext _ _ λ i. omega (arith, bit-xor i a a, bit-zero i)

pub zero-xor : (a : ℕ) → bit_xor 0 a ≡ a
zero-xor a = bit_ext _ _ λ i. omega (arith, bit-xor i 0 a, bit-zero i, bit-lt i a)

pub xor-zero : (a : ℕ) → bit_xor a 0 ≡ a
xor-zero a = xor_comm a 0 ∙ zero-xor a
