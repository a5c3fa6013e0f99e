-- ===== src/Kernel/Isa/Rotate.antt =====
-- The rotate of a word as arithmetic, for the instruction sets that rotate or insert.
use native.Mathlib.Nat.{pow-suc, mul_assoc, one-le-pow, div-lt_iff_lt-mul}
use valubench.Prelude.{
  ℕ, zero, suc, ◌+◌, ◌-◌, ◌*◌, ◌/◌, ◌%◌, ◌^◌, ◌<◌, ◌≡◌, sym, ap, ap₂, ◌∙◌, arith, bit_or, u32,
}
use valubench.Bits.Big.{or_comm}
use valubench.Bits.Sum.{or-sum}
use valubench.Hash.Bytes.{rotl32}

pub pow_split : (a b : ℕ) → 2 ^ a * 2 ^ b ≡ 2 ^ (a + b)
pow_split a zero = let e : a ≡ a + zero = omega arith in omega arith ∙ ap (λ k. 2 ^ k) e
pow_split a (suc b) =
    let e : suc (a + b) ≡ a + suc b = omega arith in
    ap (λ t. 2 ^ a * t) (pow-suc 2 b)
    ∙ sym (mul_assoc (2 ^ a) (2 ^ b) 2)
    ∙ ap (λ t. t * 2) (pow_split a b)
    ∙ sym (pow-suc 2 (a + b))
    ∙ ap (λ k. 2 ^ k) e

module _ (v n : ℕ) (pos : 0 < n) (small : n < 32) where
  abbrev M : ℕ
  M = 2 ^ (32 - n)

  power : M * 2 ^ n ≡ 2 ^ 32
  power = let e : 32 - n + n ≡ 32 = omega arith in pow_split (32 - n) n ∙ ap (λ k. 2 ^ k) e

  M_pos : 0 < M
  M_pos = omega (arith, one-le-pow (32 - n) 2)

  split : v ≡ v / M * M + v % M
  split = grind (arith, M_pos)

  low : v % M * 2 ^ n < 2 ^ 32
  low =
      let r : v % M < M = grind (arith, M_pos) in
      let p : 0 < 2 ^ n = omega (arith, one-le-pow n 2) in
      let less : v % M * 2 ^ n < M * 2 ^ n = grind arith in omega (arith, power)

  -- What a shift to the left keeps.
  pub shifted : u32 (v * 2 ^ n) ≡ v % M * 2 ^ n
  shifted =
      let whole : v * 2 ^ n ≡ v / M * 2 ^ 32 + v % M * 2 ^ n =
        ap (λ t. t * 2 ^ n) split
        ∙ spread (v / M) (v % M)
        ∙ ap (λ t. v / M * t + v % M * 2 ^ n) power in
      omega (arith, whole, low)
    where
      spread : (q r : ℕ) → (q * M + r) * 2 ^ n ≡ q * (M * 2 ^ n) + r * 2 ^ n
      spread q r = omega arith

  high : v < 2 ^ 32 → v / M < 2 ^ n
  high bounded = let p : v < M * 2 ^ n = omega (arith, power) in (div-lt_iff_lt-mul M_pos).1 (p' p)
    where
      p' : v < M * 2 ^ n → v < 2 ^ n * M
      p' h = omega (arith, h)

  pub rotl32-sum : v < 2 ^ 32 → rotl32 v n ≡ v / M + v % M * 2 ^ n
  unfolding rotl32
  rotl32-sum bounded =
      let amount : (32 - n) % 32 ≡ 32 - n = omega arith in
      ap₂ (λ s k. bit_or s (v / 2 ^ k)) shifted amount
      ∙ or_comm (v % M * 2 ^ n) (v / M)
      ∙ or-sum n (v / M) (v % M) (high bounded)
