-- ===== src/Bits/Big.antt =====
-- Bytes put side by side with the highest first.
use valubench.Prelude.{ℕ, ◌+◌, ◌*◌, ◌^◌, ◌<◌, ◌≡◌, ap, ◌∙◌, arith, bit_or, u64, ◌<<<◌}
use valubench.Bits.Ext.{bit_ext, bit-or}
use valubench.Bits.Sum.{or-sum}

pub or_comm : (a b : ℕ) → bit_or a b ≡ bit_or b a
or_comm a b = bit_ext _ _ λ i. omega (arith, bit-or i a b, bit-or i b a)

pub or-low : (w x y : ℕ) → x < 2 ^ w → bit_or (y * 2 ^ w) x ≡ y * 2 ^ w + x
or-low w x y h = or_comm (y * 2 ^ w) x ∙ or-sum w x y h ∙ omega arith

-- Four bytes as one word.
pub big_sum :
    (a b c d : ℕ)
    → b < 2 ^ 8
    → c < 2 ^ 8
    → d < 2 ^ 8
    → bit_or (bit_or (bit_or (a <<< 24) (b <<< 16)) (c <<< 8)) d
      ≡ a * 2 ^ 24 + b * 2 ^ 16 + c * 2 ^ 8 + d
big_sum a b c d hb hc hd =
    let one : bit_or (a <<< 24) (b <<< 16) ≡ (a * 2 ^ 8 + b) * 2 ^ 16 =
      or-low 24 (b <<< 16) a (omega arith) ∙ omega arith in
    let two : bit_or ((a * 2 ^ 8 + b) * 2 ^ 16) (c <<< 8) ≡ ((a * 2 ^ 8 + b) * 2 ^ 8 + c) * 2 ^ 8 =
      or-low 16 (c <<< 8) (a * 2 ^ 8 + b) (omega arith) ∙ omega arith in
    ap (λ t. bit_or (bit_or t (c <<< 8)) d) one
    ∙ ap (λ t. bit_or t d) two
    ∙ or-low 8 d ((a * 2 ^ 8 + b) * 2 ^ 8 + c) hd
    ∙ omega arith

-- One more byte below a word, as the loops join them.
pub join_byte : (v x : ℕ) → v < 2 ^ 56 → x < 2 ^ 8 → bit_or (u64 (v <<< 8)) x ≡ v * 2 ^ 8 + x
join_byte v x h hx =
    let whole : u64 (v <<< 8) ≡ v * 2 ^ 8 = omega arith in
    ap (λ t. bit_or t x) whole ∙ or-low 8 x v hx
