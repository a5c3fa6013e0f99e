-- ===== src/Workload/Reference/Rows.antt =====
-- Rows of a checksum, and their XOR.
use valubench.Prelude.{
  ℕ, zero, suc, ◌≤◌, arith, bit_xor, ◌≡◌, refl, ap, ap₂, List, [], ◌∷◌, length, replicate,
}
use valubench.Bits.Xor.{xor_assoc, xor-zero}

-- `uint64_t [VB_MAX_DIGEST_WORDS]`.
abbrev pub Row : Type 0
Row = List ℕ

abbrev pub zero_row : Row
zero_row = replicate 8 0

-- `for j: out[j] ^= row[j]`; a shorter row leaves the other words of `out` alone.
abbrev pub xor_row : Row → Row → Row
xor_row [] row = []
xor_row (x ∷ out) [] = x ∷ out
xor_row (x ∷ out) (y ∷ row) = bit_xor x y ∷ xor_row out row

pub xor_row_assoc :
    (x y z : Row) → length z ≤ length y → xor_row (xor_row x y) z ≡ xor_row x (xor_row y z)
xor_row_assoc [] y z h = refl
xor_row_assoc (a ∷ x) [] [] h = refl
xor_row_assoc (a ∷ x) [] (c ∷ z) h = absurd (omega arith)
xor_row_assoc (a ∷ x) (b ∷ y) [] h = refl
xor_row_assoc (a ∷ x) (b ∷ y) (c ∷ z) h =
    ap₂ ◌∷◌ (xor_assoc a b c) (xor_row_assoc x y z (omega arith))

pub length-xor_row : (x y : Row) → length (xor_row x y) ≡ length x
length-xor_row [] y = refl
length-xor_row (a ∷ x) [] = refl
length-xor_row (a ∷ x) (b ∷ y) = ap suc (length-xor_row x y)

pub xor_row-zero : (n : ℕ) (x : Row) → xor_row x (replicate n 0) ≡ x
xor_row-zero n [] = refl
xor_row-zero zero (a ∷ x) = refl
xor_row-zero (suc n) (a ∷ x) = ap₂ ◌∷◌ (xor-zero a) (xor_row-zero n x)
