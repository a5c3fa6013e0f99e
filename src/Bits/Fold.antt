-- ===== src/Bits/Fold.antt =====
-- The XOR of the values of a function below a bound, and why it may be taken in any order.
use valubench.Prelude.{ℕ, zero, suc, ◌+◌, ◌*◌, ◌<◌, ◌≡◌, refl, sym, ap, ap₂, ◌∙◌, arith, bit_xor}
use valubench.Prelude.{for_range, for_range_inv}
use valubench.Bits.Xor.{xor_comm, xor_assoc, xor-zero, zero-xor}

abbrev pub xor_range : ℕ → (ℕ → ℕ) → ℕ
xor_range zero f = 0
xor_range (suc n) f = bit_xor (xor_range n f) (f n)

pub xor_range-ext :
    (n : ℕ) (f g : ℕ → ℕ) → ((i : ℕ) → i < n → f i ≡ g i) → xor_range n f ≡ xor_range n g
xor_range-ext zero f g h = refl
xor_range-ext (suc n) f g h =
    ap₂ bit_xor (xor_range-ext n f g (λ i p. h i (omega arith))) (h n (omega arith))

-- `for (i...) c ^= f (i)`.
pub for_range-xor : (n : ℕ) (f : ℕ → ℕ) → for_range n 0 (λ i c. bit_xor c (f i)) 0 ≡ xor_range n f
for_range-xor n f =
    for_range_inv (λ i c. c ≡ xor_range i f) (λ i c. bit_xor c (f i))
      (λ i c e.
        let next : suc i ≡ i + 1 = omega arith in
        ap (λ t. bit_xor t (f i)) e ∙ ap (λ k. xor_range k f) next)
      n 0 n 0 (omega arith) refl

pub xor_range-add :
    (n k : ℕ) (f : ℕ → ℕ)
    → xor_range (n + k) f ≡ bit_xor (xor_range n f) (xor_range k (λ i. f (n + i)))
xor_range-add n zero f =
    let e : n + zero ≡ n = omega arith in ap (λ t. xor_range t f) e ∙ sym (xor-zero (xor_range n f))
xor_range-add n (suc k) f =
    let e : n + suc k ≡ suc (n + k) = omega arith in
    ap (λ t. xor_range t f) e
    ∙ ap (λ t. bit_xor t (f (n + k))) (xor_range-add n k f)
    ∙ xor_assoc (xor_range n f) (xor_range k (λ i. f (n + i))) (f (n + k))

-- `n` runs of `k` values each.
pub xor_range-mul :
    (n k : ℕ) (f : ℕ → ℕ)
    → xor_range (n * k) f ≡ xor_range n (λ i. xor_range k (λ j. f (i * k + j)))
xor_range-mul zero k f = let e : zero * k ≡ 0 = omega arith in ap (λ t. xor_range t f) e
xor_range-mul (suc n) k f =
    let e : suc n * k ≡ n * k + k = omega arith in
    ap (λ t. xor_range t f) e
    ∙ xor_range-add (n * k) k f
    ∙ ap (λ t. bit_xor t (xor_range k (λ j. f (n * k + j)))) (xor_range-mul n k f)

pub regroup :
    (a b c d : ℕ) → bit_xor (bit_xor a b) (bit_xor c d) ≡ bit_xor (bit_xor a c) (bit_xor b d)
regroup a b c d =
    xor_assoc a b (bit_xor c d)
    ∙ ap (bit_xor a)
        (sym (xor_assoc b c d) ∙ ap (λ t. bit_xor t d) (xor_comm b c) ∙ xor_assoc c b d)
    ∙ sym (xor_assoc a c (bit_xor b d))

pub xor_range-xor :
    (n : ℕ) (f g : ℕ → ℕ)
    → xor_range n (λ i. bit_xor (f i) (g i)) ≡ bit_xor (xor_range n f) (xor_range n g)
xor_range-xor zero f g = sym (zero-xor 0)
xor_range-xor (suc n) f g =
    ap (λ t. bit_xor t (bit_xor (f n) (g n))) (xor_range-xor n f g)
    ∙ regroup (xor_range n f) (xor_range n g) (f n) (g n)

pub xor_range-zero : (n : ℕ) → xor_range n (λ i. 0) ≡ 0
xor_range-zero zero = refl
xor_range-zero (suc n) = xor-zero (xor_range n (λ i. 0)) ∙ xor_range-zero n

-- Rows first or columns first.
pub xor_range-swap :
    (n k : ℕ) (f : ℕ → ℕ → ℕ)
    → xor_range n (λ i. xor_range k (λ j. f i j)) ≡ xor_range k (λ j. xor_range n (λ i. f i j))
xor_range-swap zero k f = sym (xor_range-zero k)
xor_range-swap (suc n) k f =
    ap (λ t. bit_xor t (xor_range k (λ j. f n j))) (xor_range-swap n k f)
    ∙ sym (xor_range-xor k (λ j. xor_range n (λ i. f i j)) (λ j. f n j))
