-- ===== src/Gpu/Tree.antt =====
-- The reduction of a work-group gives the XOR of its digests.
use valubench.Prelude.{
  ℕ, zero, suc, ◌+◌, ◌*◌, ◌/◌, ◌^◌, ◌≤◌, ◌<◌, ◌==◌, ◌≡◌, refl, sym, ap, ◌∙◌, true, false, List,
  bit_xor, arith,
}
use native.Mathlib.Nat.{pow-suc, one-le-pow}
use valubench.Bits.Xor.{zero-xor}
use valubench.Bits.Fold.{xor_range, xor_range-ext, xor_range-xor, xor_range-add}
use valubench.Workload.Corpus.{Memory}
use valubench.Gpu.{fold_round, fold_rounds, fold_group, member}
use valubench.Gpu.Round.{Distinct, fold_round-folds}

positive-==0 : (s : ℕ) → 0 < s → (s == 0) ≡ false
positive-==0 s h = ground arith

pow-double : (n : ℕ) → 2 ^ n + 2 ^ n ≡ 2 ^ suc n
pow-double n = omega (arith, pow-suc 2 n)

pow-pos : (n : ℕ) → 0 < 2 ^ n
pow-pos n = omega (arith, one-le-pow n 2)

fuel-enough : (n : ℕ) → n < 2 ^ n
fuel-enough zero = omega arith
fuel-enough (suc n) = omega (arith, fuel-enough n, pow-double n)

module _ (words local_size : ℕ) (order : ℕ → List ℕ) (distinct : (s : ℕ) → Distinct (order s))
    (everyone : (s i : ℕ) → i < local_size → member i (order s) ≡ true) where
  -- Word `j` of every digest.
  abbrev digit : ℕ → Memory → ℕ → ℕ
  digit j mem i = mem (i * words + j)

  round-halves :
      (s j : ℕ) (mem : Memory)
      → s ≤ local_size
      → j < words
      → xor_range s (digit j (fold_round words s (order s) mem)) ≡ xor_range (s + s) (digit j mem)
  round-halves s j mem le h =
      xor_range-ext s (digit j (fold_round words s (order s) mem))
        (λ i. bit_xor (digit j mem i) (digit j mem (i + s)))
        (λ i below.
          fold_round-folds words s (order s) i j mem (distinct s)
            (everyone s i (omega (arith, below, le))) below h)
      ∙ xor_range-xor s (digit j mem) (λ i. digit j mem (i + s))
      ∙ ap (bit_xor (xor_range s (digit j mem))) (
          xor_range-ext s (λ i. digit j mem (i + s)) (λ i. digit j mem (s + i))
            (λ i below. ap (digit j mem) (omega arith)))
      ∙ sym (xor_range-add s s (digit j mem))

  rounds-zero : (fuel : ℕ) (mem : Memory) → fold_rounds words order fuel 0 mem ≡ mem
  unfolding fold_rounds
  rounds-zero zero mem = refl
  rounds-zero (suc fuel) mem = refl

  rounds-step :
      (fuel s : ℕ) (mem : Memory)
      → 0 < s
      → fold_rounds words order (suc fuel) s mem
        ≡ fold_rounds words order fuel (s / 2) (fold_round words s (order s) mem)
  unfolding fold_rounds
  rounds-step fuel s mem pos =
      ap
        (λ b.
          let rest : Memory = elim b [
            | true ↦ mem
            | false ↦ fold_rounds words order fuel (s / 2) (fold_round words s (order s) mem)
          ] in
          rest)
        (positive-==0 s pos)

  rounds-xor :
      (n fuel j : ℕ) (mem : Memory)
      → n < fuel
      → 2 ^ n ≤ local_size
      → j < words
      → fold_rounds words order fuel (2 ^ n) mem (0 * words + j)
        ≡ xor_range (2 ^ n + 2 ^ n) (digit j mem)
  rounds-xor n zero j mem enough le h = absurd (omega (arith, enough))
  rounds-xor zero (suc fuel) j mem enough le h =
      let once = fold_round words 1 (order 1) mem in
      ap (λ m. m (0 * words + j)) (rounds-step fuel 1 mem (omega arith) ∙ rounds-zero fuel once)
      ∙ sym (zero-xor (digit j once 0))
      ∙ round-halves 1 j mem le h
  rounds-xor (suc n) (suc fuel) j mem enough le h =
      let s = 2 ^ suc n in
      let once = fold_round words s (order s) mem in
      let double = pow-double n in
      let half : s / 2 ≡ 2 ^ n = omega (arith, double) in
      ap (λ m. m (0 * words + j))
        (rounds-step fuel s mem (pow-pos (suc n))
          ∙ ap (λ k. fold_rounds words order fuel k once) half)
      ∙ rounds-xor n fuel j once (omega (arith, enough)) (omega (arith, le, double)) h
      ∙ ap (λ k. xor_range k (digit j once)) double
      ∙ round-halves s j mem le h

-- In a work-group of 2 ^ n work-items, whatever the order in which they run between two barriers, as
-- long as each runs once: word `j` of the first digest is in the end the XOR of word `j` of the
-- digests of all work-items.
pub fold_group-xor_range :
    (words n j : ℕ) (order : ℕ → List ℕ) (scratch : Memory)
    → ((s : ℕ) → Distinct (order s))
    → ((s i : ℕ) → i < 2 ^ n → member i (order s) ≡ true)
    → j < words
    → fold_group words order (2 ^ n) scratch (0 * words + j)
      ≡ xor_range (2 ^ n) (λ i. scratch (i * words + j))
unfolding fold_group
fold_group-xor_range words zero j order scratch distinct everyone h =
    ap (λ m. m (0 * words + j)) (rounds-zero words 1 order distinct everyone 1 scratch)
    ∙ sym (zero-xor (scratch (0 * words + j)))
fold_group-xor_range words (suc n) j order scratch distinct everyone h =
    let double = pow-double n in
    let half : 2 ^ suc n / 2 ≡ 2 ^ n = omega (arith, double) in
    ap (λ s. fold_rounds words order (2 ^ suc n) s scratch (0 * words + j)) half
    ∙ rounds-xor words (2 ^ suc n) order distinct everyone n (2 ^ suc n) j scratch
        (omega (arith, fuel-enough (suc n))) (omega (arith, double)) h
    ∙ ap (λ k. xor_range k (λ i. scratch (i * words + j))) double
