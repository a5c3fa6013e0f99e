-- ===== src/Device/Fold.antt =====
-- `fold` of src/device/device.c: the XOR of a launch's partials into an accumulator.
use valubench.Prelude.{ℕ, suc, ◌+◌, ◌*◌, ◌≤◌, ◌<◌, ◌≡◌, refl, sym, ap, ◌∙◌, arith, bit_xor}
use valubench.Prelude.{for_range, for_range_inv, ltb, lt→ltb, le→ltb, if◌then◌else◌}
use valubench.Bits.Xor.{xor_assoc, xor-zero}
use valubench.Bits.Fold.{xor_range}
use valubench.Workload.Corpus.{Memory, store}

module _ (n_partials words : ℕ) (p : Memory) where
  -- The words of partial `i`.
  unfoldable pub fold_partial : ℕ → Memory → Memory
  fold_partial i acc =
      for_range words 0 (λ w acc. store acc w (bit_xor (acc w) (p (i * words + w)))) acc

  unfoldable pub fold_partials : Memory → Memory
  unfolding fold_partial
  fold_partials acc = for_range n_partials 0 fold_partial acc

  abbrev Done : ℕ → Memory → ℕ → Memory → Type 0
  Done i acc w now =
      (v : ℕ) → now v ≡ (if ltb v w then bit_xor (acc v) (p (i * words + v)) else acc v)

  fold_partial-Done : (i : ℕ) (acc : Memory) → Done i acc words (fold_partial i acc)
  unfolding fold_partial
  fold_partial-Done i acc =
      for_range_inv (Done i acc) (λ w now. store now w (bit_xor (now w) (p (i * words + w))))
        (λ w now h v. step w now h v) words 0 words acc (omega arith) (λ v. ground arith)
    where
      step :
          (w : ℕ) (now : Memory)
          → Done i acc w now
          → Done i acc (w + 1) (store now w (bit_xor (now w) (p (i * words + w))))
      step w now h v = let here = h v in let there = h w in ground (arith, here, there)

  abbrev column : ℕ → ℕ → ℕ
  column v i = p (i * words + v)

  abbrev Total : Memory → ℕ → Memory → Type 0
  Total acc i now =
      (v : ℕ)
      → (v < words → now v ≡ bit_xor (acc v) (xor_range i (column v))) × (words ≤ v → now v ≡ acc v)

  fold_partial-Total :
      (acc : Memory) (i : ℕ) (now : Memory)
      → Total acc i now
      → Total acc (i + 1) (fold_partial i now)
  fold_partial-Total acc i now h v = (
    λ below.
        fold_partial-Done i now v
        ∙ ap (λ b. if b then bit_xor (now v) (column v i) else now v) (lt→ltb v words below)
        ∙ ap (λ t. bit_xor t (column v i)) ((h v).0 below)
        ∙ xor_assoc (acc v) (xor_range i (column v)) (column v i)
        ∙ ap (λ k. bit_xor (acc v) (xor_range k (column v))) {x = suc i} (omega arith),
    λ above.
        fold_partial-Done i now v
        ∙ ap (λ b. if b then bit_xor (now v) (column v i) else now v) (le→ltb v words above)
        ∙ (h v).1 above,
  )

-- Folding the partials of a launch adds to each of the first `words` words of the accumulator the XOR
-- of that word over all partials, and leaves the words past them alone.
pub fold_partials-xor_range :
    (n_partials words : ℕ) (p acc : Memory) (v : ℕ)
    → (v < words
        → fold_partials n_partials words p acc v
          ≡ bit_xor (acc v) (xor_range n_partials (λ i. p (i * words + v))))
      × (words ≤ v → fold_partials n_partials words p acc v ≡ acc v)
unfolding fold_partials
fold_partials-xor_range n_partials words p acc =
    for_range_inv (Total n_partials words p acc) (fold_partial n_partials words p)
      (fold_partial-Total n_partials words p acc) n_partials 0 n_partials acc (omega arith)
      (λ v. (λ below. sym (xor-zero (acc v)), λ above. refl))
