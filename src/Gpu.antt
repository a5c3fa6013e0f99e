-- ===== src/Gpu.antt =====
-- The end of the three kernels of src/kernels/gpu: a work-group folds its digests in local memory, by
-- halves, with a barrier after each. Between two barriers the work-items run in any order.
pub mod Item
pub mod Round
pub mod Tree
pub mod Tests
use valubench.Prelude.{
  ℕ, zero, suc, ◌+◌, ◌*◌, ◌/◌, Bool, true, false, ltb, ◌==◌, ◌||◌, if◌then◌else◌, List, [], ◌∷◌,
  foldl, bit_xor, for_range,
}
use valubench.Workload.Corpus.{Memory, store}

-- `scratch[lid * DIGEST_WORDS + j] ^= scratch[(lid + s) * DIGEST_WORDS + j]`.
unfoldable pub fold_word : ℕ → ℕ → ℕ → ℕ → Memory → Memory
fold_word words s lid j scratch =
    store scratch (lid * words + j)
      (bit_xor (scratch (lid * words + j)) (scratch ((lid + s) * words + j)))

-- What work-item `lid` does between two barriers.
unfoldable pub fold_item : ℕ → ℕ → Memory → ℕ → Memory
unfolding fold_word
fold_item words s scratch lid =
    if ltb lid s then for_range words 0 (fold_word words s lid) scratch else scratch

-- All work-items between two barriers, in the order given.
unfoldable pub fold_round : ℕ → ℕ → List ℕ → Memory → Memory
unfolding fold_item
fold_round words s order scratch = foldl (fold_item words s) scratch order

-- The loop over `s`; `order s` is the order in which the work-items run at `s`.
unfoldable pub fold_rounds : ℕ → (ℕ → List ℕ) → ℕ → ℕ → Memory → Memory
unfolding fold_round
fold_rounds words order zero s scratch = scratch
fold_rounds words order (suc fuel) s scratch = elim (s == 0) [
  | true ↦ scratch
  | false ↦ fold_rounds words order fuel (s / 2) (fold_round words s (order s) scratch)
]

-- The reduction of a work-group of `local_size` work-items.
unfoldable pub fold_group : ℕ → (ℕ → List ℕ) → ℕ → Memory → Memory
unfolding fold_rounds
fold_group words order local_size scratch =
    fold_rounds words order local_size (local_size / 2) scratch

-- Whether the work-item is in the order.
abbrev pub member : ℕ → List ℕ → Bool
member i [] = false
member i (x ∷ order) = (i == x) || member i order
