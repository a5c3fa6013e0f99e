-- ===== src/Workload/Threads/Split.antt =====
-- The slices lie end to end and cover the range.
use valubench.Prelude.{ℕ, ◌+◌, ◌*◌, ◌/◌, ◌%◌, ◌<◌, min, ◌≡◌, arith}
use valubench.Prelude.{for_range_inv}
use valubench.Workload.Threads.{slice_count, slice_off}

module _ (count threads : ℕ) where
  -- Where slice `i` begins: `i` bases, and one more for each earlier slice that has an extra.
  pub slice_off-closed :
      (i : ℕ) → slice_off count threads i ≡ i * (count / threads) + min i (count % threads)
  unfolding slice_off slice_count
  slice_off-closed i =
      for_range_inv (λ k off. off ≡ k * (count / threads) + min k (count % threads))
        (λ k off. off + slice_count count threads k) (λ k off h. ground arith) i 0 i 0 (omega arith)
        (omega arith)

  pub slice_off-suc :
      (i : ℕ)
      → slice_off count threads (i + 1) ≡ slice_off count threads i + slice_count count threads i
  unfolding slice_count
  slice_off-suc i = ground (arith, slice_off-closed i, slice_off-closed (i + 1))

  pub slice_off-all : 0 < threads → slice_off count threads threads ≡ count
  slice_off-all h = grind (arith, slice_off-closed threads)
