-- ===== src/Device.antt =====
-- src/device/device.c: how a range of groups is cut between devices and chunks, and how a launch is
-- measured.
pub mod Slice
pub mod Launch
pub mod Fold
pub mod Pipe
mod Tests
use valubench.Prelude.{
  ℕ, zero, suc, ◌+◌, ◌-◌, ◌*◌, ◌/◌, ◌%◌, Bool, true, false, ◌&&◌, ltb, ◌==◌, if◌then◌else◌, not,
}
use valubench.Prelude.{bit_or, u32, u64}

-- `*count` and `*first` of `vb_dev_slice`, for a positive `n`. Neither exceeds the total, so neither
-- wraps.
unfoldable pub dev_slice_count : ℕ → ℕ → ℕ → ℕ
dev_slice_count total n i = total / n + (if ltb i (total % n) then 1 else 0)

unfoldable pub dev_slice_first : ℕ → ℕ → ℕ → ℕ
dev_slice_first total n i = i * (total / n) + (if ltb i (total % n) then i else total % n)

-- `vb_dev_waves`.
unfoldable pub dev_waves : ℕ → ℕ → ℕ → ℕ → ℕ
dev_waves global n_groups lanes capacity =
    let grid = u64 (n_groups * lanes) in
    let busy = if ltb global grid then global else grid in
    if capacity == 0 then 0 else u32 (u64 (busy + capacity - 1) / capacity)

abbrev pub target_launch_ns : ℕ
target_launch_ns = 20000000

-- The repeats that `calibrate_repeats` sets after a sweep of `one` nanoseconds.
unfoldable pub calibrated_repeats : ℕ → ℕ
calibrated_repeats one =
    if ltb 0 one && ltb one target_launch_ns
    then (let want = target_launch_ns / one in
        let want = if ltb want 1 then 1 else want in
        let want = if ltb 0xffff want then 0xffff else want in u32 (bit_or want 1))
    else 1

module _ (n_groups group_bytes budget : ℕ) where
  -- `2 * largest * group_bytes <= budget` for the first slice of so many chunks.
  unfoldable pub pair_fits : ℕ → Bool
  unfolding dev_slice_count
  pair_fits chunks = not (ltb budget (u64 (2 * dev_slice_count n_groups chunks 0 * group_bytes)))

  -- The loop of `vb_dev_auto_chunks`. The fuel is 256, above which the test fails.
  unfoldable pub chunks_loop : ℕ → ℕ → ℕ
  chunks_loop zero chunks = chunks
  chunks_loop (suc fuel) chunks =
      elim (ltb 0 budget && (ltb chunks n_groups && (ltb chunks 256 && not (pair_fits chunks)))) [
        | true ↦ chunks_loop fuel (chunks + 1)
        | false ↦ chunks
      ]

unfoldable pub dev_auto_chunks : ℕ → ℕ → ℕ → ℕ
unfolding chunks_loop
dev_auto_chunks n_groups group_bytes global_mem =
    chunks_loop n_groups group_bytes (global_mem / 4) 256 1
