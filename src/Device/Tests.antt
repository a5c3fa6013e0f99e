-- ===== src/Device/Tests.antt =====
-- The device layer's theorems at concrete inputs, and runs of the code.
use valubench.Prelude.{ℕ, ◌*◌, ◌≤◌, ◌<◌, ◌≡◌, refl, arith, min}
use valubench.Bits.Fold.{xor_range}
use valubench.Device.{dev_waves, calibrated_repeats, chunks_loop, pair_fits, dev_auto_chunks}
use valubench.Device.{dev_slice_count}
use valubench.Prelude.{bit_xor, ◌+◌}
use valubench.Device.Fold.{fold_partials, fold_partials-xor_range}
use valubench.Device.Slice.{InSlice, dev_slice-partition}
use valubench.Device.Launch.{LeastCount, calibrated_repeats-sweeps, dev_waves-LeastCount}

-- A fifth of a second is one sweep, a millisecond is 21.
repeats_runs : (calibrated_repeats 200000000 ≡ 1) × (calibrated_repeats 1000000 ≡ 21)
unfolding calibrated_repeats
repeats_runs = (refl, refl)

-- Ten groups of one megabyte in sixteen megabytes: five chunks, since a pair may take four.
chunks_runs : dev_auto_chunks 10 0x100000 0x1000000 ≡ 5
unfolding dev_auto_chunks chunks_loop pair_fits dev_slice_count
chunks_runs = refl

dev_slice-partition_example :
    (i : ℕ) × (i < 3) × InSlice 10 3 i 4 × ((j : ℕ) → InSlice 10 3 j 4 → j ≡ i)
dev_slice-partition_example = dev_slice-partition 10 3 4 (omega arith) (omega arith)

calibrated_repeats-sweeps_example :
    (1 ≤ calibrated_repeats 1000000)
    × (calibrated_repeats 1000000 ≤ 65535)
    × (xor_range (calibrated_repeats 1000000) (λ i. 0xd41d) ≡ 0xd41d)
calibrated_repeats-sweeps_example = calibrated_repeats-sweeps 1000000 0xd41d

dev_waves-LeastCount_example : LeastCount (min 4096 (100 * 64)) 1000 (dev_waves 4096 100 64 1000)
dev_waves-LeastCount_example =
    dev_waves-LeastCount 4096 100 64 1000 (omega arith) (omega arith) (omega arith)

fold_partials-xor_range_example :
    (1 < 2 → fold_partials 3 2 (λ k. k) (λ k. 9) 1 ≡ bit_xor 9 (xor_range 3 (λ i. i * 2 + 1)))
    × (2 ≤ 1 → fold_partials 3 2 (λ k. k) (λ k. 9) 1 ≡ 9)
fold_partials-xor_range_example = fold_partials-xor_range 3 2 (λ k. k) (λ k. 9) 1
