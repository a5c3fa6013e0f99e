-- ===== src/Kernel/Tests.antt =====
-- The kernel's theorems at concrete inputs: the scalar operations, and vectors that are functions of
-- the lane.
mod Words
mod Sha
use valubench.Prelude.{ℕ, ◌*◌, ◌^◌, ◌<◌, ◌≡◌, true, some, arith}
use valubench.Algorithm.{md5_alg, blocks_for}
use valubench.Workload.Corpus.{Corpus, corpus_build}
use valubench.Workload.Reference.{reference_checksum}
use valubench.Kernel.Ops.{IsOps}
use valubench.Kernel.Isa.Scalar.{U32, scalar_ops, scalar_ops-IsOps}
use valubench.Kernel.Isa.Shifts.{shift_ops, shift_ops-IsOps}
use valubench.Kernel.Isa.Select.{select_ops, select_ops-IsOps}
use valubench.Kernel.Isa.Ternary.{ternary_ops, ternary_ops-IsOps}
use valubench.Kernel.Md5.{Quad, md5_kernel}
use valubench.Kernel.Md5.Exact.{md5_kernel-reference_checksum}
use valubench.Kernel.Tests.Words.{
  word_simd, word_simd-IsSimd, word_shifts, word_shifts-IsShiftOps, word_selects,
  word_selects-IsSelectOps, word_ternary, word_ternary-IsTernaryOps,
}

abbrev unset : Quad U32
unset =
    let zero_word : U32 = record { value = 0; below = omega arith } in
    record { a = zero_word; b = zero_word; c = zero_word; d = zero_word }

md5_kernel-reference_checksum_example :
    (c : Corpus) × (corpus_build true
        (λ k. 7)
        md5_alg
        scalar_ops.lanes
        5
        (3 * 2 * scalar_ops.lanes)
        20
      ≡ some c)
    × (md5_kernel scalar_ops c.words unset 2 3 c.blocks 2
        ≡ reference_checksum true md5_alg 5 (3 * 2 * scalar_ops.lanes) 20 2)
unfolding blocks_for
md5_kernel-reference_checksum_example =
    md5_kernel-reference_checksum scalar_ops unset (λ k. 7) 2 3 5 20 2 scalar_ops-IsOps
      (omega arith) (omega arith) (omega arith) (omega arith) (omega arith) (omega arith)
      (omega arith)

shift_ops-IsOps_example : IsOps (shift_ops (word_simd 3) (word_shifts 3))
shift_ops-IsOps_example =
    shift_ops-IsOps (word_simd 3) (word_shifts 3) (word_simd-IsSimd 3) (word_shifts-IsShiftOps 3)

select_ops-IsOps_example : IsOps (select_ops (word_simd 3) (word_selects 3))
select_ops-IsOps_example =
    select_ops-IsOps (word_simd 3) (word_selects 3) (word_simd-IsSimd 3)
      (word_selects-IsSelectOps 3)

ternary_ops-IsOps_example : IsOps (ternary_ops (word_simd 15) (word_ternary 15))
ternary_ops-IsOps_example =
    ternary_ops-IsOps (word_simd 15) (word_ternary 15) (word_simd-IsSimd 15)
      (word_ternary-IsTernaryOps 15)
