-- ===== src/Kernel/Tests/Sha.antt =====
-- The SHA-1 and SHA-512 kernels' theorems at concrete inputs: the scalar operations, and vectors that
-- are functions of the lane.
use valubench.Prelude.{◌*◌, ◌≡◌, true, some, [], arith}
use valubench.Algorithm.{sha1_alg, sha512_alg, blocks_for}
use valubench.Workload.Corpus.{Corpus, corpus_build}
use valubench.Workload.Reference.{reference_checksum}
use valubench.Kernel.Isa.Sha1Sets.{
  scalar_simd, scalar_simd-IsSimd, scalar_sha1, scalar_sha1-IsSha1Ops, shift_sha1,
  shift_sha1-IsSha1Ops, select_sha1, select_sha1-IsSha1Ops, ternary_sha1, ternary_sha1-IsSha1Ops,
}
use valubench.Kernel.Isa.Scalar.{U32}
use valubench.Kernel.Isa.Sha512Sets.{
  U64, scalar_simd64, scalar_simd64-IsSimd64, scalar_sha512, scalar_sha512-IsSha512Ops,
}
use valubench.Kernel.Sha.{S}
use valubench.Kernel.Sha1.{IsSha1Ops, sha1_rounds, sha1_kernel}
use valubench.Kernel.Sha1.Exact.{sha1_kernel-reference_checksum}
use valubench.Kernel.Sha512.{sha512_rounds, sha512_kernel}
use valubench.Kernel.Sha512.Exact.{sha512_kernel-reference_checksum}
use valubench.Kernel.Tests.Words.{
  word_simd, word_simd-IsSimd, word_shifts, word_shifts-IsShiftOps, word_selects,
  word_selects-IsSelectOps, word_ternary, word_ternary-IsTernaryOps,
}

abbrev unset1 : S scalar_simd (sha1_rounds scalar_simd scalar_sha1)
unset1 =
    let x : U32 = record { value = 0; below = omega arith } in
    record {
      slot = 0;
      fb = [];
      h = [];
      x = record { w = []; r = record { a = x; b = x; c = x; d = x; e = x } };
    }

sha1_kernel-reference_checksum_example :
    (c : Corpus) × (corpus_build true
        (λ k. 7)
        sha1_alg
        scalar_simd.lanes
        5
        (3 * 2 * scalar_simd.lanes)
        24
      ≡ some c)
    × (sha1_kernel scalar_simd scalar_sha1 c.words unset1 2 3 c.blocks 2
        ≡ reference_checksum true sha1_alg 5 (3 * 2 * scalar_simd.lanes) 24 2)
unfolding blocks_for
sha1_kernel-reference_checksum_example =
    sha1_kernel-reference_checksum scalar_simd scalar_sha1 unset1 (λ k. 7) 2 3 5 24 2
      scalar_simd-IsSimd scalar_sha1-IsSha1Ops (omega arith) (omega arith) (omega arith)
      (omega arith) (omega arith) (omega arith) (omega arith)

abbrev unset512 : S scalar_simd64 (sha512_rounds scalar_simd64 scalar_sha512)
unset512 =
    let x : U64 = record { value = 0; below = omega arith } in
    record {
      slot = 0;
      fb = [];
      h = [];
      x = record { w = []; r = record { a = x; b = x; c = x; d = x; e = x; f = x; g = x; h = x } };
    }

sha512_kernel-reference_checksum_example :
    (c : Corpus) × (corpus_build true
        (λ k. 7)
        sha512_alg
        scalar_simd64.lanes
        5
        (3 * 2 * scalar_simd64.lanes)
        70
      ≡ some c)
    × (sha512_kernel scalar_simd64 scalar_sha512 c.words unset512 2 3 c.blocks 2
        ≡ reference_checksum true sha512_alg 5 (3 * 2 * scalar_simd64.lanes) 70 2)
unfolding blocks_for
sha512_kernel-reference_checksum_example =
    sha512_kernel-reference_checksum scalar_simd64 scalar_sha512 unset512 (λ k. 7) 2 3 5 70 2
      scalar_simd64-IsSimd64 scalar_sha512-IsSha512Ops (omega arith) (omega arith) (omega arith)
      (omega arith) (omega arith) (omega arith) (omega arith)

shift_sha1-IsSha1Ops_example : IsSha1Ops (word_simd 3) (shift_sha1 (word_simd 3) (word_shifts 3))
shift_sha1-IsSha1Ops_example =
    shift_sha1-IsSha1Ops (word_simd 3) (word_shifts 3) (word_simd-IsSimd 3)
      (word_shifts-IsShiftOps 3)

select_sha1-IsSha1Ops_example : IsSha1Ops (word_simd 3) (select_sha1 (word_simd 3) (word_selects 3))
select_sha1-IsSha1Ops_example =
    select_sha1-IsSha1Ops (word_simd 3) (word_selects 3) (word_simd-IsSimd 3)
      (word_selects-IsSelectOps 3)

ternary_sha1-IsSha1Ops_example :
    IsSha1Ops (word_simd 15) (ternary_sha1 (word_simd 15) (word_ternary 15))
ternary_sha1-IsSha1Ops_example =
    ternary_sha1-IsSha1Ops (word_simd 15) (word_ternary 15) (word_simd-IsSimd 15)
      (word_ternary-IsTernaryOps 15)
