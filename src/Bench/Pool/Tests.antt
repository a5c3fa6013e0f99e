-- ===== src/Bench/Pool/Tests.antt =====
-- The worker pool at concrete inputs, and runs of the code.
use valubench.Prelude.{ℕ, ◌+◌, ◌*◌, ◌≡◌, refl, true, false, some, none, arith, ◌∷◌, []}
use valubench.Algorithm.{md5_alg, blocks_for}
use valubench.Workload.Corpus.{Corpus, corpus_build}
use valubench.Workload.Reference.Rows.{Row, zero_row}
use valubench.Kernel.Md5.{Quad}
use valubench.Kernel.Isa.Scalar.{U32, scalar_ops, scalar_ops-IsOps}
use valubench.Bench.{KernelRow}
use valubench.Bench.Validate.{md5_row, md5_config}
use valubench.Bench.Pool.{Worker, Pool, PoolMachine, pool_create, pool_run}
use valubench.Bench.Pool.Verified.{pool_run-md5}

abbrev unset : Quad U32
unset =
    let zero_word : U32 = record { value = 0; below = omega arith } in
    record { a = zero_word; b = zero_word; c = zero_word; d = zero_word }

abbrev granted : PoolMachine
granted = record { calloc_ok = true; created = λ i. true; reference_memory = λ i. true }

pool_run-md5_example :
    (c : Corpus) × (p : Pool) × (corpus_build true
        (λ k. 7)
        md5_alg
        scalar_ops.lanes
        5
        (6 * 2 * scalar_ops.lanes)
        20
      ≡ some c)
    × (pool_create granted (md5_row scalar_ops unset 2) (md5_config 20 1 2) c 4 ≡ some p)
    × ((pool_run 1000 3 p).ok ≡ true)
    × ((pool_run 1000 3 p).elapsed ≡ 1000)
unfolding blocks_for
pool_run-md5_example =
    pool_run-md5 scalar_ops unset (λ k. 7) granted 2 6 5 20 1 2 4 1000 3 scalar_ops-IsOps
      (omega arith) (omega arith) (omega arith) (omega arith) (omega arith) (omega arith)
      (omega arith) (omega arith) refl (λ i. refl) (λ i. refl)

abbrev row_of : ℕ → Row
row_of n = n ∷ 0 ∷ 0 ∷ 0 ∷ 0 ∷ 0 ∷ 0 ∷ 0 ∷ []

-- A kernel that adds its groups to the first word.
abbrev first_words : KernelRow
first_words = record {
  lanes = 1;
  streams = 1;
  run = λ words groups blocks iterations. row_of (words 0 + groups);
}

abbrev worker : ℕ → Worker
worker n = record {
  corpus = λ k. n;
  groups = 2;
  expected = row_of (n + 2);
  checksum = zero_row;
  ref_alg = md5_alg;
  ref_start = 0;
  ref_count = 2;
  ref_message_bytes = 20;
  ref_iterations = 1;
  ok = false;
}

abbrev two_workers : Pool
two_workers = record {
  w = worker 5 ∷ worker 9 ∷ [];
  k = first_words;
  blocks = 1;
  iterations = 1;
  reps = 0;
  expected = none;
}

abbrev supplied_workers : Pool
supplied_workers = record two_workers { expected = some (row_of 12) }

-- 7 XOR 11 is 12: the run verifies; another reference fails, and no time is reported.
supplied_run :
    ((pool_run 10 3 supplied_workers).ok ≡ true)
    × ((pool_run 10 3 (record supplied_workers { expected = some (row_of 13) })).elapsed ≡ 0)
unfolding pool_run
supplied_run = (refl, refl)
