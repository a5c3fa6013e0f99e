-- ===== src/Bench/Tests.antt =====
-- The harness's theorems at concrete inputs, and runs of the code.
use valubench.Prelude.{ℕ, ◌*◌, ◌<◌, ◌≡◌, refl, true, false, arith, ◌∷◌, []}
use valubench.Algorithm.{blocks_for}
use valubench.Workload.Corpus.{Corpus}
use valubench.Workload.Reference.Rows.{zero_row}
use valubench.Workload.Threads.{Machine}
use valubench.Kernel.Md5.{Quad}
use valubench.Kernel.Isa.Scalar.{U32, scalar_ops}
use valubench.Bench.{batch_divides, batch_messages}
use valubench.Bench.Batch.{batch_messages-batch_divides}
use valubench.Bench.Validate.{md5_row, md5_config}

abbrev unset : Quad U32
unset =
    let zero_word : U32 = record { value = 0; below = omega arith } in
    record { a = zero_word; b = zero_word; c = zero_word; d = zero_word }

-- Every create fails.
abbrev no_threads : Machine
no_threads = record {
  memory_ok = true;
  created = λ i. false;
  joined = λ i. false;
  unknown = λ i. zero_row ∷ [];
}

-- A megabyte of one-block messages, and a working set smaller than one unit.
batch_runs :
    (batch_messages (md5_config 20 1024 1) ≡ 16128) × (batch_messages (md5_config 20 1 1) ≡ 768)
unfolding batch_messages blocks_for
batch_runs = (refl, refl)

batch_messages-batch_divides_example :
    (n_groups : ℕ) × (0 < n_groups)
    × (0 < 1 * 4)
    × (batch_messages (md5_config 20 1024 1) ≡ n_groups * (1 * 4))
unfolding batch_divides
batch_messages-batch_divides_example =
    batch_messages-batch_divides (md5_row scalar_ops unset 4) (md5_config 20 1024 1) (omega arith)
      refl
