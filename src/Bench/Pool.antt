-- ===== src/Bench/Pool.antt =====
-- The worker pool of src/bench.c: the slices of `pool_create`, what a worker does with its slice, and
-- the verdict of `pool_run`. A thread shares nothing with the others but the pool's own fields, which
-- none of them writes. Products of counts are at most the corpus's size, which a `size_t` holds.
pub mod Slices
pub mod Verdict
pub mod Verified
pub mod Sound
pub mod Supplied
pub mod Tests
use valubench.Prelude.{
  ℕ, zero, suc, ◌+◌, ◌*◌, ◌/◌, ◌%◌, Bool, true, false, ◌&&◌, not, ltb, ◌==◌, if◌then◌else◌, Option,
  none, some, List, [], ◌∷◌, map, foldl, u32,
}
use valubench.Algorithm.{Algorithm}
use valubench.Workload.Corpus.{Corpus, Memory, slot_words}
use valubench.Workload.Reference.{reference_checksum}
use valubench.Workload.Reference.Rows.{Row, zero_row, xor_row}
use valubench.Bench.{KernelRow, Config, same_row}

-- `vb_worker`. `corpus` is the array from the slice's first element on.
pub record Worker : Type 0 where
  pub corpus : Memory
  pub groups : ℕ
  pub expected : Row
  pub checksum : Row
  pub ref_alg : Algorithm
  pub ref_start : ℕ
  pub ref_count : ℕ
  pub ref_message_bytes : ℕ
  pub ref_iterations : ℕ
  pub ok : Bool

-- `struct vb_pool`. `expected` is none without `have_expected`.
pub record Pool : Type 0 where
  pub w : List Worker
  pub k : KernelRow
  pub blocks : ℕ
  pub iterations : ℕ
  pub reps : ℕ
  pub expected : Option Row

-- What the machine decides: whether the `calloc` succeeds, which threads start, and whether the
-- allocation of a worker's reference pass does.
pub record PoolMachine : Type 0 where
  pub calloc_ok : Bool
  pub created : ℕ → Bool
  pub reference_memory : ℕ → Bool

-- `threads` after the two tests.
unfoldable pub pool_threads : ℕ → ℕ → ℕ
pool_threads threads total_groups =
    let threads = if ltb total_groups threads then total_groups else threads in
    if ltb threads 1 then 1 else threads

-- One turn of the loop over workers.
unfoldable pub slice_worker : KernelRow → Config → Corpus → ℕ → ℕ → Worker
unfolding slot_words
slice_worker k cfg c off groups =
    let group = u32 (k.lanes * k.streams) in
    let first_msg = off * group in
    record {
      corpus = λ p. c.words (first_msg / c.lanes * slot_words c + p);
      groups = groups;
      expected = zero_row;
      checksum = zero_row;
      ref_alg = cfg.alg;
      ref_start = u32 (c.start_index + u32 first_msg);
      ref_count = groups * group;
      ref_message_bytes = cfg.message_bytes;
      ref_iterations = cfg.iterations;
      ok = false;
    }

-- The loop, with `n` workers left to set up.
unfoldable pub slice_workers : KernelRow → Config → Corpus → ℕ → ℕ → ℕ → ℕ → ℕ → List Worker
unfolding slice_worker
slice_workers k cfg c base extra zero i off = []
slice_workers k cfg c base extra (suc n) i off =
    let groups = base + (if ltb i extra then 1 else 0) in
    slice_worker k cfg c off groups ∷ slice_workers k cfg c base extra n (i + 1) (off + groups)

-- `worker_reference`.
unfoldable pub worker_reference : Option Row → Bool → Worker → Worker
worker_reference (some row) memory_ok w = w
worker_reference none memory_ok w = record w {
  expected =
      reference_checksum memory_ok w.ref_alg w.ref_start w.ref_count w.ref_message_bytes
        w.ref_iterations;
}

-- Every worker's, from worker `i` on.
unfoldable pub worker_references : Option Row → (ℕ → Bool) → ℕ → List Worker → List Worker
unfolding worker_reference
worker_references expected memory i [] = []
worker_references expected memory i (w ∷ ws) =
    worker_reference expected (memory i) w ∷ worker_references expected memory (i + 1) ws

-- Whether threads `i` and the `n - 1` after it all start.
unfoldable pub all_created : (ℕ → Bool) → ℕ → ℕ → Bool
all_created created zero i = true
all_created created (suc n) i = created i && all_created created n (i + 1)

-- `pool_create`, up to the first barrier. The calling thread is worker 0. `none` is -1.
unfoldable pub pool_create : PoolMachine → KernelRow → Config → Corpus → ℕ → Option Pool
unfolding slice_workers worker_references all_created pool_threads
pool_create machine k cfg c threads =
    let total_groups = c.n_messages / u32 (k.lanes * k.streams) in
    let threads = pool_threads threads total_groups in
    let workers =
      slice_workers k cfg c (total_groups / threads) (total_groups % threads) threads 0 0 in
    if not machine.calloc_ok
    then none
    else (if not (all_created machine.created (elim threads [ zero ↦ 0 | suc n ↦ n ]) 1)
        then none
        else some (record {
          w = worker_references cfg.expected machine.reference_memory 0 workers;
          k = k;
          blocks = c.blocks;
          iterations = cfg.iterations;
          reps = 0;
          expected = cfg.expected;
        }))

-- The loop of `run_slice`, with `n` repeats left.
unfoldable pub slice_reps : Pool → ℕ → ℕ → Worker → Worker
slice_reps p zero r w = w
slice_reps p (suc n) r w = elim w.ok [
  | false ↦ w
  | true ↦
      let cs = p.k.run w.corpus w.groups p.blocks p.iterations in
      slice_reps p n (r + 1) (elim p.expected [
        | some row ↦
            if r == 0 then record w { checksum = cs } else record w { ok = same_row cs w.checksum }
        | none ↦ record w { ok = same_row cs w.expected }
      ])
]

unfoldable pub run_slice : Pool → Worker → Worker
unfolding slice_reps
run_slice p w = slice_reps p p.reps 0 (record w { ok = true })

abbrev pub all_ok : List Worker → Bool
all_ok [] = true
all_ok (w ∷ ws) = w.ok && all_ok ws

-- The pool after a run, whether it verified, and the time that is reported.
pub record PoolRun : Type 0 where
  pub pool : Pool
  pub ok : Bool
  pub elapsed : ℕ

-- `pool_run`. `elapsed` is the time between the two readings of the clock.
unfoldable pub pool_run : ℕ → ℕ → Pool → PoolRun
unfolding run_slice
pool_run elapsed reps before =
    let p = record before { reps = reps } in
    let ws = map (run_slice p) p.w in
    let agg = foldl (λ agg w. xor_row agg w.checksum) zero_row ws in
    let ok = all_ok ws && (elim p.expected [
      | none ↦ true
      | some row ↦ if ltb 0 reps then same_row agg row else true
    ]) in
    record { pool = record p { w = ws }; ok = ok; elapsed = if ok then elapsed else 0 }
