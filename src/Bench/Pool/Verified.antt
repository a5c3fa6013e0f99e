-- ===== src/Bench/Pool/Verified.antt =====
-- The MD5 kernel in a pool of any number of threads.
use valubench.Prelude.{
  ℕ, ◌+◌, ◌-◌, ◌*◌, ◌/◌, ◌^◌, ◌≤◌, ◌<◌, ◌≡◌, refl, sym, ap, ap₂, ◌∙◌, true, some, u32, arith,
}
use mathlib.Core.Path.{subst}
use native.Mathlib.Nat.{mul-mod_left, mul-div_cancel}
use valubench.Algorithm.{md5_alg, blocks_for}
use valubench.Workload.Corpus.{Corpus, Memory, corpus_build, slot_words, padded_message, word_at}
use valubench.Workload.Corpus.Layout.{word_of, corpus_build-layout}
use valubench.Workload.Reference.{reference_checksum}
use valubench.Kernel.Ops.{Ops, IsOps}
use valubench.Kernel.Md5.{Quad, md5_kernel}
use valubench.Kernel.Md5.Exact.{Stored}
use valubench.Bench.Validate.{md5_row, md5_config, corpus_build-fields}
use valubench.Bench.Pool.{PoolMachine, Pool, slice_worker, pool_create, pool_run}
use valubench.Bench.Pool.Slices.{md5_kernel-slice}
use valubench.Bench.Pool.Verdict.{SliceRight, made, pool_create-made, pool_run-right}

group-split : (n l s : ℕ) → n * (l * s) ≡ n * s * l
group-split n l s = grind arith

groups-of : (n l s m g : ℕ) → g ≡ l * s → m ≡ n * s * l → 0 < l → 0 < s → m / g ≡ n
groups-of n l s m g small whole hl hs =
    ap₂ ◌/◌ (whole ∙ sym (group-split n l s)) small ∙ mul-div_cancel n (grind (arith, hl, hs))

some_messages : (n s l : ℕ) → 0 < n → 0 < s → 0 < l → 0 < n * s * l
some_messages n s l hn hs hl = grind arith

module _ (o : Ops) (ok : IsOps o) (narrow : o.lanes < 2 ^ 32) (unset : Quad o.Vec)
    (streams n_groups start bytes kb t : ℕ) (long : 16 ≤ bytes) (short : bytes < 2 ^ 32 - 256)
    (some_iterations : 0 < t) (c : Corpus) (sized : c.blocks ≡ blocks_for md5_alg bytes)
    (stored : Stored o ok narrow unset streams n_groups start bytes t long short some_iterations c
      sized)
    (fits : n_groups * streams * o.lanes * blocks_for md5_alg bytes * 16 < 2 ^ 64)
    (group : o.lanes * streams < 2 ^ 32) (of_lanes : c.lanes ≡ o.lanes)
    (of_start : c.start_index ≡ start) where
  small_group : u32 (o.lanes * streams) ≡ o.lanes * streams
  small_group = omega (arith, group)

  messages-of : (n : ℕ) → n * u32 (o.lanes * streams) ≡ n * streams * o.lanes
  messages-of n = ap (λ g. n * g) small_group ∙ group-split n o.lanes streams

  slice-at :
      (off : ℕ)
      → off * u32 (o.lanes * streams) / c.lanes * slot_words c
        ≡ off * streams * (blocks_for md5_alg bytes * 16 * o.lanes)
  unfolding slot_words
  slice-at off =
      ap₂ ◌*◌ (ap₂ ◌/◌ (messages-of off) of_lanes ∙ mul-div_cancel (off * streams) ok.some_lanes)
        (ap₂ (λ b l. b * 16 * l) sized of_lanes)

  md5-SliceRight :
      (off groups : ℕ)
      → off + groups ≤ n_groups
      → SliceRight (md5_row o unset streams) (md5_config bytes kb t) c off groups
  unfolding slice_worker
  md5-SliceRight off groups inside =
      ap₂ (λ at b. md5_kernel o (λ p. c.words (at + p)) unset streams groups b t) (slice-at off)
        sized
      ∙ md5_kernel-slice o ok narrow unset streams n_groups start bytes t long short some_iterations
          c sized stored fits off groups inside
      ∙ ap₂ (λ at n. reference_checksum true md5_alg at n bytes t)
          (sym (ap₂ (λ first m. u32 (first + u32 m)) of_start (messages-of off)))
          (sym (messages-of groups))

-- Over any operations that work lane by lane on fewer than 2 ^ 32 lanes, with at least one stream and
-- one group, a group that fits 32 bits, messages of 16 to 2 ^ 32 - 257 bytes, at least one iteration
-- and a corpus whose size a `size_t` holds, and where the allocations succeed and the threads start:
-- the corpus is built, the pool is created for any number of threads, and a run of any number of
-- repeats of the MD5 kernel verifies every slice and reports the elapsed time.
pub pool_run-md5 :
    (o : Ops) (unset : Quad o.Vec) (mem : Memory) (machine : PoolMachine)
    (streams n_groups start bytes kb t threads elapsed reps : ℕ)
    → IsOps o
    → o.lanes < 2 ^ 32
    → o.lanes * streams < 2 ^ 32
    → 0 < streams
    → 0 < n_groups
    → 16 ≤ bytes
    → bytes < 2 ^ 32 - 256
    → 0 < t
    → n_groups * streams * o.lanes * blocks_for md5_alg bytes * 16 < 2 ^ 64
    → machine.calloc_ok ≡ true
    → ((i : ℕ) → machine.created i ≡ true)
    → ((i : ℕ) → machine.reference_memory i ≡ true)
    → (c : Corpus) × (p : Pool) × (corpus_build true mem md5_alg o.lanes start
          (n_groups * streams * o.lanes)
          bytes
        ≡ some c)
      × (pool_create machine (md5_row o unset streams) (md5_config bytes kb t) c threads ≡ some p)
      × ((pool_run elapsed reps p).ok ≡ true)
      × ((pool_run elapsed reps p).elapsed ≡ elapsed)
pool_run-md5 o unset mem machine streams n_groups start bytes kb t threads elapsed reps ok narrow
      group ss gs long short some_iterations fits memory started allocated =
    let n = n_groups * streams * o.lanes in
    let (c, built, sized, words) =
      corpus_build-layout mem md5_alg o.lanes start n bytes ok.some_lanes narrow
        (some_messages n_groups streams o.lanes gs ss ok.some_lanes)
        (mul-mod_left (n_groups * streams) o.lanes) fits in
    let (messages, index, lanes) = corpus_build-fields mem md5_alg o.lanes start n bytes c built in
    let stored : Stored o ok narrow unset streams n_groups start bytes t long short some_iterations
        c sized =
      subst
        (λ blocks.
          (k b j : ℕ)
          → k < n
          → b < blocks
          → j < 16
          → c.words (word_at o.lanes blocks k b j)
            ≡ word_of md5_alg (padded_message md5_alg start bytes blocks k) b j)
        sized (λ k b j hk hb hj. (words k b j hk hb hj).0) in
    let row = md5_row o unset streams in
    let cfg = md5_config bytes kb t in
    let groups : c.n_messages / u32 (o.lanes * streams) ≡ n_groups =
      groups-of n_groups o.lanes streams c.n_messages (u32 (o.lanes * streams))
        (omega (arith, group)) messages ok.some_lanes ss in
    let run = pool_run-right machine row cfg c threads elapsed reps refl allocated (λ off g h.
      md5-SliceRight o ok narrow unset streams n_groups start bytes kb t long short some_iterations
        c sized stored fits group lanes index off g (omega (arith, h, groups))) in
    (
      c,
      made machine row cfg c threads,
      built,
      pool_create-made machine row cfg c threads memory started,
      run.0,
      run.1,
    )
