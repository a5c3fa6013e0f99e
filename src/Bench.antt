-- ===== src/Bench.antt =====
-- src/bench.c: how many messages a batch has, and the check of a kernel against the reference.
pub mod Batch
pub mod Validate
pub mod Pool
mod Tests
use valubench.Prelude.{
  ℕ, zero, ◌*◌, ◌/◌, ◌%◌, Bool, true, false, ◌||◌, ◌&&◌, not, ltb, ◌==◌, if◌then◌else◌,
}
use valubench.Prelude.{u32, u64, List, [], ◌∷◌, get_or, Option, none, some}
use valubench.Algorithm.{Algorithm, blocks_for}
use valubench.Workload.Corpus.{Corpus, Memory}
use valubench.Workload.Reference.Rows.{Row, zero_row}
use valubench.Workload.Threads.{Machine, reference_checksums_mt}

abbrev pub batch_lcm : ℕ
batch_lcm = 768

-- The fields of a kernel that the check reads. `run` gives the checksum.
pub record KernelRow : Type 0 where
  pub lanes : ℕ
  pub streams : ℕ
  pub run : Memory → ℕ → ℕ → ℕ → Row

-- The fields of the configuration. `expected` is the reference that a caller may supply.
pub record Config : Type 0 where
  pub alg : Algorithm
  pub message_bytes : ℕ
  pub working_set_kb : ℕ
  pub iterations : ℕ
  pub expected : Option Row

unfoldable pub batch_divides : KernelRow → Bool
batch_divides k =
    let group = u32 (k.lanes * k.streams) in if group == 0 then false else batch_lcm % group == 0

unfoldable pub batch_messages : Config → ℕ
batch_messages cfg =
    let padded = u64 (blocks_for cfg.alg cfg.message_bytes * cfg.alg.block_bytes) in
    let target = u64 (cfg.working_set_kb * 1024) in
    let n = if padded == 0 then 0 else target / padded in
    let n = n / batch_lcm * batch_lcm in if ltb n batch_lcm then batch_lcm else n

-- `vb_reference_checksum_mt`; `before` is what the row holds at the call.
unfoldable pub reference_checksum_mt : Machine → Algorithm → ℕ → ℕ → ℕ → ℕ → ℕ → Row → Row
reference_checksum_mt machine a start count message_bytes iterations threads before =
    get_or
      (reference_checksums_mt machine a start count message_bytes (iterations ∷ []) threads
        (before ∷ []))
      0 zero_row

-- `memcmp (...) == 0`.
abbrev pub same_row : Row → Row → Bool
same_row [] [] = true
same_row [] (y ∷ ys) = false
same_row (x ∷ xs) [] = false
same_row (x ∷ xs) (y ∷ ys) = x == y && same_row xs ys

-- `vb_validate_kernel`. `threads` is `vb_default_threads ()`.
unfoldable pub validate_kernel : Machine → ℕ → Row → KernelRow → Config → Corpus → Bool
unfolding batch_divides reference_checksum_mt
validate_kernel machine threads before k cfg c =
    let group = u32 (k.lanes * k.streams) in
    let expected : Row = elim cfg.expected [
      | none ↦
          reference_checksum_mt machine cfg.alg c.start_index c.n_messages cfg.message_bytes
            cfg.iterations threads before
      | some row ↦ row
    ] in
    if not (batch_divides k) || not (c.n_messages % group == 0)
    then false
    else same_row (k.run c.words (c.n_messages / group) c.blocks cfg.iterations) expected
