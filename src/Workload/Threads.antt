-- ===== src/Workload/Threads.antt =====
-- `vb_reference_checksums_mt`: the range split across threads and the parts XORed together.
pub mod Split
pub mod Exact
use valubench.Prelude.{ℕ, ◌+◌, ◌/◌, ◌%◌, Bool, true, ◌&&◌, ◌||◌, not, ltb, ◌==◌, if◌then◌else◌, u32}
use valubench.Prelude.{List, [], ◌∷◌, length, replicate, for_range}
use valubench.Algorithm.{Algorithm}
use valubench.Workload.Reference.{reference_checksums, reference_checksum}
use valubench.Workload.Reference.Rows.{Row, zero_row, xor_row}

-- What the machine decides: whether the allocations of the split succeed, which threads start, which
-- joins succeed, and what a part holds when its join has failed.
pub record Machine : Type 0 where
  pub memory_ok : Bool
  pub created : ℕ → Bool
  pub joined : ℕ → Bool
  pub unknown : ℕ → List Row

-- `base + (i < extra ? 1 : 0)`.
unfoldable pub slice_count : ℕ → ℕ → ℕ → ℕ
slice_count count threads i = count / threads + (if ltb i (count % threads) then 1 else 0)

-- `off` when slice `i` is set up. It never exceeds `count`, so it cannot wrap.
unfoldable pub slice_off : ℕ → ℕ → ℕ → ℕ
slice_off count threads i = for_range i 0 (λ k off. off + slice_count count threads k) 0

-- `out[k][j] ^= part[k][j]` over all rungs and words.
abbrev pub xor_rows : List Row → List Row → List Row
xor_rows [] part = []
xor_rows (row ∷ out) [] = row ∷ out
xor_rows (row ∷ out) (p ∷ part) = xor_row row p ∷ xor_rows out part

module _ (machine : Machine) (a : Algorithm) (start count message_bytes : ℕ) (iters : List ℕ)
    (threads : ℕ) where
  -- `ref_slice_main (&sl[i])`.
  unfoldable pub run_slice : ℕ → List Row
  run_slice i =
      reference_checksums true a (u32 (start + u32 (slice_off count threads i)))
        (slice_count count threads i) message_bytes iters

  -- What part `i` holds when the loop over the threads comes to it: slice 0 has been run, a thread
  -- that was joined has run its slice, and a part whose thread never started is still clear.
  unfoldable pub held : ℕ → List Row
  held i =
      if i == 0
      then run_slice 0
      else if not (machine.created i)
      then replicate (length iters) zero_row
      else if machine.joined i
      then run_slice i
      else machine.unknown i

  -- The part that is folded in: run here where the create or the join failed.
  unfoldable pub settled : ℕ → List Row
  settled i =
      if ltb 0 i && machine.created i
      then (if machine.joined i then held i else run_slice i)
      else if ltb 0 i
      then run_slice i
      else held i

  unfoldable pub reference_checksums_mt : List Row → List Row
  reference_checksums_mt out =
      let cleared = replicate (length iters) zero_row in
      let single = reference_checksums true a start count message_bytes iters in
      if length iters == 0
      then out
      else if ltb threads 2 || ltb count threads
      then single
      else if not machine.memory_ok
      then single
      else for_range threads 0 (λ i sum. xor_rows sum (settled i)) cleared
