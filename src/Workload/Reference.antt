-- ===== src/Workload/Reference.antt =====
-- The reference checksums of src/workload.c: `vb_reference_checksums` walks each message's chain
-- once and takes a snapshot at every requested count.
pub mod Rows
pub mod Spec
mod Snapshot
pub mod Ladder
use valubench.Prelude.{
  ℕ, zero, suc, ◌+◌, ◌-◌, ◌*◌, Bool, true, false, ◌&&◌, ltb, ◌==◌, if◌then◌else◌,
}
use valubench.Prelude.{
  u32, List, [], ◌∷◌, ◌++◌, length, get_or, set, replicate, write_at, for_range,
}
use valubench.Algorithm.{Algorithm}
use valubench.Workload.Message.{build_message, load_word}
use valubench.Workload.Reference.Rows.{Row, zero_row, xor_row}

-- The words of a digest, as they go into a row.
unfoldable pub digest_row : Algorithm → List ℕ → Row
digest_row a digest =
    for_range a.digest_words 0 (λ j row. row ++ (load_word a digest (j * a.word_bytes) ∷ [])) []

-- The locals of the walk over one message, and the rows.
pub record Walk : Type 0 where
  pub msg : List ℕ
  pub k : ℕ
  pub out : List Row

module _ (a : Algorithm) (iters : List ℕ) where
  -- `while (k < n_iters && iters[k] == it + 1)`; the fuel is the number of rungs.
  unfoldable pub snapshot : ℕ → ℕ → Row → ℕ → List Row → ℕ × List Row
  snapshot zero count row k out = (k, out)
  snapshot (suc fuel) count row k out = elim (ltb k (length iters) && get_or iters k 0 == count) [
    | true ↦ snapshot fuel count row (k + 1) (set out k (xor_row (get_or out k []) row))
    | false ↦ (k, out)
  ]

  -- One iteration: hash, take the snapshots due, and feed the digest back unless it is the last.
  unfoldable pub walk_step : ℕ → ℕ → Walk → Walk
  walk_step maxit it s =
      let digest = a.hash s.msg in
      let (k, out) = snapshot (length iters) (it + 1) (digest_row a digest) s.k s.out in
      record {
        msg = if ltb (it + 1) maxit then write_at 0 digest s.msg else s.msg;
        k = k;
        out = out;
      }

  -- The count of the last rung, `iters[n_iters - 1]`.
  unfoldable pub max_iters : ℕ
  max_iters = get_or iters (length iters - 1) 0

  unfoldable pub walk_message : List ℕ → List Row → List Row
  walk_message msg out =
      (for_range max_iters 0 (walk_step max_iters) (record { msg = msg; k = 0; out = out })).out

-- `memory_ok` says whether the allocation of the message succeeds.
unfoldable pub reference_checksums : Bool → Algorithm → ℕ → ℕ → ℕ → List ℕ → List Row
reference_checksums memory_ok a start count message_bytes iters =
    let cleared = replicate (length iters) zero_row in
    if memory_ok && ltb 0 (length iters)
    then for_range count 0
        (λ n out. walk_message a iters (build_message (u32 (start + u32 n)) message_bytes) out)
        cleared
    else cleared

-- One checkpoint is the general case with one rung.
unfoldable pub reference_checksum : Bool → Algorithm → ℕ → ℕ → ℕ → ℕ → Row
unfolding reference_checksums
reference_checksum memory_ok a start count message_bytes iterations =
    get_or (reference_checksums memory_ok a start count message_bytes (iterations ∷ [])) 0 zero_row
