-- ===== src/Workload/Reference/Spec.antt =====
-- What a reference checksum is: the XOR, over the messages of a range, of the words of the digest
-- at the end of the message's chain.
use valubench.Prelude.{ℕ, zero, suc, ◌+◌, ◌-◌, ◌≤◌, u32}
use valubench.Prelude.{List, [], ◌∷◌, write_at}
use valubench.Algorithm.{Algorithm}
use valubench.Workload.Message.{build_message}
use valubench.Workload.Reference.{digest_row}
use valubench.Workload.Reference.Rows.{Row, zero_row, xor_row}

module _ (a : Algorithm) where
  -- The message after `t` digests have been written over its head.
  abbrev pub chain : ℕ → List ℕ → List ℕ
  chain zero msg = msg
  chain (suc t) msg = write_at 0 (a.hash (chain t msg)) (chain t msg)

  -- The row of the digest after `t` iterations.
  abbrev pub digest_at : ℕ → List ℕ → Row
  digest_at t msg = digest_row a (a.hash (chain (t - 1) msg))

  -- What one message adds to the row of each rung.
  abbrev pub contribute : List ℕ → List ℕ → List Row → List Row
  contribute msg [] rows = []
  contribute msg (t ∷ ts) [] = []
  contribute msg (t ∷ ts) (row ∷ rows) = xor_row row (digest_at t msg) ∷ contribute msg ts rows

  -- The checksum of `count` messages from `start` on, at one iteration count.
  unfoldable pub checksum : ℕ → ℕ → ℕ → ℕ → Row
  checksum start zero message_bytes t = zero_row
  checksum start (suc count) message_bytes t =
      xor_row (checksum start count message_bytes t)
        (digest_at t (build_message (u32 (start + u32 count)) message_bytes))

-- Each count is at least the one before it, as `iters` must be; `lo` bounds the first.
abbrev pub Ascending : ℕ → List ℕ → Type 0
Ascending lo [] = Unit {0}
Ascending lo (t ∷ ts) = (lo ≤ t) × Ascending t ts

abbrev pub AllAtMost : ℕ → List ℕ → Type 0
AllAtMost hi [] = Unit {0}
AllAtMost hi (t ∷ ts) = (t ≤ hi) × AllAtMost hi ts
