-- ===== src/Bench/Pool/Supplied.antt =====
-- `pool_run` with a supplied reference: the verdict is that of the XOR of the slices.
use valubench.Prelude.{ℕ, ◌+◌, ◌≡◌, Bool, true, false, if◌then◌else◌, Option, none, some}
use valubench.Bench.{same_row}
use valubench.Bench.Pool.{Worker, Pool, slice_reps}
use valubench.Workload.Reference.Rows.{Row}

-- What the kernel gives on a slice.
abbrev pub slice_row : Pool → Worker → Row
slice_row p w = p.k.run w.corpus w.groups p.blocks p.iterations

-- The worker after a repeat.
abbrev turn : Pool → ℕ → ℕ → Worker → Bool → Option Row → Bool → Worker
turn p n r w ok e first = elim ok [
  | false ↦ w
  | true ↦ slice_reps p n (r + 1) (elim e [
    | some row ↦
        if first
        then record w { checksum = slice_row p w }
        else record w { ok = same_row (slice_row p w) w.checksum }
    | none ↦ record w { ok = same_row (slice_row p w) w.expected }
  ])
]

module _ (p : Pool) (row : Row) (supplied : p.expected ≡ some row) where
  -- The worker has verified, and holds what the kernel gives.
  abbrev Holds : Worker → Worker → Type 0
  Holds w v = (v.ok ≡ true) × (v.checksum ≡ slice_row p w)
