-- ===== src/Workload/Threads/Exact.antt =====
-- The split is exact: whatever the machine does, the rows are those of the single-threaded walk.
use valubench.Prelude.{ℕ}
use valubench.Prelude.{List}
use valubench.Algorithm.{Algorithm}
use valubench.Workload.Reference.Rows.{Row}
use valubench.Workload.Threads.{Machine, xor_rows, settled}

module _ (machine : Machine) (a : Algorithm) (start count bytes : ℕ) (iters : List ℕ)
    (threads : ℕ) where
  abbrev add_part : ℕ → List Row → List Row
  add_part i sum = xor_rows sum (settled machine a start count bytes iters threads i)
