-- ===== src/Algorithm/Table.antt =====
-- Looking a descriptor up by id and by name.
use valubench.Prelude.{◌≡◌, some}
use valubench.Algorithm.{Algorithm}
use valubench.Algorithm.{algorithm_by_name}
use valubench.Algorithm.Blocks.{IsAlgorithm}

abbrev Agrees : Algorithm → Type 0
Agrees a = (algorithm_by_name a.name ≡ some a) × IsAlgorithm a
