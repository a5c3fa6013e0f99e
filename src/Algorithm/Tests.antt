-- ===== src/Algorithm/Tests.antt =====
-- The descriptors' theorems at concrete inputs.
use valubench.Prelude.{◌+◌, ◌*◌, ◌≤◌, ◌<◌, ◌≡◌, refl, arith}
use valubench.Algorithm.{md5_alg, sha512_alg, blocks_for}
use valubench.Algorithm.Blocks.{is_sha512, blocks_for_least}

-- The default workload fills one block, and a byte more would take a second.
default_fits : blocks_for md5_alg 55 ≡ 1
unfolding blocks_for
default_fits = refl

one_more : blocks_for md5_alg 56 ≡ 2
unfolding blocks_for
one_more = refl

blocks_for_least_example :
    (200 + 1 + 16 ≤ blocks_for sha512_alg 200 * 128)
    × (blocks_for sha512_alg 200 * 128 < 200 + 1 + 16 + 128)
blocks_for_least_example = blocks_for_least sha512_alg 200 is_sha512 (omega arith)
