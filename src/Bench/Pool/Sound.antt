-- ===== src/Bench/Pool/Sound.antt =====
-- `pool_run`: what a verified run says.
use valubench.Bench.Pool.{Pool}
