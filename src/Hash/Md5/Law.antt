-- ===== src/Hash/Md5/Law.antt =====
-- The engine of src/reference/md5.c meets what the streaming theorems ask of it.
use valubench.Prelude.{refl, arith}
use valubench.Hash.Md5.{md5_engine}
use valubench.Hash.Stream.Spec.{IsEngine}
use valubench.Hash.Bytes.{store_le64}

pub md5-IsEngine : IsEngine md5_engine
unfolding store_le64
md5-IsEngine = record {
  length_pos = omega arith;
  length_fits = omega arith;
  length-store_length = λ n. refl;
}
