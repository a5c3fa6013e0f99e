-- ===== src/Hash/Sha512/Law.antt =====
-- The engine of src/reference/sha512.c meets what the streaming theorems ask of it.
use valubench.Prelude.{refl, arith}
use valubench.Hash.Sha512.{sha512_engine}
use valubench.Hash.Stream.Spec.{IsEngine}
use valubench.Hash.Bytes.{store_be64}

pub sha512-IsEngine : IsEngine sha512_engine
unfolding store_be64
sha512-IsEngine = record {
  length_pos = omega arith;
  length_fits = omega arith;
  length-store_length = λ n. refl;
}
