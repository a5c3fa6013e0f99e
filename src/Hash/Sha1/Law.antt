-- ===== src/Hash/Sha1/Law.antt =====
-- The engine of src/reference/sha1.c meets what the streaming theorems ask of it.
use valubench.Prelude.{refl, arith}
use valubench.Hash.Sha1.{sha1_engine}
use valubench.Hash.Stream.Spec.{IsEngine}
use valubench.Hash.Bytes.{store_be64_words}

pub sha1-IsEngine : IsEngine sha1_engine
unfolding store_be64_words
sha1-IsEngine = record {
  length_pos = omega arith;
  length_fits = omega arith;
  length-store_length = λ n. refl;
}
