-- ===== src/Algorithm/Blocks.antt =====
-- How many blocks a padded message takes.
use valubench.Prelude.{ℕ, ◌+◌, ◌-◌, ◌*◌, ◌^◌, ◌≤◌, ◌<◌, ◌≡◌, arith}
use valubench.Algorithm.{Algorithm, md5_alg, sha1_alg, sha512_alg, blocks_for}

-- A descriptor is one of the table's.
pub data IsAlgorithm : Algorithm → Type 0 where
  is_md5 : IsAlgorithm md5_alg
  is_sha1 : IsAlgorithm sha1_alg
  is_sha512 : IsAlgorithm sha512_alg

-- For every length below 2 ^ 32 - 256, `vb_alg_blocks_for` is the least number of blocks that hold
-- the message, its terminator and the length field: that many blocks hold them, and one less
-- does not.
pub blocks_for_least :
    (a : Algorithm) (bytes : ℕ)
    → IsAlgorithm a
    → bytes < 2 ^ 32 - 256
    → (bytes + 1 + a.length_bytes ≤ blocks_for a bytes * a.block_bytes)
      × (blocks_for a bytes * a.block_bytes < bytes + 1 + a.length_bytes + a.block_bytes)
unfolding blocks_for
blocks_for_least a bytes is_md5 h = (omega arith, omega arith)
blocks_for_least a bytes is_sha1 h = (omega arith, omega arith)
blocks_for_least a bytes is_sha512 h = (omega arith, omega arith)

-- Every block is sixteen words, and a digest is a whole number of words.
pub geometry :
    (a : Algorithm)
    → IsAlgorithm a
    → (16 * a.word_bytes ≡ a.block_bytes)
      × (a.digest_words * a.word_bytes ≡ a.digest_bytes)
      × (a.digest_words ≤ 8)
geometry a is_md5 = omega arith
geometry a is_sha1 = omega arith
geometry a is_sha512 = omega arith
