-- ===== src/Algorithm.antt =====
-- include/algorithm.h and src/algorithm.c: the descriptors of the three hash functions, and what the
-- harness derives from them.
pub mod Blocks
pub mod Table
mod Tests
use Prim.Native.String.{String}
use text.Mathlib.Text.{◌==◌ as str_eq}
use valubench.Prelude.{ℕ, ◌+◌, ◌-◌, ◌/◌, ◌^◌, Bool, true, false, if◌then◌else◌, leb, u32}
use valubench.Prelude.{Option, none, some, List, [], ◌∷◌, replicate, get_elem?}
use valubench.Hash.Stream.{Ctx}
use valubench.Hash.Md5
use valubench.Hash.Sha1
use valubench.Hash.Sha512

-- The values of the enumeration are 0, 1, 2 in this order.
pub data AlgId : Type 0 where
  md5 sha1 sha512 : AlgId

abbrev pub words_per_block : ℕ
words_per_block = 16

abbrev pub max_digest_words : ℕ
max_digest_words = 8

abbrev pub alg_count : ℕ
alg_count = 3

pub record Algorithm : Type 0 where
  pub id : AlgId
  pub name : String
  pub digest_words : ℕ
  pub digest_bytes : ℕ
  pub word_bytes : ℕ
  pub block_bytes : ℕ
  pub length_bytes : ℕ
  pub rounds : ℕ
  pub big_endian : Bool
  pub hash : List ℕ → List ℕ

-- The thunks' local context is not initialised: some context with a buffer of one block.
abbrev pub local_ctx : ℕ → Ctx
local_ctx block_len = record { state = []; total_len = 0; buf = replicate block_len 0; buf_len = 0 }

unfoldable pub md5_thunk : List ℕ → List ℕ
md5_thunk m = Md5.md5 (local_ctx 64) m

unfoldable pub sha1_thunk : List ℕ → List ℕ
sha1_thunk m = Sha1.sha1 (local_ctx 64) m

unfoldable pub sha512_thunk : List ℕ → List ℕ
sha512_thunk m = Sha512.sha512 (local_ctx 128) m

abbrev pub md5_alg : Algorithm
md5_alg = record {
  id = AlgId.md5;
  name = "md5";
  digest_words = 4;
  digest_bytes = 16;
  word_bytes = 4;
  block_bytes = 64;
  length_bytes = 8;
  rounds = 64;
  big_endian = false;
  hash = md5_thunk;
}

abbrev pub sha1_alg : Algorithm
sha1_alg = record {
  id = AlgId.sha1;
  name = "sha1";
  digest_words = 5;
  digest_bytes = 20;
  word_bytes = 4;
  block_bytes = 64;
  length_bytes = 8;
  rounds = 80;
  big_endian = true;
  hash = sha1_thunk;
}

abbrev pub sha512_alg : Algorithm
sha512_alg = record {
  id = AlgId.sha512;
  name = "sha512";
  digest_words = 8;
  digest_bytes = 64;
  word_bytes = 8;
  block_bytes = 128;
  length_bytes = 16;
  rounds = 80;
  big_endian = true;
  hash = sha512_thunk;
}

abbrev pub algs : List Algorithm
algs = md5_alg ∷ sha1_alg ∷ sha512_alg ∷ []

-- `none` is NULL. The enumeration's type is unsigned, so the test `id < 0` never holds.
unfoldable pub algorithm_by_id : ℕ → Option Algorithm
algorithm_by_id id = if leb alg_count id then none else get_elem? algs id

unfoldable pub find_by_name : String → List Algorithm → Option Algorithm
find_by_name name [] = none
find_by_name name (a ∷ rest) = if str_eq a.name name then some a else find_by_name name rest

unfoldable pub algorithm_by_name : String → Option Algorithm
unfolding find_by_name
algorithm_by_name name = find_by_name name algs

-- `vb_alg_blocks_for`, in `uint32_t` throughout.
unfoldable pub blocks_for : Algorithm → ℕ → ℕ
blocks_for a bytes =
    let per = a.block_bytes in
    let overhead = u32 (1 + a.length_bytes) in u32 (bytes + overhead + per + (2 ^ 32 - 1)) / per

unfoldable pub min_iter_bytes : Algorithm → ℕ
min_iter_bytes a = a.digest_bytes
