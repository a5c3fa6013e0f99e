-- ===== src/Hash/Md5.antt =====
-- src/reference/md5.c: the compression function and the engine.
mod Tests
pub mod Law
use valubench.Prelude.{ℕ, ◌+◌, ◌*◌, ◌/◌, ◌%◌, bit_and, bit_or, bit_xor, u32, ◌==◌, if◌then◌else◌}
use valubench.Prelude.{List, [], ◌∷◌, ◌++◌, get_or, map, concat, for_range}
use valubench.Hash.Bytes.{not32, rotl32, load_le32, store_le32, store_le64}
use valubench.Hash.Stream
use valubench.Hash.Stream.{Engine, Ctx}

unfoldable pub md5_f : ℕ → ℕ → ℕ → ℕ
md5_f x y z = bit_or (bit_and x y) (bit_and (not32 x) z)

unfoldable pub md5_g : ℕ → ℕ → ℕ → ℕ
md5_g x y z = bit_or (bit_and x z) (bit_and y (not32 z))

unfoldable pub md5_h : ℕ → ℕ → ℕ → ℕ
md5_h x y z = bit_xor (bit_xor x y) z

unfoldable pub md5_i : ℕ → ℕ → ℕ → ℕ
md5_i x y z = bit_xor y (bit_or x (not32 z))

abbrev pub md5_t : List ℕ
md5_t =
    0xd76aa478 ∷ 0xe8c7b756 ∷ 0x242070db ∷ 0xc1bdceee ∷ 0xf57c0faf ∷ 0x4787c62a ∷ 0xa8304613
    ∷ 0xfd469501 ∷ 0x698098d8 ∷ 0x8b44f7af ∷ 0xffff5bb1 ∷ 0x895cd7be ∷ 0x6b901122 ∷ 0xfd987193
    ∷ 0xa679438e ∷ 0x49b40821 ∷ 0xf61e2562 ∷ 0xc040b340 ∷ 0x265e5a51 ∷ 0xe9b6c7aa ∷ 0xd62f105d
    ∷ 0x02441453 ∷ 0xd8a1e681 ∷ 0xe7d3fbc8 ∷ 0x21e1cde6 ∷ 0xc33707d6 ∷ 0xf4d50d87 ∷ 0x455a14ed
    ∷ 0xa9e3e905 ∷ 0xfcefa3f8 ∷ 0x676f02d9 ∷ 0x8d2a4c8a ∷ 0xfffa3942 ∷ 0x8771f681 ∷ 0x6d9d6122
    ∷ 0xfde5380c ∷ 0xa4beea44 ∷ 0x4bdecfa9 ∷ 0xf6bb4b60 ∷ 0xbebfbc70 ∷ 0x289b7ec6 ∷ 0xeaa127fa
    ∷ 0xd4ef3085 ∷ 0x04881d05 ∷ 0xd9d4d039 ∷ 0xe6db99e5 ∷ 0x1fa27cf8 ∷ 0xc4ac5665 ∷ 0xf4292244
    ∷ 0x432aff97 ∷ 0xab9423a7 ∷ 0xfc93a039 ∷ 0x655b59c3 ∷ 0x8f0ccc92 ∷ 0xffeff47d ∷ 0x85845dd1
    ∷ 0x6fa87e4f ∷ 0xfe2ce6e0 ∷ 0xa3014314 ∷ 0x4e0811a1 ∷ 0xf7537e82 ∷ 0xbd3af235 ∷ 0x2ad7d2bb
    ∷ 0xeb86d391 ∷ []

-- The four amounts of each round.
abbrev pub md5_s : List (List ℕ)
md5_s =
    (7 ∷ 12 ∷ 17 ∷ 22 ∷ [])
    ∷ (5 ∷ 9 ∷ 14 ∷ 20 ∷ [])
    ∷ (4 ∷ 11 ∷ 16 ∷ 23 ∷ [])
    ∷ (6 ∷ 10 ∷ 15 ∷ 21 ∷ [])
    ∷ []

-- The working registers.
pub record Regs : Type 0 where
  pub a : ℕ
  pub b : ℕ
  pub c : ℕ
  pub d : ℕ

-- `switch (round)`: the function of the step, and the index of its message word.
unfoldable pub round_fn : ℕ → ℕ → ℕ → ℕ → ℕ
unfolding md5_f md5_g md5_h md5_i
round_fn round x y z =
    if round == 0
    then md5_f x y z
    else if round == 1
    then md5_g x y z
    else if round == 2
    then md5_h x y z
    else md5_i x y z

unfoldable pub word_index : ℕ → ℕ → ℕ
word_index round i =
    if round == 0
    then i
    else if round == 1
    then (5 * i + 1) % 16
    else if round == 2
    then (3 * i + 5) % 16
    else (7 * i) % 16

-- One turn of the loop over the 64 steps.
unfoldable pub md5_step : List ℕ → ℕ → Regs → Regs
unfolding round_fn word_index rotl32
md5_step m i r =
    let round = i / 16 in
    let f = round_fn round r.b r.c r.d in
    let sum = u32 (r.a + f + get_or m (word_index round i) 0 + get_or md5_t i 0) in
    let s = get_or (get_or md5_s round []) (i % 4) 0 in
    record { a = r.d; b = u32 (r.b + rotl32 sum s); c = r.b; d = r.c }

unfoldable pub load_words : List ℕ → List ℕ
unfolding load_le32
load_words block = for_range 16 0 (λ i m. m ++ (load_le32 block (i * 4) ∷ [])) []

unfoldable pub md5_compress : List ℕ → List ℕ → List ℕ
unfolding md5_step load_words
md5_compress state block =
    let m = load_words block in
    let a = get_or state 0 0 in
    let b = get_or state 1 0 in
    let c = get_or state 2 0 in
    let d = get_or state 3 0 in
    let r = for_range 64 0 (md5_step m) (record { a = a; b = b; c = c; d = d }) in
    u32 (a + r.a) ∷ u32 (b + r.b) ∷ u32 (c + r.c) ∷ u32 (d + r.d) ∷ []

abbrev pub md5_engine : Engine
md5_engine = record {
  block_len = 64;
  length_len = 8;
  iv = 0x67452301 ∷ 0xefcdab89 ∷ 0x98badcfe ∷ 0x10325476 ∷ [];
  compress = md5_compress;
  store_length = store_le64;
  store_state = λ state. concat (map store_le32 state);
}

-- `md5 (data, len, digest)`.
unfoldable pub md5 : Ctx → List ℕ → List ℕ
md5 ctx msg = Stream.hash md5_engine ctx msg
