-- ===== src/Workload/Message.antt =====
-- Messages and their padding, and the words of a padded block.
pub mod Distinct
use valubench.Prelude.{ℕ, ◌+◌, ◌-◌, ◌*◌, ◌^◌, bit_or, ltb, if◌then◌else◌, not, ◌&&◌}
use valubench.Prelude.{
  u8, u32, u64, ◌<<<◌, ◌>>>◌, List, [], ◌∷◌, ◌++◌, length, replicate, write_at, for_range,
}
use valubench.Hash.Bytes.{byte_at}
use valubench.Algorithm.{Algorithm}

unfoldable pub pattern_byte : ℕ → ℕ
pattern_byte offset = u8 (u32 (u32 (offset * 0x9d) + 0x3b))

-- How many leading bytes carry the index.
unfoldable pub index_bytes : ℕ → ℕ
index_bytes bytes = if ltb bytes 4 then bytes else 4

-- The bytes that the two loops write, in order.
unfoldable pub write_index : ℕ → ℕ → List ℕ
write_index index n = for_range n 0 (λ i out. out ++ (u8 (index >>> (8 * i)) ∷ [])) []

unfoldable pub write_pattern : ℕ → ℕ → List ℕ → List ℕ
write_pattern count n out = for_range count n (λ i out. out ++ (pattern_byte i ∷ [])) out

unfoldable pub build_message : ℕ → ℕ → List ℕ
unfolding write_index write_pattern
build_message index bytes =
    let n = index_bytes bytes in write_pattern (bytes - n) n (write_index index n)

unfoldable pub distinct_messages : ℕ → ℕ
unfolding index_bytes
distinct_messages bytes = 2 ^ (8 * index_bytes bytes)

-- The eight bytes of the length, in the algorithm's order.
unfoldable pub length_field : Algorithm → ℕ → List ℕ
length_field a bit_len =
    for_range 8 0
      (λ i lf.
        lf
        ++ ((if a.big_endian then u8 (bit_len >>> (56 - 8 * i)) else u8 (bit_len >>> (8 * i)))
            ∷ []))
      []

-- `total` is at least `bytes + 1 + length_bytes`, by the caller's block count.
unfoldable pub pad_message : Algorithm → List ℕ → ℕ → List ℕ
unfolding length_field
pad_message a msg blocks =
    let bytes = length msg in
    let total = blocks * a.block_bytes in
    let bit_len = u64 (bytes * 8) in
    let lf = length_field a bit_len in
    let zeroed = msg ++ (0x80 ∷ replicate (total - bytes - 1) 0) in
    let out = write_at (total - 8) lf zeroed in
    if not a.big_endian && ltb 8 a.length_bytes
    then write_at (total - a.length_bytes) lf out
    else out

unfoldable pub load_word : Algorithm → List ℕ → ℕ → ℕ
load_word a p off =
    if a.big_endian
    then for_range a.word_bytes 0 (λ i v. bit_or (u64 (v <<< 8)) (byte_at p (off + i))) 0
    else for_range a.word_bytes 0 (λ i v. bit_or v (u64 (byte_at p (off + i) <<< (8 * i)))) 0
