-- ===== src/Hash/Bytes.antt =====
-- The loads, stores and rotates that md5.c, sha1.c and sha512.c of src/reference define for
-- themselves. A load reads `p + off`; a store gives the bytes that it writes.
use valubench.Prelude.{ℕ, ◌+◌, ◌-◌, ◌*◌, ◌%◌, bit_or, bit_xor, u8, u32, u64, ◌<<<◌, ◌>>>◌}
use valubench.Prelude.{List, [], ◌∷◌, ◌++◌, get_or, for_range}

abbrev pub byte_at : List ℕ → ℕ → ℕ
byte_at p i = get_or p i 0

-- `~x` at the two widths.
abbrev pub not32 : ℕ → ℕ
not32 x = bit_xor x 0xffff_ffff

abbrev pub not64 : ℕ → ℕ
not64 x = bit_xor x 0xffff_ffff_ffff_ffff

-- The count `(32 - s) & 31` is that of the source, written as a remainder.
unfoldable pub rotl32 : ℕ → ℕ → ℕ
rotl32 v s = bit_or (u32 (v <<< s)) (v >>> ((32 - s) % 32))

unfoldable pub rotr64 : ℕ → ℕ → ℕ
rotr64 v s = bit_or (v >>> s) (u64 (v <<< ((64 - s) % 64)))

unfoldable pub load_le32 : List ℕ → ℕ → ℕ
load_le32 p off =
    bit_or
      (bit_or (bit_or (byte_at p off) (byte_at p (off + 1) <<< 8)) (byte_at p (off + 2) <<< 16))
      (byte_at p (off + 3) <<< 24)

unfoldable pub store_le32 : ℕ → List ℕ
store_le32 v = u8 v ∷ u8 (v >>> 8) ∷ u8 (v >>> 16) ∷ u8 (v >>> 24) ∷ []

unfoldable pub store_le64 : ℕ → List ℕ
unfolding store_le32
store_le64 v = store_le32 (u32 v) ++ store_le32 (u32 (v >>> 32))

unfoldable pub load_be32 : List ℕ → ℕ → ℕ
load_be32 p off =
    bit_or
      (bit_or (bit_or (byte_at p off <<< 24) (byte_at p (off + 1) <<< 16))
        (byte_at p (off + 2) <<< 8))
      (byte_at p (off + 3))

unfoldable pub store_be32 : ℕ → List ℕ
store_be32 v = u8 (v >>> 24) ∷ u8 (v >>> 16) ∷ u8 (v >>> 8) ∷ u8 v ∷ []

-- `store_be64` of sha1.c, by two words.
unfoldable pub store_be64_words : ℕ → List ℕ
unfolding store_be32
store_be64_words v = store_be32 (u32 (v >>> 32)) ++ store_be32 (u32 v)

unfoldable pub load_be64 : List ℕ → ℕ → ℕ
load_be64 p off = for_range 8 0 (λ i v. bit_or (u64 (v <<< 8)) (byte_at p (off + i))) 0

-- `store_be64` of sha512.c, by a loop.
unfoldable pub store_be64 : ℕ → List ℕ
store_be64 v = for_range 8 0 (λ i out. out ++ (u8 (v >>> (56 - 8 * i)) ∷ [])) []
