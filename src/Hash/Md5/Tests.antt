-- ===== src/Hash/Md5/Tests.antt =====
-- Known answers of tests/test_hashes.c, from a context that holds leftovers.
use valubench.Prelude.{◌≡◌, refl, [], ◌∷◌, replicate}
use valubench.Hash.Stream.{Ctx, hash, final, update, init, absorb, top_up, take_len}
use valubench.Hash.Stream.{compress_blocks, terminate, spill, finish}
use valubench.Hash.Bytes.{store_le32, store_le64}
use valubench.Hash.Md5.{md5, md5_engine, md5_compress}

abbrev fresh : Ctx
fresh = record { state = []; total_len = 99; buf = replicate 64 7; buf_len = 5 }

md5_empty :
    md5 fresh []
    ≡ 0xd4 ∷ 0x1d ∷ 0x8c ∷ 0xd9 ∷ 0x8f ∷ 0x00 ∷ 0xb2 ∷ 0x04 ∷ 0xe9 ∷ 0x80 ∷ 0x09 ∷ 0x98 ∷ 0xec
      ∷ 0xf8 ∷ 0x42 ∷ 0x7e ∷ []
unfolding md5 hash final update init absorb top_up take_len compress_blocks terminate spill finish
    md5_compress store_le32 store_le64
md5_empty = refl

md5_abc :
    md5 fresh (0x61 ∷ 0x62 ∷ 0x63 ∷ [])
    ≡ 0x90 ∷ 0x01 ∷ 0x50 ∷ 0x98 ∷ 0x3c ∷ 0xd2 ∷ 0x4f ∷ 0xb0 ∷ 0xd6 ∷ 0x96 ∷ 0x3f ∷ 0x7d ∷ 0x28
      ∷ 0xe1 ∷ 0x7f ∷ 0x72 ∷ []
unfolding md5 hash final update init absorb top_up take_len compress_blocks terminate spill finish
    md5_compress store_le32 store_le64
md5_abc = refl

-- A message that needs a second block for its length field.
md5_two_blocks :
    md5 fresh (replicate 57 0x61)
    ≡ 0x65 ∷ 0x2b ∷ 0x90 ∷ 0x6d ∷ 0x60 ∷ 0xaf ∷ 0x96 ∷ 0x84 ∷ 0x4e ∷ 0xbd ∷ 0x21 ∷ 0xb6 ∷ 0x74
      ∷ 0xf3 ∷ 0x5e ∷ 0x93 ∷ []
unfolding md5 hash final update init absorb top_up take_len compress_blocks terminate spill finish
    md5_compress store_le32 store_le64
md5_two_blocks = refl

-- Two updates that meet inside a block.
md5_pieces :
    (final md5_engine (
      update md5_engine
        (update md5_engine (init md5_engine fresh) (replicate 10 0x61))
        (replicate 128 0x61))).1
    ≡ 0x55 ∷ 0xb6 ∷ 0x2f ∷ 0xab ∷ 0xd9 ∷ 0xc7 ∷ 0x7d ∷ 0x44 ∷ 0xd8 ∷ 0x6e ∷ 0x99 ∷ 0x2e ∷ 0xee
      ∷ 0xb0 ∷ 0x93 ∷ 0xe6 ∷ []
unfolding final update init absorb top_up take_len compress_blocks terminate spill finish
    md5_compress store_le32 store_le64
md5_pieces = refl
