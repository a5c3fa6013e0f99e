-- ===== src/Hash/Sha1/Tests.antt =====
-- Known answers of tests/test_hashes.c, from a context that holds leftovers.
use valubench.Prelude.{◌≡◌, refl, [], ◌∷◌, replicate}
use valubench.Hash.Stream.{Ctx, hash, final, update, init, absorb, top_up, take_len}
use valubench.Hash.Stream.{compress_blocks, terminate, spill, finish}
use valubench.Hash.Bytes.{store_be32, store_be64_words}
use valubench.Hash.Sha1.{sha1, sha1_engine, sha1_compress}

abbrev fresh : Ctx
fresh = record { state = []; total_len = 99; buf = replicate 64 7; buf_len = 5 }

sha1_empty :
    sha1 fresh []
    ≡ 0xda ∷ 0x39 ∷ 0xa3 ∷ 0xee ∷ 0x5e ∷ 0x6b ∷ 0x4b ∷ 0x0d ∷ 0x32 ∷ 0x55 ∷ 0xbf ∷ 0xef ∷ 0x95
      ∷ 0x60 ∷ 0x18 ∷ 0x90 ∷ 0xaf ∷ 0xd8 ∷ 0x07 ∷ 0x09 ∷ []
unfolding sha1 hash final update init absorb top_up take_len compress_blocks terminate spill finish
    sha1_compress store_be32 store_be64_words
sha1_empty = refl

sha1_abc :
    sha1 fresh (0x61 ∷ 0x62 ∷ 0x63 ∷ [])
    ≡ 0xa9 ∷ 0x99 ∷ 0x3e ∷ 0x36 ∷ 0x47 ∷ 0x06 ∷ 0x81 ∷ 0x6a ∷ 0xba ∷ 0x3e ∷ 0x25 ∷ 0x71 ∷ 0x78
      ∷ 0x50 ∷ 0xc2 ∷ 0x6c ∷ 0x9c ∷ 0xd0 ∷ 0xd8 ∷ 0x9d ∷ []
unfolding sha1 hash final update init absorb top_up take_len compress_blocks terminate spill finish
    sha1_compress store_be32 store_be64_words
sha1_abc = refl

-- A message that needs a second block for its length field.
sha1_two_blocks :
    sha1 fresh (replicate 57 0x61)
    ≡ 0xf0 ∷ 0x8f ∷ 0x24 ∷ 0x90 ∷ 0x8d ∷ 0x68 ∷ 0x25 ∷ 0x55 ∷ 0x11 ∷ 0x1b ∷ 0xe7 ∷ 0xff ∷ 0x6f
      ∷ 0x00 ∷ 0x4e ∷ 0x78 ∷ 0x28 ∷ 0x3d ∷ 0x98 ∷ 0x9a ∷ []
unfolding sha1 hash final update init absorb top_up take_len compress_blocks terminate spill finish
    sha1_compress store_be32 store_be64_words
sha1_two_blocks = refl

-- Two updates that meet inside a block.
sha1_pieces :
    (final sha1_engine (
      update sha1_engine
        (update sha1_engine (init sha1_engine fresh) (replicate 10 0x61))
        (replicate 128 0x61))).1
    ≡ 0x7e ∷ 0xeb ∷ 0xda ∷ 0x1e ∷ 0x4e ∷ 0xf5 ∷ 0x02 ∷ 0x54 ∷ 0xd5 ∷ 0xe8 ∷ 0x06 ∷ 0xcc ∷ 0xd1
      ∷ 0x8c ∷ 0x6a ∷ 0xc7 ∷ 0x50 ∷ 0x66 ∷ 0xbb ∷ 0xba ∷ []
unfolding final update init absorb top_up take_len compress_blocks terminate spill finish
    sha1_compress store_be32 store_be64_words
sha1_pieces = refl
