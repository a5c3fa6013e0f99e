-- ===== src/Hash/Sha512/Tests.antt =====
-- Known answers of tests/test_hashes.c, from a context that holds leftovers.
use valubench.Prelude.{◌≡◌, refl, [], ◌∷◌, replicate}
use valubench.Hash.Stream.{Ctx, hash, final, update, init, absorb, top_up, take_len}
use valubench.Hash.Stream.{compress_blocks, terminate, spill, finish}
use valubench.Hash.Bytes.{store_be64}
use valubench.Hash.Sha512.{sha512, sha512_engine, sha512_compress}

abbrev fresh : Ctx
fresh = record { state = []; total_len = 99; buf = replicate 128 7; buf_len = 5 }

sha512_empty :
    sha512 fresh []
    ≡ 0xcf ∷ 0x83 ∷ 0xe1 ∷ 0x35 ∷ 0x7e ∷ 0xef ∷ 0xb8 ∷ 0xbd ∷ 0xf1 ∷ 0x54 ∷ 0x28 ∷ 0x50 ∷ 0xd6
      ∷ 0x6d ∷ 0x80 ∷ 0x07 ∷ 0xd6 ∷ 0x20 ∷ 0xe4 ∷ 0x05 ∷ 0x0b ∷ 0x57 ∷ 0x15 ∷ 0xdc ∷ 0x83 ∷ 0xf4
      ∷ 0xa9 ∷ 0x21 ∷ 0xd3 ∷ 0x6c ∷ 0xe9 ∷ 0xce ∷ 0x47 ∷ 0xd0 ∷ 0xd1 ∷ 0x3c ∷ 0x5d ∷ 0x85 ∷ 0xf2
      ∷ 0xb0 ∷ 0xff ∷ 0x83 ∷ 0x18 ∷ 0xd2 ∷ 0x87 ∷ 0x7e ∷ 0xec ∷ 0x2f ∷ 0x63 ∷ 0xb9 ∷ 0x31 ∷ 0xbd
      ∷ 0x47 ∷ 0x41 ∷ 0x7a ∷ 0x81 ∷ 0xa5 ∷ 0x38 ∷ 0x32 ∷ 0x7a ∷ 0xf9 ∷ 0x27 ∷ 0xda ∷ 0x3e ∷ []
unfolding sha512 hash final update init absorb top_up take_len compress_blocks terminate spill
    finish sha512_compress store_be64
sha512_empty = refl

sha512_abc :
    sha512 fresh (0x61 ∷ 0x62 ∷ 0x63 ∷ [])
    ≡ 0xdd ∷ 0xaf ∷ 0x35 ∷ 0xa1 ∷ 0x93 ∷ 0x61 ∷ 0x7a ∷ 0xba ∷ 0xcc ∷ 0x41 ∷ 0x73 ∷ 0x49 ∷ 0xae
      ∷ 0x20 ∷ 0x41 ∷ 0x31 ∷ 0x12 ∷ 0xe6 ∷ 0xfa ∷ 0x4e ∷ 0x89 ∷ 0xa9 ∷ 0x7e ∷ 0xa2 ∷ 0x0a ∷ 0x9e
      ∷ 0xee ∷ 0xe6 ∷ 0x4b ∷ 0x55 ∷ 0xd3 ∷ 0x9a ∷ 0x21 ∷ 0x92 ∷ 0x99 ∷ 0x2a ∷ 0x27 ∷ 0x4f ∷ 0xc1
      ∷ 0xa8 ∷ 0x36 ∷ 0xba ∷ 0x3c ∷ 0x23 ∷ 0xa3 ∷ 0xfe ∷ 0xeb ∷ 0xbd ∷ 0x45 ∷ 0x4d ∷ 0x44 ∷ 0x23
      ∷ 0x64 ∷ 0x3c ∷ 0xe8 ∷ 0x0e ∷ 0x2a ∷ 0x9a ∷ 0xc9 ∷ 0x4f ∷ 0xa5 ∷ 0x4c ∷ 0xa4 ∷ 0x9f ∷ []
unfolding sha512 hash final update init absorb top_up take_len compress_blocks terminate spill
    finish sha512_compress store_be64
sha512_abc = refl

-- A message that needs a second block for its length field.
sha512_two_blocks :
    sha512 fresh (replicate 121 0x61)
    ≡ 0x0a ∷ 0xe7 ∷ 0xa7 ∷ 0x97 ∷ 0x58 ∷ 0xa9 ∷ 0xff ∷ 0xbd ∷ 0x1c ∷ 0x04 ∷ 0xaa ∷ 0x08 ∷ 0x0b
      ∷ 0xfa ∷ 0x82 ∷ 0xda ∷ 0xf9 ∷ 0x64 ∷ 0x1f ∷ 0x9c ∷ 0x2a ∷ 0x1c ∷ 0xc8 ∷ 0x2b ∷ 0x62 ∷ 0x8c
      ∷ 0xbe ∷ 0x40 ∷ 0x06 ∷ 0xbd ∷ 0x47 ∷ 0x70 ∷ 0x1c ∷ 0x78 ∷ 0xe5 ∷ 0x02 ∷ 0x2d ∷ 0x2c ∷ 0xa5
      ∷ 0xca ∷ 0x53 ∷ 0x84 ∷ 0xd2 ∷ 0x6d ∷ 0x93 ∷ 0xfb ∷ 0x16 ∷ 0xd5 ∷ 0x95 ∷ 0xb9 ∷ 0x77 ∷ 0x5d
      ∷ 0xab ∷ 0x17 ∷ 0xc8 ∷ 0x8e ∷ 0xf3 ∷ 0x8e ∷ 0x4c ∷ 0xe9 ∷ 0xfd ∷ 0xac ∷ 0x4b ∷ 0x52 ∷ []
unfolding sha512 hash final update init absorb top_up take_len compress_blocks terminate spill
    finish sha512_compress store_be64
sha512_two_blocks = refl

-- Two updates that meet inside a block.
sha512_pieces :
    (final sha512_engine (
      update sha512_engine
        (update sha512_engine (init sha512_engine fresh) (replicate 10 0x61))
        (replicate 256 0x61))).1
    ≡ 0xe4 ∷ 0x9f ∷ 0x1d ∷ 0x67 ∷ 0x77 ∷ 0x7c ∷ 0xcb ∷ 0x72 ∷ 0xc9 ∷ 0xba ∷ 0x8a ∷ 0xd4 ∷ 0x31
      ∷ 0x1c ∷ 0xa3 ∷ 0x5f ∷ 0xd8 ∷ 0x7e ∷ 0x0e ∷ 0x4e ∷ 0x8f ∷ 0x99 ∷ 0x25 ∷ 0xa3 ∷ 0xf2 ∷ 0x1e
      ∷ 0x52 ∷ 0x27 ∷ 0xc7 ∷ 0x07 ∷ 0x42 ∷ 0xae ∷ 0xe4 ∷ 0xa3 ∷ 0xe0 ∷ 0x9e ∷ 0x0e ∷ 0x49 ∷ 0x89
      ∷ 0x55 ∷ 0xb1 ∷ 0x85 ∷ 0x7b ∷ 0xe6 ∷ 0x71 ∷ 0xcf ∷ 0x89 ∷ 0x3a ∷ 0xde ∷ 0xd3 ∷ 0x90 ∷ 0x3a
      ∷ 0x3d ∷ 0x6f ∷ 0x97 ∷ 0x51 ∷ 0xba ∷ 0x45 ∷ 0x5b ∷ 0x46 ∷ 0x9f ∷ 0x7a ∷ 0x20 ∷ 0x4a ∷ []
unfolding final update init absorb top_up take_len compress_blocks terminate spill finish
    sha512_compress store_be64
sha512_pieces = refl
