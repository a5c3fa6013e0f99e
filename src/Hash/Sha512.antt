-- ===== src/Hash/Sha512.antt =====
-- src/reference/sha512.c and include/sha512_const.h: the compression function and the engine.
mod Tests
pub mod Law
use valubench.Prelude.{ℕ, ◌+◌, ◌-◌, ◌*◌, bit_and, bit_xor, u64, ◌>>>◌}
use valubench.Prelude.{List, [], ◌∷◌, ◌++◌, get_or, map, concat, for_range}
use valubench.Hash.Bytes.{not64, rotr64, load_be64, store_be64}
use valubench.Hash.Stream
use valubench.Hash.Stream.{Engine, Ctx}

abbrev pub sha512_k : List ℕ
sha512_k =
    0x428a2f98d728ae22 ∷ 0x7137449123ef65cd ∷ 0xb5c0fbcfec4d3b2f ∷ 0xe9b5dba58189dbbc
    ∷ 0x3956c25bf348b538 ∷ 0x59f111f1b605d019 ∷ 0x923f82a4af194f9b ∷ 0xab1c5ed5da6d8118
    ∷ 0xd807aa98a3030242 ∷ 0x12835b0145706fbe ∷ 0x243185be4ee4b28c ∷ 0x550c7dc3d5ffb4e2
    ∷ 0x72be5d74f27b896f ∷ 0x80deb1fe3b1696b1 ∷ 0x9bdc06a725c71235 ∷ 0xc19bf174cf692694
    ∷ 0xe49b69c19ef14ad2 ∷ 0xefbe4786384f25e3 ∷ 0x0fc19dc68b8cd5b5 ∷ 0x240ca1cc77ac9c65
    ∷ 0x2de92c6f592b0275 ∷ 0x4a7484aa6ea6e483 ∷ 0x5cb0a9dcbd41fbd4 ∷ 0x76f988da831153b5
    ∷ 0x983e5152ee66dfab ∷ 0xa831c66d2db43210 ∷ 0xb00327c898fb213f ∷ 0xbf597fc7beef0ee4
    ∷ 0xc6e00bf33da88fc2 ∷ 0xd5a79147930aa725 ∷ 0x06ca6351e003826f ∷ 0x142929670a0e6e70
    ∷ 0x27b70a8546d22ffc ∷ 0x2e1b21385c26c926 ∷ 0x4d2c6dfc5ac42aed ∷ 0x53380d139d95b3df
    ∷ 0x650a73548baf63de ∷ 0x766a0abb3c77b2a8 ∷ 0x81c2c92e47edaee6 ∷ 0x92722c851482353b
    ∷ 0xa2bfe8a14cf10364 ∷ 0xa81a664bbc423001 ∷ 0xc24b8b70d0f89791 ∷ 0xc76c51a30654be30
    ∷ 0xd192e819d6ef5218 ∷ 0xd69906245565a910 ∷ 0xf40e35855771202a ∷ 0x106aa07032bbd1b8
    ∷ 0x19a4c116b8d2d0c8 ∷ 0x1e376c085141ab53 ∷ 0x2748774cdf8eeb99 ∷ 0x34b0bcb5e19b48a8
    ∷ 0x391c0cb3c5c95a63 ∷ 0x4ed8aa4ae3418acb ∷ 0x5b9cca4f7763e373 ∷ 0x682e6ff3d6b2b8a3
    ∷ 0x748f82ee5defb2fc ∷ 0x78a5636f43172f60 ∷ 0x84c87814a1f0ab72 ∷ 0x8cc702081a6439ec
    ∷ 0x90befffa23631e28 ∷ 0xa4506cebde82bde9 ∷ 0xbef9a3f7b2c67915 ∷ 0xc67178f2e372532b
    ∷ 0xca273eceea26619c ∷ 0xd186b8c721c0c207 ∷ 0xeada7dd6cde0eb1e ∷ 0xf57d4f7fee6ed178
    ∷ 0x06f067aa72176fba ∷ 0x0a637dc5a2c898a6 ∷ 0x113f9804bef90dae ∷ 0x1b710b35131c471b
    ∷ 0x28db77f523047d84 ∷ 0x32caab7b40c72493 ∷ 0x3c9ebe0a15c9bebc ∷ 0x431d67c49c100d4c
    ∷ 0x4cc5d4becb3e42b6 ∷ 0x597f299cfc657e2a ∷ 0x5fcb6fab3ad6faec ∷ 0x6c44198c4a475817 ∷ []

abbrev pub sha512_iv : List ℕ
sha512_iv =
    0x6a09e667f3bcc908 ∷ 0xbb67ae8584caa73b ∷ 0x3c6ef372fe94f82b ∷ 0xa54ff53a5f1d36f1
    ∷ 0x510e527fade682d1 ∷ 0x9b05688c2b3e6c1f ∷ 0x1f83d9abfb41bd6b ∷ 0x5be0cd19137e2179 ∷ []

unfoldable pub ch : ℕ → ℕ → ℕ → ℕ
ch x y z = bit_xor (bit_and x y) (bit_and (not64 x) z)

unfoldable pub maj : ℕ → ℕ → ℕ → ℕ
maj x y z = bit_xor (bit_xor (bit_and x y) (bit_and x z)) (bit_and y z)

unfoldable pub bsig0 : ℕ → ℕ
unfolding rotr64
bsig0 x = bit_xor (bit_xor (rotr64 x 28) (rotr64 x 34)) (rotr64 x 39)

unfoldable pub bsig1 : ℕ → ℕ
unfolding rotr64
bsig1 x = bit_xor (bit_xor (rotr64 x 14) (rotr64 x 18)) (rotr64 x 41)

unfoldable pub ssig0 : ℕ → ℕ
unfolding rotr64
ssig0 x = bit_xor (bit_xor (rotr64 x 1) (rotr64 x 8)) (x >>> 7)

unfoldable pub ssig1 : ℕ → ℕ
unfolding rotr64
ssig1 x = bit_xor (bit_xor (rotr64 x 19) (rotr64 x 61)) (x >>> 6)

pub record Regs : Type 0 where
  pub a : ℕ
  pub b : ℕ
  pub c : ℕ
  pub d : ℕ
  pub e : ℕ
  pub f : ℕ
  pub g : ℕ
  pub h : ℕ

-- `w[i]` for `16 ≤ i`, put at the end of the words before it.
unfoldable pub expand : ℕ → List ℕ → List ℕ
unfolding ssig0 ssig1
expand i w =
    let x = ssig1 (get_or w (i - 2) 0) + get_or w (i - 7) 0 in
    w ++ (u64 (x + ssig0 (get_or w (i - 15) 0) + get_or w (i - 16) 0) ∷ [])

unfoldable pub schedule : List ℕ → List ℕ
unfolding expand load_be64
schedule block =
    let w = for_range 16 0 (λ i w. w ++ (load_be64 block (i * 8) ∷ [])) [] in
    for_range 64 16 expand w

unfoldable pub sha512_step : List ℕ → ℕ → Regs → Regs
unfolding ch maj bsig0 bsig1
sha512_step w i r =
    let t1 = u64 (r.h + bsig1 r.e + ch r.e r.f r.g + get_or sha512_k i 0 + get_or w i 0) in
    let t2 = u64 (bsig0 r.a + maj r.a r.b r.c) in
    record {
      a = u64 (t1 + t2);
      b = r.a;
      c = r.b;
      d = r.c;
      e = u64 (r.d + t1);
      f = r.e;
      g = r.f;
      h = r.g;
    }

unfoldable pub sha512_compress : List ℕ → List ℕ → List ℕ
unfolding sha512_step schedule
sha512_compress state block =
    let w = schedule block in
    let at = λ (i : ℕ). get_or state i 0 in
    let start : Regs = record {
      a = at 0;
      b = at 1;
      c = at 2;
      d = at 3;
      e = at 4;
      f = at 5;
      g = at 6;
      h = at 7;
    } in
    let r = for_range 80 0 (sha512_step w) start in
    u64 (at 0 + r.a)
    ∷ u64 (at 1 + r.b)
    ∷ u64 (at 2 + r.c)
    ∷ u64 (at 3 + r.d)
    ∷ u64 (at 4 + r.e)
    ∷ u64 (at 5 + r.f)
    ∷ u64 (at 6 + r.g)
    ∷ u64 (at 7 + r.h)
    ∷ []

-- The length field is 16 bytes: a high half that is always zero, and the bit length.
abbrev pub sha512_engine : Engine
sha512_engine = record {
  block_len = 128;
  length_len = 16;
  iv = sha512_iv;
  compress = sha512_compress;
  store_length = λ bit_len. store_be64 0 ++ store_be64 bit_len;
  store_state = λ state. concat (map store_be64 state);
}

-- `sha512 (data, len, digest)`.
unfoldable pub sha512 : Ctx → List ℕ → List ℕ
sha512 ctx msg = Stream.hash sha512_engine ctx msg
