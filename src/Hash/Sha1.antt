-- ===== src/Hash/Sha1.antt =====
-- src/reference/sha1.c: the compression function and the engine.
mod Tests
pub mod Law
use valubench.Prelude.{ℕ, ◌+◌, ◌-◌, ◌*◌, ◌/◌, bit_and, bit_or, bit_xor, u32, ◌==◌, if◌then◌else◌}
use valubench.Prelude.{List, [], ◌∷◌, ◌++◌, get_or, map, concat, for_range}
use valubench.Hash.Bytes.{not32, rotl32, load_be32, store_be32, store_be64_words}
use valubench.Hash.Stream
use valubench.Hash.Stream.{Engine, Ctx}

abbrev pub sha1_k : List ℕ
sha1_k = 0x5a827999 ∷ 0x6ed9eba1 ∷ 0x8f1bbcdc ∷ 0xca62c1d6 ∷ []

abbrev pub sha1_iv : List ℕ
sha1_iv = 0x67452301 ∷ 0xefcdab89 ∷ 0x98badcfe ∷ 0x10325476 ∷ 0xc3d2e1f0 ∷ []

pub record Regs : Type 0 where
  pub a : ℕ
  pub b : ℕ
  pub c : ℕ
  pub d : ℕ
  pub e : ℕ

-- `w[i]` for `16 ≤ i`, put at the end of the words before it.
unfoldable pub expand : ℕ → List ℕ → List ℕ
unfolding rotl32
expand i w =
    let x = bit_xor (get_or w (i - 3) 0) (get_or w (i - 8) 0) in
    let y = bit_xor (bit_xor x (get_or w (i - 14) 0)) (get_or w (i - 16) 0) in
    w ++ (rotl32 y 1 ∷ [])

unfoldable pub schedule : List ℕ → List ℕ
unfolding expand load_be32
schedule block =
    let w = for_range 16 0 (λ i w. w ++ (load_be32 block (i * 4) ∷ [])) [] in
    for_range 64 16 expand w

-- `switch (g)`: Ch, Maj, and Parity twice.
unfoldable pub round_fn : ℕ → ℕ → ℕ → ℕ → ℕ
round_fn g b c d =
    if g == 0
    then bit_or (bit_and b c) (bit_and (not32 b) d)
    else if g == 2
    then bit_or (bit_or (bit_and b c) (bit_and b d)) (bit_and c d)
    else bit_xor (bit_xor b c) d

unfoldable pub sha1_step : List ℕ → ℕ → Regs → Regs
unfolding round_fn rotl32
sha1_step w i r =
    let g = i / 20 in
    let f = round_fn g r.b r.c r.d in
    let t = u32 (rotl32 r.a 5 + f + r.e + get_or sha1_k g 0 + get_or w i 0) in
    record { a = t; b = r.a; c = rotl32 r.b 30; d = r.c; e = r.d }

unfoldable pub sha1_compress : List ℕ → List ℕ → List ℕ
unfolding sha1_step schedule
sha1_compress state block =
    let w = schedule block in
    let a = get_or state 0 0 in
    let b = get_or state 1 0 in
    let c = get_or state 2 0 in
    let d = get_or state 3 0 in
    let e = get_or state 4 0 in
    let r = for_range 80 0 (sha1_step w) (record { a = a; b = b; c = c; d = d; e = e }) in
    u32 (a + r.a) ∷ u32 (b + r.b) ∷ u32 (c + r.c) ∷ u32 (d + r.d) ∷ u32 (e + r.e) ∷ []

abbrev pub sha1_engine : Engine
sha1_engine = record {
  block_len = 64;
  length_len = 8;
  iv = sha1_iv;
  compress = sha1_compress;
  store_length = store_be64_words;
  store_state = λ state. concat (map store_be32 state);
}

-- `sha1 (data, len, digest)`.
unfoldable pub sha1 : Ctx → List ℕ → List ℕ
sha1 ctx msg = Stream.hash sha1_engine ctx msg
