-- ===== src/Kernel/Sha1/Exact.antt =====
-- The SHA-1 kernel on a corpus gives the reference checksum of its messages.
use valubench.Prelude.{ℕ, ◌+◌, ◌-◌, ◌*◌, ◌^◌, ◌≤◌, ◌<◌, ◌≡◌, refl, ap, ap₂, ◌∙◌, arith, u32, ◌>>>◌}
use valubench.Prelude.{true, some, List, [], ◌∷◌, length, map, drop, concat}
use valubench.Hash.Bytes.{load_be32, store_be32, store_be64_words}
use valubench.Hash.Big.{load_be32-ReadsOnly, load_be32-store_be32, loop-load_be32, load_be32-lt}
use valubench.Hash.Sha1.{sha1_engine, sha1_compress, sha1_iv}
use valubench.Algorithm.{sha1_alg, blocks_for}
use valubench.Algorithm.Blocks.{is_sha1}
use valubench.Workload.Message.{load_word}
use valubench.Workload.Bytes.{AllBytes, append-AllBytes, byte_at-lt}
use valubench.Workload.Corpus.{Corpus, Memory, corpus_build, cast_word}
use valubench.Workload.Reference.{reference_checksum}
use valubench.Kernel.Isa.{Simd, IsSimd}
use valubench.Kernel.Sha.{S}
use valubench.Kernel.Sha.Streams.{IsState, Computes, AllBelow-at}
use valubench.Kernel.Sha.Codec.{
  IsCodec, load-block, load-past, length-stored, load-stored, digest_row-stored,
}
use valubench.Kernel.Sha.Built.{sha_kernel-reference_checksum}
use valubench.Kernel.Sha1.{Sha1Ops, IsSha1Ops, sha1_rounds, sha1_kernel}
use valubench.Kernel.Sha1.Schedule.{first_words}
use valubench.Kernel.Sha1.Blocks.{block-sha1_compress}

store_be32-AllBytes : (x : ℕ) → AllBytes (store_be32 x)
unfolding store_be32
store_be32-AllBytes x = (omega arith, (omega arith, (omega arith, (omega arith, tt))))

length_field-AllBytes : (k : ℕ) → AllBytes (sha1_engine.store_length k)
unfolding store_be64_words
length_field-AllBytes k =
    append-AllBytes (store_be32 (u32 (k >>> 32))) (store_be32 (u32 k))
      (store_be32-AllBytes (u32 (k >>> 32))) (store_be32-AllBytes (u32 k))

sha1-IsCodec : IsCodec sha1_alg 4 32 load_be32 store_be32
unfolding store_be32 load_word cast_word
sha1-IsCodec = record {
  reads = load_be32-ReadsOnly;
  length_store = λ x. refl;
  store_bytes = store_be32-AllBytes;
  load_store = load_be32-store_be32;
  joins = λ p off all. loop-load_be32 p off (λ i. byte_at-lt p i all);
  cast = λ p off all. omega (arith, load_be32-lt p off (λ i. byte_at-lt p i all));
}

sha1_iv-IsState : IsState 5 32 sha1_iv
sha1_iv-IsState = record {
  size = refl;
  small = λ j.
      AllBelow-at (2 ^ 32) sha1_iv j (omega arith)
        (omega arith, (omega arith, (omega arith, (omega arith, (omega arith, tt)))));
}

sha1_compress-IsState : (st block : List ℕ) → IsState 5 32 (sha1_compress st block)
unfolding sha1_compress
sha1_compress-IsState st block = record {
  size = refl;
  small = λ j.
      AllBelow-at (2 ^ 32) (sha1_compress st block) j (omega arith)
        (omega arith, (omega arith, (omega arith, (omega arith, (omega arith, tt)))));
}

sha1-Computes :
    (v : Simd) (o : Sha1Ops v)
    → IsSimd v
    → IsSha1Ops v o
    → Computes v (sha1_rounds v o) sha1_engine 5 4 32 load_be32
unfolding first_words
sha1-Computes v o simd ok = record {
  some_lanes = simd.some_lanes;
  bounded = simd.bounded;
  on_zero = λ l h. simd.on_set1 0 l h;
  on_xor = simd.on_xor;
  on_load = simd.on_load;
  few = omega arith;
  length_iv = refl;
  initial = λ l h. ap₂ ◌∷◌ (simd.on_set1 0x67452301 l h) (
      ap₂ ◌∷◌ (simd.on_set1 0xefcdab89 l h) (
        ap₂ ◌∷◌ (simd.on_set1 0x98badcfe l h) (
          ap₂ ◌∷◌ (simd.on_set1 0x10325476 l h) (ap (λ t. t ∷ []) (simd.on_set1 0xc3d2e1f0 l h)))));
  iv_state = sha1_iv-IsState;
  compress_state = sha1_compress-IsState;
  on_block = λ l block h x inside e. block-sha1_compress v o simd ok l inside block h x e;
  block_size = refl;
  load_block = load-block sha1-IsCodec;
  load_past = load-past sha1-IsCodec;
  length_stored = λ st h. length-stored sha1-IsCodec st ∙ ap (λ n. n * 4) h.size;
  load_stored = λ st p j h lt.
      load-stored sha1-IsCodec st (drop (0 + length (concat (map store_be32 st))) p) j h.small
        (omega (arith, lt, h.size));
}

-- Over any operations that work lane by lane on fewer than 2 ^ 32 lanes of 32 bits, with at least
-- one stream and one group, messages of 20 to 2 ^ 32 - 257 bytes, at least one iteration, and a
-- corpus whose size a `size_t` holds: the corpus is built, and the SHA-1 kernel's checksum of it is
-- the reference checksum of its messages.
pub sha1_kernel-reference_checksum :
    (v : Simd) (o : Sha1Ops v) (unset : S v (sha1_rounds v o)) (mem : Memory)
    (streams n_groups start bytes t : ℕ)
    → IsSimd v
    → IsSha1Ops v o
    → v.lanes < 2 ^ 32
    → 0 < streams
    → 0 < n_groups
    → 20 ≤ bytes
    → bytes < 2 ^ 32 - 256
    → 0 < t
    → n_groups * streams * v.lanes * blocks_for sha1_alg bytes * 16 < 2 ^ 64
    → (c : Corpus) × (corpus_build true mem sha1_alg v.lanes start
          (n_groups * streams * v.lanes)
          bytes
        ≡ some c)
      × (sha1_kernel v o c.words unset streams n_groups c.blocks t
          ≡ reference_checksum true sha1_alg start (n_groups * streams * v.lanes) bytes t)
unfolding sha1_kernel
sha1_kernel-reference_checksum v o unset mem streams n_groups start bytes t simd ok narrow ss gs
      long short some_iterations fits =
    sha_kernel-reference_checksum v (sha1_rounds v o) sha1_alg is_sha1 5 4 32 load_be32 store_be32
      (sha1-Computes v o simd ok) sha1-IsCodec
      (λ st h. digest_row-stored sha1-IsCodec 5 st refl refl h) length_field-AllBytes refl refl
      unset mem streams n_groups start bytes t narrow ss gs long short some_iterations fits
