-- ===== src/Kernel/Sha512/Exact.antt =====
-- The SHA-512 kernel on a corpus gives the reference checksum of its messages.
use valubench.Prelude.{ℕ, ◌+◌, ◌-◌, ◌*◌, ◌^◌, ◌≤◌, ◌<◌, ◌≡◌, refl, ap, ap₂, ◌∙◌, arith, u64}
use valubench.Prelude.{true, some, List, [], ◌∷◌, length, map, drop, concat}
use valubench.Hash.Bytes.{load_be64, store_be64}
use valubench.Hash.Big.{load_be64-ReadsOnly, load_be64-store_be64, load_be64-lt}
use valubench.Hash.Sha512.{sha512_engine, sha512_compress, sha512_iv}
use valubench.Algorithm.{sha512_alg, blocks_for}
use valubench.Algorithm.Blocks.{is_sha512}
use valubench.Workload.Message.{load_word}
use valubench.Workload.Bytes.{AllBytes, append-AllBytes, byte_at-lt}
use valubench.Workload.Corpus.{Corpus, Memory, corpus_build, cast_word}
use valubench.Workload.Reference.{reference_checksum}
use valubench.Kernel.Isa.{Simd}
use valubench.Kernel.Sha.{S}
use valubench.Kernel.Sha.Streams.{IsState, Computes, AllBelow-at}
use valubench.Kernel.Sha.Codec.{
  IsCodec, load-block, load-past, length-stored, load-stored, digest_row-stored,
}
use valubench.Kernel.Sha.Built.{sha_kernel-reference_checksum}
use valubench.Kernel.Sha512.{IsSimd64, Sha512Ops, IsSha512Ops, sha512_rounds, sha512_kernel}
use valubench.Kernel.Sha512.Schedule.{first_words}
use valubench.Kernel.Sha512.Blocks.{block-sha512_compress}

store_be64-AllBytes : (x : ℕ) → AllBytes (store_be64 x)
unfolding store_be64
store_be64-AllBytes x = (
  omega arith,
  (
    omega arith,
    (omega arith, (omega arith, (omega arith, (omega arith, (omega arith, (omega arith, tt)))))),
  ),
)

length_field-AllBytes : (k : ℕ) → AllBytes (sha512_engine.store_length k)
length_field-AllBytes k =
    append-AllBytes (store_be64 0) (store_be64 k) (store_be64-AllBytes 0) (store_be64-AllBytes k)

sha512-IsCodec : IsCodec sha512_alg 8 64 load_be64 store_be64
unfolding store_be64 load_be64 load_word cast_word
sha512-IsCodec = record {
  reads = load_be64-ReadsOnly;
  length_store = λ x. refl;
  store_bytes = store_be64-AllBytes;
  load_store = load_be64-store_be64;
  joins = λ p off all. refl;
  cast = λ p off all. omega (arith, load_be64-lt p off (λ i. byte_at-lt p i all));
}

sha512_iv-IsState : IsState 8 64 sha512_iv
sha512_iv-IsState = record {
  size = refl;
  small = λ j. AllBelow-at (2 ^ 64) sha512_iv j (omega arith) (
    omega arith,
    (
      omega arith,
      (omega arith, (omega arith, (omega arith, (omega arith, (omega arith, (omega arith, tt)))))),
    ),
  );
}

cut : (x : ℕ) → u64 x < 2 ^ 64
cut x = omega arith

sha512_compress-IsState : (st block : List ℕ) → IsState 8 64 (sha512_compress st block)
unfolding sha512_compress
sha512_compress-IsState st block = record {
  size = refl;
  small = λ j.
      AllBelow-at (2 ^ 64) (sha512_compress st block) j (omega arith)
        (cut _, (cut _, (cut _, (cut _, (cut _, (cut _, (cut _, (cut _, tt))))))));
}

sha512-Computes :
    (v : Simd) (o : Sha512Ops v)
    → IsSimd64 v
    → IsSha512Ops v o
    → Computes v (sha512_rounds v o) sha512_engine 8 8 64 load_be64
unfolding first_words
sha512-Computes v o simd ok = record {
  some_lanes = simd.some_lanes;
  bounded = simd.bounded;
  on_zero = λ l h. simd.on_set1 0 l h;
  on_xor = simd.on_xor;
  on_load = simd.on_load;
  few = omega arith;
  length_iv = refl;
  initial = λ l h. ap₂ ◌∷◌ (simd.on_set1 0x6a09e667f3bcc908 l h) (
      ap₂ ◌∷◌ (simd.on_set1 0xbb67ae8584caa73b l h) (
        ap₂ ◌∷◌ (simd.on_set1 0x3c6ef372fe94f82b l h) (
          ap₂ ◌∷◌ (simd.on_set1 0xa54ff53a5f1d36f1 l h) (
            ap₂ ◌∷◌ (simd.on_set1 0x510e527fade682d1 l h) (
              ap₂ ◌∷◌ (simd.on_set1 0x9b05688c2b3e6c1f l h) (
                ap₂ ◌∷◌ (simd.on_set1 0x1f83d9abfb41bd6b l h)
                  (ap (λ t. t ∷ []) (simd.on_set1 0x5be0cd19137e2179 l h))))))));
  iv_state = sha512_iv-IsState;
  compress_state = sha512_compress-IsState;
  on_block = λ l block h x inside e. block-sha512_compress v o simd ok l inside block h x e;
  block_size = refl;
  load_block = load-block sha512-IsCodec;
  load_past = load-past sha512-IsCodec;
  length_stored = λ st h. length-stored sha512-IsCodec st ∙ ap (λ n. n * 8) h.size;
  load_stored = λ st p j h lt.
      load-stored sha512-IsCodec st (drop (0 + length (concat (map store_be64 st))) p) j h.small
        (omega (arith, lt, h.size));
}

-- Over any operations that work lane by lane on fewer than 2 ^ 32 lanes of 64 bits, with at least
-- one stream and one group, messages of 64 to 2 ^ 32 - 257 bytes, at least one iteration, and a
-- corpus whose size a `size_t` holds: the corpus is built, and the SHA-512 kernel's checksum of it is
-- the reference checksum of its messages.
pub sha512_kernel-reference_checksum :
    (v : Simd) (o : Sha512Ops v) (unset : S v (sha512_rounds v o)) (mem : Memory)
    (streams n_groups start bytes t : ℕ)
    → IsSimd64 v
    → IsSha512Ops v o
    → v.lanes < 2 ^ 32
    → 0 < streams
    → 0 < n_groups
    → 64 ≤ bytes
    → bytes < 2 ^ 32 - 256
    → 0 < t
    → n_groups * streams * v.lanes * blocks_for sha512_alg bytes * 16 < 2 ^ 64
    → (c : Corpus) × (corpus_build true mem sha512_alg v.lanes start
          (n_groups * streams * v.lanes)
          bytes
        ≡ some c)
      × (sha512_kernel v o c.words unset streams n_groups c.blocks t
          ≡ reference_checksum true sha512_alg start (n_groups * streams * v.lanes) bytes t)
unfolding sha512_kernel
sha512_kernel-reference_checksum v o unset mem streams n_groups start bytes t simd ok narrow ss gs
      long short some_iterations fits =
    sha_kernel-reference_checksum v (sha512_rounds v o) sha512_alg is_sha512 8 8 64 load_be64
      store_be64 (sha512-Computes v o simd ok) sha512-IsCodec
      (λ st h. digest_row-stored sha512-IsCodec 8 st refl refl h) length_field-AllBytes refl refl
      unset mem streams n_groups start bytes t narrow ss gs long short some_iterations fits
