-- ===== src/Kernel/Sha/Built.antt =====
-- A kernel of the frame on the corpus that src/workload.c builds.
use valubench.Prelude.{
  ℕ, ◌+◌, ◌-◌, ◌*◌, ◌%◌, ◌^◌, ◌≤◌, ◌<◌, ◌≡◌, sym, ap, ap₂, ◌∙◌, arith, u32, u64,
}
use valubench.Prelude.{true, some, List, ◌∷◌, ◌++◌, length, replicate}
use mathlib.Core.Path.{subst}
use native.Mathlib.Nat.{mul-mod_left}
use valubench.Hash.Stream.{Engine}
use valubench.Hash.Stream.Spec.{pad, block_count}
use valubench.Algorithm.{Algorithm, blocks_for}
use valubench.Algorithm.Blocks.{IsAlgorithm}
use valubench.Workload.Message.{build_message, pad_message}
use valubench.Workload.Padding.{engine_of, pad_message-pad}
use valubench.Workload.Bytes.{
  AllBytes, append-AllBytes, zeros-AllBytes, build_message-AllBytes, length-build_message,
}
use valubench.Workload.Corpus.{Corpus, Memory, padded_message, corpus_build, word_at, cast_word}
use valubench.Workload.Corpus.Layout.{word_of, corpus_build-layout}
use valubench.Workload.Reference.{digest_row, reference_checksum}
use valubench.Workload.Reference.Ladder.{reference_checksum-checksum}
use valubench.Kernel.Isa.{Simd}
use valubench.Kernel.Sha.{Rounds, S, sha_kernel}
use valubench.Kernel.Sha.Streams.{IsState, Computes}
use valubench.Kernel.Sha.Codec.{IsCodec}
use valubench.Kernel.Sha.Exact.{sha_kernel-checksum}

module _ (v : Simd) (r : Rounds v.Vec) (g : Algorithm) (known : IsAlgorithm g) (n wb w : ℕ)
    (load : List ℕ → ℕ → ℕ) (store : ℕ → List ℕ) (c : Computes v r (engine_of g.id) n wb w load)
    (codec : IsCodec g wb w load store)
    (rows : (st : List ℕ) → IsState n w st → digest_row g ((engine_of g.id).store_state st) ≡ st)
    (length_bytes : (k : ℕ) → AllBytes ((engine_of g.id).store_length k))
    (blocks_same : g.block_bytes ≡ (engine_of g.id).block_len)
    (words_same : g.word_bytes ≡ wb) where
  abbrev e : Engine
  e = engine_of g.id

  pad-AllBytes : (msg : List ℕ) → AllBytes msg → AllBytes (pad e msg)
  pad-AllBytes msg all =
      let k = length msg in
      let zeros = block_count e k * e.block_len - k - 1 - e.length_len in
      append-AllBytes msg (0x80 ∷ (replicate zeros 0 ++ e.store_length (u64 (k * 8)))) all (
        omega arith,
        append-AllBytes (replicate zeros 0) (e.store_length (u64 (k * 8))) (zeros-AllBytes zeros)
            (length_bytes (u64 (k * 8))),
      )

  padded_message-AllBytes :
      (start bytes m : ℕ)
      → bytes < 2 ^ 32 - 256
      → AllBytes (padded_message g start bytes (blocks_for g bytes) m)
  unfolding padded_message
  padded_message-AllBytes start bytes m short =
      let index = u32 (start + u32 m) in
      let msg = build_message index bytes in
      let size = length-build_message index bytes in
      subst AllBytes
        (sym (pad_message-pad g msg known (omega (arith, size)))
          ∙ ap (λ k. pad_message g msg (blocks_for g k)) size)
        (pad-AllBytes msg (build_message-AllBytes index bytes))

  -- What the kernel loads of a stored word.
  word_of-load :
      (p : List ℕ) (b j : ℕ)
      → AllBytes p
      → word_of g p b j % 2 ^ w ≡ load p (b * e.block_len + j * wb)
  word_of-load p b j all =
      ap (λ x. cast_word g x % 2 ^ w) (codec.joins p (b * g.block_bytes + j * g.word_bytes) all)
      ∙ codec.cast p (b * g.block_bytes + j * g.word_bytes) all
      ∙ ap₂ (λ x y. load p (b * x + j * y)) blocks_same words_same

  pub sha_kernel-reference_checksum :
      (unset : S v r) (mem : Memory) (streams n_groups start bytes t : ℕ)
      → v.lanes < 2 ^ 32
      → 0 < streams
      → 0 < n_groups
      → n * wb ≤ bytes
      → bytes < 2 ^ 32 - 256
      → 0 < t
      → n_groups * streams * v.lanes * blocks_for g bytes * 16 < 2 ^ 64
      → (q : Corpus) × (corpus_build true mem g v.lanes start (n_groups * streams * v.lanes) bytes
          ≡ some q)
        × (sha_kernel v r q.words unset streams n_groups q.blocks t
            ≡ reference_checksum true g start (n_groups * streams * v.lanes) bytes t)
  sha_kernel-reference_checksum unset mem streams n_groups start bytes t narrow ss gs long short
        some_iterations fits =
      let count = n_groups * streams * v.lanes in
      let (q, built, sized, words) =
        corpus_build-layout mem g v.lanes start count bytes c.some_lanes narrow some_messages
          (mul-mod_left (n_groups * streams) v.lanes) fits in
      (
        q,
        built,
        ap (λ blocks. sha_kernel v r q.words unset streams n_groups blocks t) sized
            ∙ sha_kernel-checksum v r g known n wb w load c rows narrow unset streams n_groups start
                bytes t long short some_iterations q.words
                (λ k b j hk hb hj.
                  ap (λ x. x % 2 ^ w)
                    (subst
                      (λ blocks.
                        (k b j : ℕ)
                        → k < count
                        → b < blocks
                        → j < 16
                        → q.words (word_at v.lanes blocks k b j)
                          ≡ word_of g (padded_message g start bytes blocks k) b j)
                      sized (λ k b j hk hb hj. (words k b j hk hb hj).0) k b j hk hb hj)
                  ∙ word_of-load (padded_message g start bytes (blocks_for g bytes) k) b j
                      (padded_message-AllBytes start bytes k short))
                fits
            ∙ sym (reference_checksum-checksum g start count bytes t some_iterations),
      )
    where
      some_messages : 0 < n_groups * streams * v.lanes
      some_messages = grind (arith, c.some_lanes)
