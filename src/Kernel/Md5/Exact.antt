-- ===== src/Kernel/Md5/Exact.antt =====
-- The kernel on a corpus gives the reference checksum of its messages.
use valubench.Prelude.{
  ℕ, zero, suc, ◌+◌, ◌-◌, ◌*◌, ◌%◌, ◌^◌, ◌≤◌, ◌<◌, ◌≡◌, refl, sym, ap, ap₂, ◌∙◌, arith,
}
use valubench.Prelude.{u32, true, some, List, ◌∷◌, get_or, replicate, for_range, ◌==◌, false}
use mathlib.Core.Path.{subst}
use native.Mathlib.Nat.{mul-mod_left}
use valubench.Bits.Fold.{xor_range}
use valubench.Hash.Bytes.{load_le32}
use valubench.Algorithm.{md5_alg, blocks_for}
use valubench.Algorithm.Blocks.{is_md5, blocks_for_least}
use valubench.Workload.Corpus.{Corpus, Memory, padded_message, corpus_build, word_at, cast_word}
use valubench.Workload.Corpus.Index.{mix_lt, mix_div, word_at-exact}
use valubench.Workload.Corpus.Layout.{word_of, corpus_build-layout}
use valubench.Workload.Message.{build_message, pad_message}
use valubench.Workload.Padding.{pad_message-pad}
use valubench.Workload.Bytes.{
  AllBytes, pad-AllBytes, build_message-AllBytes, length-build_message, load_word-load_le32,
  load_le32-lt,
}
use valubench.Workload.Reference.{reference_checksum}
use valubench.Workload.Reference.Ladder.{reference_checksum-checksum}
use valubench.Kernel.Ops.{Ops, IsOps}
use valubench.Kernel.Md5.{Quad, pick, load_head, load_slot, run_group, fold_lanes, md5_kernel}
use valubench.Kernel.Md5.Blocks.{pick-load_head, state_of}
use valubench.Kernel.Md5.Iterations.{iterations-state_after}
use valubench.Kernel.Md5.Checksum.{finished, fold_lanes-xor_range}
use valubench.Kernel.Md5.Reference.{message_state, state_word, xor_words, checksum-xor_words}

padded_message-AllBytes :
    (start bytes m : ℕ)
    → bytes < 2 ^ 32 - 256
    → AllBytes (padded_message md5_alg start bytes (blocks_for md5_alg bytes) m)
unfolding padded_message
padded_message-AllBytes start bytes m short =
    let index = u32 (start + u32 m) in
    let msg = build_message index bytes in
    let size = length-build_message index bytes in
    subst AllBytes
      (sym (pad_message-pad md5_alg msg is_md5 (omega (arith, size)))
        ∙ ap (λ k. pad_message md5_alg msg (blocks_for md5_alg k)) size)
      (pad-AllBytes msg (build_message-AllBytes index bytes))

word_of-load_le32 :
    (p : List ℕ) (b j : ℕ) → AllBytes p → u32 (word_of md5_alg p b j) ≡ load_le32 p (b * 64 + j * 4)
unfolding cast_word
word_of-load_le32 p b j all =
    let off = b * 64 + j * 4 in omega (arith, load_word-load_le32 p off all, load_le32-lt p off all)

-- The lane and the slot of message `m * lanes + l`.
pub address :
    (lanes blocks n m l b j : ℕ)
    → l < lanes
    → lanes < 2 ^ 32
    → n * lanes * blocks * 16 < 2 ^ 64
    → m < n
    → b < blocks
    → j < 16
    → word_at lanes blocks (m * lanes + l) b j
      ≡ m * (blocks * 16 * lanes) + b * (16 * lanes) + j * lanes + l
address lanes blocks n m l b j hl small fits hm hb hj =
    word_at-exact lanes blocks (n * lanes) (omega arith) small (mul-mod_left n lanes) fits
      (m * lanes + l) b j (mix_lt m l n lanes hm hl) hb hj
    ∙ ap₂ (λ q r. ((q * blocks + b) * 16 + j) * lanes + r) (mix_div m l lanes hl) rem
    ∙ omega arith
  where
    rem : (m * lanes + l) % lanes ≡ l
    rem = grind (arith, mix_div m l lanes hl)

lt→==0 : (n : ℕ) → 0 < n → (n == 0) ≡ false
lt→==0 n h = ground arith

module _ (o : Ops) (ok : IsOps o) (narrow : o.lanes < 2 ^ 32) (unset : Quad o.Vec)
    (streams n_groups start bytes t : ℕ) (long : 16 ≤ bytes) (short : bytes < 2 ^ 32 - 256)
    (some_iterations : 0 < t) (c : Corpus) (sized : c.blocks ≡ blocks_for md5_alg bytes) where
  abbrev pub slots : ℕ
  slots = n_groups * streams

  abbrev pub n_blocks : ℕ
  n_blocks = blocks_for md5_alg bytes

  abbrev pub message : ℕ → List ℕ
  message k = padded_message md5_alg start bytes n_blocks k

  -- The corpus holds the words of every padded message.
  abbrev pub Stored : Type 0
  Stored =
      (k b j : ℕ)
      → k < slots * o.lanes
      → b < n_blocks
      → j < 16
      → c.words (word_at o.lanes n_blocks k b j) ≡ word_of md5_alg (message k) b j

  module _ (stored : Stored) (fits : slots * o.lanes * n_blocks * 16 < 2 ^ 64) where
    -- What the kernel's load finds at a word of message `m * lanes + l`.
    found :
        (m l b j : ℕ)
        → m < slots
        → l < o.lanes
        → b < n_blocks
        → j < 16
        → u32 (c.words (m * (n_blocks * 16 * o.lanes) + b * (16 * o.lanes) + j * o.lanes + l))
          ≡ load_le32 (message (m * o.lanes + l)) (b * 64 + j * 4)
    found m l b j hm hl hb hj =
        ap (λ k. u32 (c.words k))
          (sym (address o.lanes n_blocks slots m l b j hl narrow fits hm hb hj))
        ∙ ap u32 (stored (m * o.lanes + l) b j (mix_lt m l slots o.lanes hm hl) hb hj)
        ∙ word_of-load_le32 (message (m * o.lanes + l)) b j
            (padded_message-AllBytes start bytes (m * o.lanes + l) short)

    some_blocks : 0 < n_blocks
    some_blocks = omega (arith, blocks_for_least md5_alg bytes is_md5 short)

    finished-message_state :
        (m l : ℕ) (inside : l < o.lanes)
        → m < slots
        → state_of o c.words ok l inside (finished o c.words unset streams n_blocks t m).h
          ≡ message_state start bytes t long short (m * o.lanes + l)
    unfolding load_slot
    finished-message_state m l inside hm =
        iterations-state_after o c.words ok l inside (m * (n_blocks * 16 * o.lanes)) n_blocks
          (message (m * o.lanes + l)) t (load_slot o c.words unset n_blocks m) some_iterations refl
          head (λ b j hb hj which. found m l b j hm inside hb hj)
      where
        at : ℕ
        at = m * (n_blocks * 16 * o.lanes)

        head :
            (j : ℕ)
            → j < 4
            → o.store (pick (load_head o c.words at) j) l
              ≡ load_le32 (message (m * o.lanes + l)) (j * 4)
        head j hj =
            ap (λ v. o.store v l) (pick-load_head o c.words at j hj)
            ∙ ok.on_load c.words (at + j * o.lanes) l inside
            ∙ ap (λ k. u32 (c.words k)) {y = at + 0 * (16 * o.lanes) + j * o.lanes + l}
                (omega arith)
            ∙ found m l 0 j hm inside some_blocks (omega arith)
            ∙ ap (load_le32 (message (m * o.lanes + l))) (omega arith)

    word-state_word :
        (j m l : ℕ)
        → j < 4
        → m < slots
        → l < o.lanes
        → o.store (pick (finished o c.words unset streams n_blocks t m).h j) l
          ≡ state_word start bytes t long short j (m * o.lanes + l)
    word-state_word j m l small hm inside =
        pick-state_of j (finished o c.words unset streams n_blocks t m).h small
        ∙ ap (λ st. get_or st j 0) (finished-message_state m l inside hm)
      where
        pick-state_of :
            (j : ℕ) (q : Quad o.Vec)
            → j < 4
            → o.store (pick q j) l ≡ get_or (state_of o c.words ok l inside q) j 0
        pick-state_of zero q h = refl
        pick-state_of (suc zero) q h = refl
        pick-state_of (suc (suc zero)) q h = refl
        pick-state_of (suc (suc (suc zero))) q h = refl
        pick-state_of (suc (suc (suc (suc j)))) q h = absurd (omega arith)

    -- Word `j` of the result.
    result_word :
        (j : ℕ) (acc : Quad o.Vec)
        → j < 4
        → ((l : ℕ) → l < o.lanes → o.store (pick acc j) l ≡ 0)
        → fold_lanes o
            (pick (for_range n_groups 0 (run_group o c.words unset streams n_blocks t) acc) j)
          ≡ xor_range (slots * o.lanes) (state_word start bytes t long short j)
    result_word j acc small empty =
        fold_lanes-xor_range o c.words unset streams n_blocks t ok n_groups j acc
          (state_word start bytes t long short j) small empty
          (λ m l hm hl. word-state_word j m l small hm hl)

    pub kernel-xor_words :
        md5_kernel o c.words unset streams n_groups n_blocks t
        ≡ xor_words start bytes t long short (slots * o.lanes)
    unfolding md5_kernel
    kernel-xor_words =
        let zero_lane : (l : ℕ) → l < o.lanes → o.store (o.set1 0) l ≡ 0 =
          λ l h. ok.on_set1 0 l h in
        let start_acc : Quad o.Vec = record {
          a = o.set1 0;
          b = o.set1 0;
          c = o.set1 0;
          d = o.set1 0;
        } in
        rw (lt→==0 t some_iterations, lt→==0 n_blocks some_blocks)
          (ap₂ ◌∷◌ (result_word 0 start_acc (omega arith) zero_lane) (
            ap₂ ◌∷◌ (result_word 1 start_acc (omega arith) zero_lane) (
              ap₂ ◌∷◌ (result_word 2 start_acc (omega arith) zero_lane)
                (ap (λ w. w ∷ replicate 4 0) (result_word 3 start_acc (omega arith) zero_lane)))))

-- Over any operations that work lane by lane on fewer than 2 ^ 32 lanes, with at least one stream
-- and one group, messages of 16 to 2 ^ 32 - 257 bytes, at least one iteration, and a corpus whose
-- size a `size_t` holds: the corpus is built, and the kernel's checksum of it is the reference
-- checksum of its messages.
pub md5_kernel-reference_checksum :
    (o : Ops) (unset : Quad o.Vec) (mem : Memory) (streams n_groups start bytes t : ℕ)
    → IsOps o
    → o.lanes < 2 ^ 32
    → 0 < streams
    → 0 < n_groups
    → 16 ≤ bytes
    → bytes < 2 ^ 32 - 256
    → 0 < t
    → n_groups * streams * o.lanes * blocks_for md5_alg bytes * 16 < 2 ^ 64
    → (c : Corpus) × (corpus_build true mem md5_alg o.lanes start
          (n_groups * streams * o.lanes)
          bytes
        ≡ some c)
      × (md5_kernel o c.words unset streams n_groups c.blocks t
          ≡ reference_checksum true md5_alg start (n_groups * streams * o.lanes) bytes t)
md5_kernel-reference_checksum o unset mem streams n_groups start bytes t ok narrow ss gs long short
      some_iterations fits =
    let n = n_groups * streams * o.lanes in
    let (c, built, sized, words) =
      corpus_build-layout mem md5_alg o.lanes start n bytes ok.some_lanes narrow some_messages
        (mul-mod_left (n_groups * streams) o.lanes) fits in
    (
      c,
      built,
      ap (λ blocks. md5_kernel o c.words unset streams n_groups blocks t) sized
          ∙ kernel-xor_words o ok narrow unset streams n_groups start bytes t long short
              some_iterations c sized
              (subst
                (λ blocks.
                  (k b j : ℕ)
                  → k < n
                  → b < blocks
                  → j < 16
                  → c.words (word_at o.lanes blocks k b j)
                    ≡ word_of md5_alg (padded_message md5_alg start bytes blocks k) b j)
                sized (λ k b j hk hb hj. (words k b j hk hb hj).0))
              fits
          ∙ sym (
              reference_checksum-checksum md5_alg start n bytes t some_iterations
              ∙ checksum-xor_words start bytes t long short n),
    )
  where
    some_messages : 0 < n_groups * streams * o.lanes
    some_messages = grind (arith, ok.some_lanes)
