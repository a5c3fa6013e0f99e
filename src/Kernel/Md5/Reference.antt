-- ===== src/Kernel/Md5/Reference.antt =====
-- The kernel on a corpus gives the reference checksum of its messages.
use valubench.Prelude.{
  ℕ, zero, suc, ◌+◌, ◌-◌, ◌^◌, ◌≤◌, ◌<◌, ◌≡◌, refl, sym, ap, ap₂, ◌∙◌, arith, bit_xor,
}
use valubench.Prelude.{u32, List, ◌∷◌, get_or, replicate}
use mathlib.Core.Path.{subst}
use valubench.Bits.Fold.{xor_range}
use valubench.Algorithm.{md5_alg, blocks_for}
use valubench.Workload.Message.{build_message, pad_message}
use valubench.Workload.Corpus.{padded_message}
use valubench.Workload.Bytes.{length-build_message}
use valubench.Workload.Reference.Rows.{Row, xor_row}
use valubench.Workload.Reference.Spec.{digest_at, checksum}
use valubench.Kernel.Md5.Iterations.{state_after, fed}
use valubench.Kernel.Md5.Digest.{IsState, state_after-IsState, digest_at-state_after}

-- A state added to the first four words of a row.
xor_state :
    (x y z w : ℕ) (st : List ℕ)
    → IsState st
    → xor_row (x ∷ y ∷ z ∷ w ∷ replicate 4 0) st
      ≡ bit_xor x (get_or st 0 0)
        ∷ bit_xor y (get_or st 1 0)
        ∷ bit_xor z (get_or st 2 0)
        ∷ bit_xor w (get_or st 3 0)
        ∷ replicate 4 0
xor_state x y z w st h =
    subst
      (λ st.
        xor_row (x ∷ y ∷ z ∷ w ∷ replicate 4 0) st
        ≡ bit_xor x (get_or st 0 0)
          ∷ bit_xor y (get_or st 1 0)
          ∷ bit_xor z (get_or st 2 0)
          ∷ bit_xor w (get_or st 3 0)
          ∷ replicate 4 0)
      (sym h.words) refl

module _ (start bytes t : ℕ) (long : 16 ≤ bytes) (short : bytes < 2 ^ 32 - 256) where
  abbrev n_blocks : ℕ
  n_blocks = blocks_for md5_alg bytes

  -- The state of message `n` at the end.
  abbrev pub message_state : ℕ → List ℕ
  message_state n =
      state_after n_blocks (fed n_blocks (t - 1) (padded_message md5_alg start bytes n_blocks n))

  abbrev pub state_word : ℕ → ℕ → ℕ
  state_word j n = get_or (message_state n) j 0

  digest_at-message_state :
      (n : ℕ) → digest_at md5_alg t (build_message (u32 (start + u32 n)) bytes) ≡ message_state n
  unfolding padded_message
  digest_at-message_state n =
      let msg = build_message (u32 (start + u32 n)) bytes in
      let size = length-build_message (u32 (start + u32 n)) bytes in
      digest_at-state_after msg (omega (arith, size)) (omega (arith, size)) t
      ∙ ap
          (λ k.
            state_after (blocks_for md5_alg k)
              (fed (blocks_for md5_alg k) (t - 1) (pad_message md5_alg msg (blocks_for md5_alg k))))
          size

  -- The reference checksum, word by word.
  abbrev pub xor_words : ℕ → Row
  xor_words count =
      xor_range count (state_word 0)
      ∷ xor_range count (state_word 1)
      ∷ xor_range count (state_word 2)
      ∷ xor_range count (state_word 3)
      ∷ replicate 4 0

  xor_words-suc :
      (count : ℕ) → xor_row (xor_words count) (message_state count) ≡ xor_words (suc count)
  xor_words-suc count =
      let p = padded_message md5_alg start bytes n_blocks count in
      xor_state (xor_range count (state_word 0)) (xor_range count (state_word 1))
        (xor_range count (state_word 2)) (xor_range count (state_word 3)) (message_state count)
        (state_after-IsState n_blocks (fed n_blocks (t - 1) p))

  pub checksum-xor_words : (count : ℕ) → checksum md5_alg start count bytes t ≡ xor_words count
  unfolding checksum
  checksum-xor_words zero = refl
  checksum-xor_words (suc count) =
      ap₂ xor_row (checksum-xor_words count) (digest_at-message_state count) ∙ xor_words-suc count
