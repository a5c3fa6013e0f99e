-- ===== src/Kernel/Sha/Reference.antt =====
-- A reference checksum, word by word.
use valubench.Prelude.{
  ℕ, zero, suc, ◌+◌, ◌-◌, ◌*◌, ◌^◌, ◌≤◌, ◌<◌, ◌≡◌, refl, sym, ap, ap₂, ◌∙◌, arith, bit_xor,
}
use valubench.Prelude.{u32, List, [], ◌∷◌, length, get_or, replicate, length-replicate}
use valubench.Bits.Fold.{xor_range}
use valubench.Bits.Xor.{xor-zero}
use valubench.Algorithm.{Algorithm, blocks_for}
use valubench.Algorithm.Blocks.{IsAlgorithm}
use valubench.Workload.Message.{build_message, pad_message}
use valubench.Workload.Padding.{engine_of}
use valubench.Workload.Corpus.{padded_message}
use valubench.Workload.Bytes.{length-build_message}
use valubench.Workload.Reference.{digest_row}
use valubench.Workload.Reference.Rows.{Row, xor_row, length-xor_row}
use valubench.Workload.Reference.Spec.{digest_at, checksum}
use valubench.Kernel.Isa.{Simd}
use valubench.Kernel.Sha.{Rounds}
use valubench.Kernel.Sha.Streams.{IsState, Computes}
use valubench.Kernel.Sha.Iterations.{state_after, fed}
use valubench.Kernel.Sha.Digest.{digest_at-state_after}

get_or-xor_row :
    (x y : Row) (j : ℕ)
    → j < length x
    → get_or (xor_row x y) j 0 ≡ bit_xor (get_or x j 0) (get_or y j 0)
get_or-xor_row [] y j h = absurd (omega arith)
get_or-xor_row (a ∷ x) [] j h = sym (xor-zero (get_or (a ∷ x) j 0))
get_or-xor_row (a ∷ x) (b ∷ y) zero h = refl
get_or-xor_row (a ∷ x) (b ∷ y) (suc j) h = get_or-xor_row x y j (omega arith)

pub get_or-zeros : (n j : ℕ) → get_or {A = ℕ} (replicate n 0) j 0 ≡ 0
get_or-zeros zero j = refl
get_or-zeros (suc n) zero = refl
get_or-zeros (suc n) (suc j) = get_or-zeros n j

pub length-checksum :
    (g : Algorithm) (start count bytes t : ℕ) → length (checksum g start count bytes t) ≡ 8
unfolding checksum
length-checksum g start zero bytes t = length-replicate {A = ℕ} 8 0
length-checksum g start (suc count) bytes t =
    length-xor_row (checksum g start count bytes t)
      (digest_at g t (build_message (u32 (start + u32 count)) bytes))
    ∙ length-checksum g start count bytes t

module _ {v : Simd} {r : Rounds v.Vec} (g : Algorithm) (known : IsAlgorithm g) {n wb w : ℕ}
    {load : List ℕ → ℕ → ℕ} (c : Computes v r (engine_of g.id) n wb w load)
    (rows : (st : List ℕ) → IsState n w st → digest_row g ((engine_of g.id).store_state st) ≡ st)
    (start bytes t : ℕ) (long : n * wb ≤ bytes) (short : bytes < 2 ^ 32 - 256) where
  abbrev n_blocks : ℕ
  n_blocks = blocks_for g bytes

  -- The state of message `m` at the end.
  abbrev pub message_state : ℕ → List ℕ
  message_state m =
      state_after (engine_of g.id) n_blocks
        (fed (engine_of g.id) n_blocks (t - 1) (padded_message g start bytes n_blocks m))

  abbrev pub state_word : ℕ → ℕ → ℕ
  state_word j m = get_or (message_state m) j 0

  digest_at-message_state :
      (m : ℕ) → digest_at g t (build_message (u32 (start + u32 m)) bytes) ≡ message_state m
  unfolding padded_message
  digest_at-message_state m =
      let msg = build_message (u32 (start + u32 m)) bytes in
      let size = length-build_message (u32 (start + u32 m)) bytes in
      digest_at-state_after g known c rows msg (omega (arith, size)) (omega (arith, size)) t
      ∙ ap
          (λ k.
            state_after (engine_of g.id) (blocks_for g k)
              (fed (engine_of g.id) (blocks_for g k) (t - 1) (pad_message g msg (blocks_for g k))))
          size

  pub checksum-word :
      (count j : ℕ)
      → j < 8
      → get_or (checksum g start count bytes t) j 0 ≡ xor_range count (state_word j)
  unfolding checksum
  checksum-word zero j h = get_or-zeros 8 j
  checksum-word (suc count) j h =
      get_or-xor_row (checksum g start count bytes t)
        (digest_at g t (build_message (u32 (start + u32 count)) bytes)) j
        (omega (arith, h, length-checksum g start count bytes t))
      ∙ ap₂ bit_xor (checksum-word count j h)
          (ap (λ st. get_or st j 0) (digest_at-message_state count))
