-- ===== src/Kernel/Sha/Digest.antt =====
-- What the reference walk of src/workload.c computes, in terms of the padded message that the kernels
-- work on.
use valubench.Prelude.{
  ℕ, zero, suc, ◌+◌, ◌-◌, ◌*◌, ◌^◌, ◌≤◌, ◌<◌, ◌≡◌, refl, sym, ap, ap₂, ◌∙◌, arith,
}
use valubench.Prelude.{List, [], ◌∷◌, ◌++◌, length, drop, write_at, foldl, chunks, u64, replicate}
use valubench.Prelude.{append_assoc, length-write_at}
use valubench.Hash.Stream.{Engine}
use valubench.Hash.Stream.Spec.{pad, block_count}
use valubench.Algorithm.{Algorithm, blocks_for}
use valubench.Algorithm.Blocks.{IsAlgorithm, is_md5, is_sha1, is_sha512}
use valubench.Workload.Message.{pad_message}
use valubench.Workload.Padding.{engine_of, pad_message-pad, hash-pad_message}
use valubench.Workload.Reference.{digest_row}
use valubench.Workload.Reference.Spec.{chain, digest_at}
use valubench.Kernel.Isa.{Simd}
use valubench.Kernel.Sha.{Rounds}
use valubench.Kernel.Sha.Streams.{IsState, Computes}
use valubench.Kernel.Sha.Iterations.{state_after, fed, state_after-IsState}

drop-append_le : (n : ℕ) (xs ys : List ℕ) → n ≤ length xs → drop n (xs ++ ys) ≡ drop n xs ++ ys
drop-append_le zero xs ys h = refl
drop-append_le (suc n) [] ys h = absurd (omega arith)
drop-append_le (suc n) (x ∷ xs) ys h = drop-append_le n xs ys (omega arith)

-- The padding depends on the message's length only.
pad_tail : Engine → ℕ → List ℕ
pad_tail e n =
    0x80
    ∷ (replicate (block_count e n * e.block_len - n - 1 - e.length_len) 0
        ++ e.store_length (u64 (n * 8)))

pad-write_head :
    (e : Engine) (d msg : List ℕ)
    → length d ≤ length msg
    → pad e (write_at 0 d msg) ≡ write_at 0 d (pad e msg)
unfolding pad_tail
pad-write_head e d msg h =
    ap (λ n. write_at 0 d msg ++ pad_tail e n) (length-write_at 0 d msg (omega arith))
    ∙ append_assoc d (drop (0 + length d) msg) (pad_tail e (length msg))
    ∙ ap (λ t. d ++ t)
        (sym (drop-append_le (0 + length d) msg (pad_tail e (length msg)) (omega arith)))

block_len-block_bytes : (g : Algorithm) → IsAlgorithm g → g.block_bytes ≡ (engine_of g.id).block_len
block_len-block_bytes g is_md5 = refl
block_len-block_bytes g is_sha1 = refl
block_len-block_bytes g is_sha512 = refl

module _ {v : Simd} {r : Rounds v.Vec} (g : Algorithm) (known : IsAlgorithm g) {n wb w : ℕ}
    {load : List ℕ → ℕ → ℕ} (c : Computes v r (engine_of g.id) n wb w load)
    (rows : (st : List ℕ) → IsState n w st → digest_row g ((engine_of g.id).store_state st) ≡ st)
    (msg : List ℕ) (long : n * wb ≤ length msg) (short : length msg < 2 ^ 32 - 256) where
  abbrev e : Engine
  e = engine_of g.id

  abbrev blocks : ℕ
  blocks = blocks_for g (length msg)

  abbrev now : ℕ → List ℕ
  now t = fed e blocks t (pad_message g msg blocks)

  -- Where the walk stands after `t` iterations: the length is kept, and the padded message is the
  -- one that the kernel has.
  record Stands (t : ℕ) : Type 0 where
    size : length (chain g t msg) ≡ length msg
    padded : pad e (chain g t msg) ≡ now t

  hash-state_after :
      (t : ℕ) → Stands t → g.hash (chain g t msg) ≡ e.store_state (state_after e blocks (now t))
  hash-state_after t h =
      let s = chain g t msg in
      let short' : length s < 2 ^ 32 - 256 = omega (arith, h.size) in
      hash-pad_message g s known short'
      ∙ ap
          (λ k. e.store_state (
            foldl e.compress e.iv
              (chunks k (blocks_for g (length s)) (pad_message g s (blocks_for g (length s))))))
          (block_len-block_bytes g known)
      ∙ ap₂ (λ n p. e.store_state (state_after e n p)) (ap (blocks_for g) h.size)
          (pad_message-pad g s known short' ∙ h.padded)

  length-hash : (t : ℕ) → Stands t → length (g.hash (chain g t msg)) ≡ n * wb
  length-hash t h =
      ap length (hash-state_after t h)
      ∙ c.length_stored (state_after e blocks (now t)) (state_after-IsState c blocks (now t))

  chain-Stands : (t : ℕ) → Stands t
  chain-Stands zero = record { size = refl; padded = sym (pad_message-pad g msg known short) }
  chain-Stands (suc t) =
      let h = chain-Stands t in
      let s = chain g t msg in
      let d = g.hash s in
      let fits : length d ≤ length s = omega (arith, length-hash t h, h.size) in
      record {
        size = length-write_at 0 d s (omega (arith, fits)) ∙ h.size;
        padded =
            pad-write_head e d s fits ∙ ap₂ (λ d p. write_at 0 d p) (hash-state_after t h) h.padded;
      }

  -- The row that the walk adds for a message is the kernel's state after as many iterations.
  pub digest_at-state_after :
      (t : ℕ)
      → digest_at g t msg ≡ state_after e blocks (fed e blocks (t - 1) (pad_message g msg blocks))
  digest_at-state_after t =
      ap (digest_row g) (hash-state_after (t - 1) (chain-Stands (t - 1)))
      ∙ rows (state_after e blocks (now (t - 1))) (state_after-IsState c blocks (now (t - 1)))
