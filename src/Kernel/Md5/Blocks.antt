-- ===== src/Kernel/Md5/Blocks.antt =====
-- One stream's blocks: the kernel chains them as src/reference/md5.c does.
use valubench.Prelude.{
  ℕ, zero, suc, ◌+◌, ◌*◌, ◌≤◌, ◌<◌, ◌≡◌, refl, sym, ap, ap₂, ◌∙◌, arith, u32, ◌⊎◌, inl, inr,
}
use valubench.Prelude.{List, [], ◌∷◌, get_or, take, drop, foldl, chunks, for_range}
use valubench.Prelude.{get_or-take, get_or-drop, drop-drop, get_or-for_range, lt→ltb, le→ltb}
use valubench.Hash.Bytes.{byte_at, load_le32}
use valubench.Hash.Md5.{load_words, md5_compress}
use valubench.Kernel.Ops.{Ops, IsOps}
use valubench.Kernel.Md5.{
  Quad, Stream, pick, word, step_stream, load_head, start_block, chain_block,
}
use valubench.Kernel.Md5.Table.{Step, steps}
use valubench.Kernel.Md5.Steps.{Holds, steps-md5_step}

pub get_or-load_words :
    (block : List ℕ) (j : ℕ) → j < 16 → get_or (load_words block) j 0 ≡ load_le32 block (j * 4)
unfolding load_words
get_or-load_words block j h = get_or-for_range (λ i. load_le32 block (i * 4)) 16 j 0 h

-- The words of a block are words of the message.
pub load_le32-block :
    (p : List ℕ) (b j : ℕ)
    → j < 16
    → load_le32 (take 64 (drop (b * 64) p)) (j * 4) ≡ load_le32 p (b * 64 + j * 4)
unfolding load_le32
load_le32-block p b j h =
    rw
      (
        byte (j * 4) (b * 64 + j * 4) (omega arith) (omega arith),
        byte (j * 4 + 1) (b * 64 + j * 4 + 1) (omega arith) (omega arith),
        byte (j * 4 + 2) (b * 64 + j * 4 + 2) (omega arith) (omega arith),
        byte (j * 4 + 3) (b * 64 + j * 4 + 3) (omega arith) (omega arith),
      )
      refl
  where
    byte :
        (k at : ℕ) → k < 64 → b * 64 + k ≡ at → byte_at (take 64 (drop (b * 64) p)) k ≡ byte_at p at
    byte k at small e =
        get_or-take 64 (drop (b * 64) p) k 0 small ∙ get_or-drop (b * 64) p k 0 ∙ ap (byte_at p) e

module _ (o : Ops) (corpus : ℕ → ℕ) where
  -- What a block does to one stream, and what the loop over blocks does.
  unfoldable pub stream_block : ℕ → Stream o.Vec → Stream o.Vec
  stream_block b s =
      chain_block o (foldl (λ s st. step_stream o corpus st s) (start_block o corpus b s) steps)

  abbrev run_steps : List Step → Stream o.Vec → Stream o.Vec
  run_steps xs s = foldl (λ s st. step_stream o corpus st s) s xs

  -- The steps change the registers only.
  run_steps-r :
      (xs : List Step) (s : Stream o.Vec) → run_steps xs s ≡ record s { r = (run_steps xs s).r }
  unfolding step_stream
  run_steps-r [] s = refl
  run_steps-r (st ∷ xs) s = run_steps-r xs (step_stream o corpus st s)

  pub stream_block-slot : (b : ℕ) (s : Stream o.Vec) → (stream_block b s).slot ≡ s.slot
  unfolding stream_block chain_block start_block
  stream_block-slot b s = ap (λ t. t.slot) (run_steps-r steps (start_block o corpus b s))

  pub pick-load_head :
      (at j : ℕ) → j < 4 → pick (load_head o corpus at) j ≡ o.load corpus (at + j * o.lanes)
  unfolding load_head
  pick-load_head at zero h = refl
  pick-load_head at (suc zero) h = refl
  pick-load_head at (suc (suc zero)) h = refl
  pick-load_head at (suc (suc (suc zero))) h = refl
  pick-load_head at (suc (suc (suc (suc j)))) h = absurd (omega arith)

  module _ (ok : IsOps o) (l : ℕ) (inside : l < o.lanes) where
    -- Lane `l` of the four vectors, as the reference's state.
    abbrev pub state_of : Quad o.Vec → List ℕ
    state_of q = o.store q.a l ∷ o.store q.b l ∷ o.store q.c l ∷ o.store q.d l ∷ []

    stream_block-md5_compress :
        (block : List ℕ) (b : ℕ) (s : Stream o.Vec)
        → Holds o ok corpus l inside (load_words block) (start_block o corpus b s)
        → state_of (stream_block b s).h ≡ md5_compress (state_of s.h) block
    unfolding stream_block md5_compress start_block chain_block
    stream_block-md5_compress block b s holds =
        let started = start_block o corpus b s in
        let done = run_steps steps started in
        ap (λ t. state_of (chain_block o t).h) (run_steps-r steps started)
        ∙ ap₂ ◌∷◌ (ok.on_add s.h.a done.r.a l inside) (
            ap₂ ◌∷◌ (ok.on_add s.h.b done.r.b l inside) (
              ap₂ ◌∷◌ (ok.on_add s.h.c done.r.c l inside)
                (ap (λ t. t ∷ []) (ok.on_add s.h.d done.r.d l inside))))
        ∙ ap
            (λ r.
              u32 (o.store s.h.a l + r.a)
              ∷ u32 (o.store s.h.b l + r.b)
              ∷ u32 (o.store s.h.c l + r.c)
              ∷ u32 (o.store s.h.d l + r.d)
              ∷ [])
            (steps-md5_step o ok corpus l inside (load_words block) started holds)

    module _ (p : List ℕ) (slot blocks : ℕ) where
      -- The words 0 to 3 of the first block, in registers, and all the others, in the corpus, are
      -- those of the message `p`.
      abbrev pub Head : Quad o.Vec → Type 0
      Head wv = (j : ℕ) → j < 4 → o.store (pick wv j) l ≡ load_le32 p (j * 4)

      abbrev pub Rest : Type 0
      Rest =
          (b j : ℕ)
          → b < blocks
          → j < 16
          → (0 < b) ⊎ (4 ≤ j)
          → u32 (corpus (slot + b * (16 * o.lanes) + j * o.lanes + l))
            ≡ load_le32 p (b * 64 + j * 4)

      started-word :
          (b : ℕ) (s : Stream o.Vec)
          → s.slot ≡ slot
          → b < blocks
          → Rest
          → (b ≡ 0 → Head s.wv)
          → (j : ℕ) → j < 16
          → o.store (word o corpus (start_block o corpus b s) j) l ≡ load_le32 p (b * 64 + j * 4)
      unfolding word start_block
      started-word b s place small rest head j hj = elim (side j 4) [
        | inr far ↦
            rw (le→ltb j 4 far)
              (from_corpus (s.slot + b * (16 * o.lanes) + j * o.lanes) ∙ stored (inr far))
        | inl near ↦ rw (lt→ltb j 4 near) (elim (side 0 b) [
          | inl later ↦ rw (lt→ltb 0 b later) (
              ap (λ v. o.store v l) (pick-load_head (s.slot + b * (16 * o.lanes)) j near)
              ∙ from_corpus (s.slot + b * (16 * o.lanes) + j * o.lanes)
              ∙ stored (inl later))
          | inr start ↦
              rw (le→ltb 0 b start) (head (omega arith) j near ∙ ap (load_le32 p) (omega arith))
        ])
      ]
        where
          side : (x y : ℕ) → (x < y) ⊎ (y ≤ x)
          side x y = omega arith

          from_corpus : (at : ℕ) → o.store (o.load corpus at) l ≡ u32 (corpus (at + l))
          from_corpus at = ok.on_load corpus at l inside

          stored :
              (0 < b) ⊎ (4 ≤ j)
              → u32 (corpus (s.slot + b * (16 * o.lanes) + j * o.lanes + l))
                ≡ load_le32 p (b * 64 + j * 4)
          stored which =
              ap (λ t. u32 (corpus (t + b * (16 * o.lanes) + j * o.lanes + l))) place
              ∙ rest b j small hj which

      block-Holds :
          (b : ℕ) (s : Stream o.Vec)
          → s.slot ≡ slot
          → b < blocks
          → Rest
          → (b ≡ 0 → Head s.wv)
          → Holds o ok corpus l inside
              (load_words (take 64 (drop (b * 64) p)))
              (start_block o corpus b s)
      block-Holds b s place small rest head j hj =
          started-word b s place small rest head j hj
          ∙ sym (get_or-load_words (take 64 (drop (b * 64) p)) j hj ∙ load_le32-block p b j hj)

      -- From block `b` on, the chaining state folds the rest of the message.
      pub blocks-foldl :
          (n b : ℕ) (s : Stream o.Vec)
          → b + n ≡ blocks
          → s.slot ≡ slot
          → Rest
          → (b ≡ 0 → Head s.wv)
          → state_of (for_range n b stream_block s).h
            ≡ foldl md5_compress (state_of s.h) (chunks 64 n (drop (b * 64) p))
      blocks-foldl zero b s e place rest head = refl
      blocks-foldl (suc n) b s e place rest head =
          blocks-foldl n (b + 1) (stream_block b s) (omega arith) (stream_block-slot b s ∙ place)
            rest (λ z. absurd (omega arith))
          ∙ ap₂ (λ st cs. foldl md5_compress st cs)
              (stream_block-md5_compress (take 64 (drop (b * 64) p)) b s
                (block-Holds b s place (omega arith) rest head))
              (ap (λ k. chunks 64 n (drop k p)) {x = (b + 1) * 64} (omega arith)
                ∙ ap (chunks 64 n) (sym (drop-drop 64 (b * 64) p)))
