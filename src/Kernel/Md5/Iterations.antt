-- ===== src/Kernel/Md5/Iterations.antt =====
-- One stream's iterations: each hashes the message again with its digest written over its head.
use valubench.Prelude.{
  ℕ, zero, suc, ◌+◌, ◌-◌, ◌*◌, ◌≤◌, ◌<◌, ◌≡◌, refl, sym, ap, ap₂, ◌∙◌, arith, ◌⊎◌, inl, inr,
}
use valubench.Prelude.{List, [], ◌∷◌, length, write_at, chunks, for_range, for_range_inv}
use mathlib.Core.Path.{subst}
use valubench.Prelude.{get_or-write_head, foldl}
use valubench.Bits.Sum.{or-bytes}
use valubench.Hash.Bytes.{load_le32, store_le32}
use valubench.Hash.Md5.{md5_compress, md5_engine}
use valubench.Hash.Stream.Spec.{fold_blocks}
use valubench.Kernel.Ops.{Ops, IsOps}
use valubench.Kernel.Md5.{Quad, Stream, pick, init_h, feedback}
use valubench.Kernel.Md5.Blocks.{
  stream_block, state_of, Head, Rest, stream_block-slot, blocks-foldl,
}

-- The state that the blocks of the padded message `p` lead to, and the message of the next
-- iteration.
abbrev pub state_after : ℕ → List ℕ → List ℕ
state_after blocks p = fold_blocks md5_engine (chunks 64 blocks p)

abbrev pub fed : ℕ → ℕ → List ℕ → List ℕ
fed blocks zero p = p
fed blocks (suc t) p =
    let q = fed blocks t p in write_at 0 (md5_engine.store_state (state_after blocks q)) q

load_le32-past :
    (bytes p : List ℕ) (off : ℕ)
    → length bytes ≤ off
    → load_le32 (write_at 0 bytes p) off ≡ load_le32 p off
unfolding load_le32
load_le32-past bytes p off h = rw (
  get_or-write_head bytes p off 0 h,
  get_or-write_head bytes p (off + 1) 0 (omega arith),
  get_or-write_head bytes p (off + 2) 0 (omega arith),
  get_or-write_head bytes p (off + 3) 0 (omega arith),
)

module _ (o : Ops) (corpus : ℕ → ℕ) where
  unfoldable pub stream_iteration : ℕ → Stream o.Vec → Stream o.Vec
  stream_iteration blocks s = feedback o (for_range blocks 0 (stream_block o corpus) (init_h o s))

  module _ (ok : IsOps o) (l : ℕ) (inside : l < o.lanes) where
    abbrev lanes_of : Quad o.Vec → List ℕ
    lanes_of q = state_of o corpus ok l inside q

    -- The digest words that the feedback leaves in the registers are those of its bytes.
    fed_back :
        (h : Quad o.Vec) (p : List ℕ) (j : ℕ)
        → j < 4
        → o.store (pick h j) l
          ≡ load_le32 (write_at 0 (md5_engine.store_state (lanes_of h)) p) (j * 4)
    unfolding load_le32 store_le32
    fed_back h p zero b = sym (or-bytes (o.store h.a l) (ok.bounded h.a l inside))
    fed_back h p (suc zero) b = sym (or-bytes (o.store h.b l) (ok.bounded h.b l inside))
    fed_back h p (suc (suc zero)) b = sym (or-bytes (o.store h.c l) (ok.bounded h.c l inside))
    fed_back h p (suc (suc (suc zero))) b = sym (or-bytes (o.store h.d l) (ok.bounded h.d l inside))
    fed_back h p (suc (suc (suc (suc j)))) b = absurd (omega arith)

    module _ (slot blocks : ℕ) (p : List ℕ) where
      -- Where the loop over iterations stands after `t` of them.
      record At (t : ℕ) (s : Stream o.Vec) : Type 0 where
        place : s.slot ≡ slot
        head : Head o corpus ok l inside (fed blocks t p) slot blocks s.wv
        rest : Rest o corpus ok l inside (fed blocks t p) slot blocks
        hashed : 0 < t → lanes_of s.h ≡ state_after blocks (fed blocks (t - 1) p)

      iteration_state :
          (t : ℕ) (s : Stream o.Vec)
          → At t s
          → lanes_of (stream_iteration blocks s).h ≡ state_after blocks (fed blocks t p)
      unfolding stream_iteration feedback init_h
      iteration_state t s now =
          blocks-foldl o corpus ok l inside (fed blocks t p) slot blocks blocks 0 (init_h o s)
            (omega arith) now.place now.rest (λ z. now.head)
          ∙ ap (λ st. foldl md5_compress st (chunks 64 blocks (fed blocks t p))) initial
        where
          initial : lanes_of (init_h o s).h ≡ md5_engine.iv
          initial = ap₂ ◌∷◌ (ok.on_set1 0x67452301 l inside) (
              ap₂ ◌∷◌ (ok.on_set1 0xefcdab89 l inside) (
                ap₂ ◌∷◌ (ok.on_set1 0x98badcfe l inside)
                  (ap (λ t. t ∷ []) (ok.on_set1 0x10325476 l inside))))

      iteration_slot : (s : Stream o.Vec) → (stream_iteration blocks s).slot ≡ s.slot
      unfolding stream_iteration feedback init_h
      iteration_slot s =
          for_range_inv (λ b t. t.slot ≡ s.slot) (stream_block o corpus)
            (λ b t e. stream_block-slot o corpus b t ∙ e) blocks 0 blocks (init_h o s) (omega arith)
            refl

      past :
          (t : ℕ) (s : Stream o.Vec)
          → At t s
          → (b j : ℕ) → (0 < b) ⊎ (4 ≤ j)
          → length (md5_engine.store_state (state_after blocks (fed blocks t p))) ≤ b * 64 + j * 4
      unfolding store_le32
      past t s now b j which =
          let bytes : length (md5_engine.store_state (state_after blocks (fed blocks t p))) ≡ 16 =
            ap (λ st. length (md5_engine.store_state st)) (sym (iteration_state t s now)) in
          elim which [ inl later ↦ omega arith | inr far ↦ omega arith ]

      iteration-At : (t : ℕ) (s : Stream o.Vec) → At t s → At (t + 1) (stream_iteration blocks s)
      unfolding stream_iteration feedback
      iteration-At t s now =
          subst (λ k. At k (stream_iteration blocks s)) {x = suc t} (omega arith)
            (record {
              place = iteration_slot s ∙ now.place;
              head = λ j hj.
                  fed_back (stream_iteration blocks s).h (fed blocks t p) j hj
                  ∙ ap
                      (λ st.
                        load_le32 (write_at 0 (md5_engine.store_state st) (fed blocks t p)) (j * 4))
                      (iteration_state t s now);
              rest = λ b j hb hj which.
                  now.rest b j hb hj which
                  ∙ sym (
                      load_le32-past (md5_engine.store_state (state_after blocks (fed blocks t p)))
                        (fed blocks t p) (b * 64 + j * 4) (past t s now b j which));
              hashed = λ pos.
                  iteration_state t s now
                  ∙ ap (λ k. state_after blocks (fed blocks k p)) (omega arith);
            })

      -- The hash after `t` iterations, of which there is one at least.
      pub iterations-state_after :
          (t : ℕ) (s : Stream o.Vec)
          → 0 < t
          → s.slot ≡ slot
          → Head o corpus ok l inside p slot blocks s.wv
          → Rest o corpus ok l inside p slot blocks
          → lanes_of (for_range t 0 (λ it. stream_iteration blocks) s).h
            ≡ state_after blocks (fed blocks (t - 1) p)
      iterations-state_after t s pos place head rest =
          (for_range_inv At (λ it. stream_iteration blocks) iteration-At t 0 t s (omega arith)
              (record {
                place = place;
                head = head;
                rest = rest;
                hashed = λ none. absurd (omega arith);
              })).hashed
            pos
