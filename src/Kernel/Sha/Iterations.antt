-- ===== src/Kernel/Sha/Iterations.antt =====
-- One stream's iterations: each hashes the message again with its digest written over its head.
use valubench.Prelude.{
  ℕ, zero, suc, ◌+◌, ◌-◌, ◌*◌, ◌≤◌, ◌<◌, ◌≡◌, refl, sym, ap, ap₂, ◌∙◌, arith, ◌⊎◌, inl, inr,
}
use valubench.Prelude.{
  List, [], ◌∷◌, length, drop, get_or, foldl, write_at, chunks, for_range, for_range_inv,
}
use valubench.Prelude.{length-map, get_or-map}
use mathlib.Core.Path.{subst}
use valubench.Hash.Stream.{Engine}
use valubench.Hash.Stream.Spec.{fold_blocks}
use valubench.Kernel.Isa.{Simd}
use valubench.Kernel.Sha.{Rounds, S, init_h, feedback}
use valubench.Kernel.Sha.Windows.{lanes_at}
use valubench.Kernel.Sha.Streams.{
  IsState, Computes, Head, Rest, stream_block, stream_block-slot, blocks-foldl,
}

module _ (e : Engine) where
  -- The state that the blocks of the padded message `p` lead to, and the message of the next
  -- iteration.
  abbrev pub state_after : ℕ → List ℕ → List ℕ
  state_after blocks p = fold_blocks e (chunks e.block_len blocks p)

  abbrev pub fed : ℕ → ℕ → List ℕ → List ℕ
  fed blocks zero p = p
  fed blocks (suc t) p =
      let q = fed blocks t p in write_at 0 (e.store_state (state_after blocks q)) q

module _ {v : Simd} {r : Rounds v.Vec} {e : Engine} {n wb w : ℕ} {load : List ℕ → ℕ → ℕ}
    (c : Computes v r e n wb w load) where
  foldl-IsState :
      (st : List ℕ) (bs : List (List ℕ)) → IsState n w st → IsState n w (foldl e.compress st bs)
  foldl-IsState st [] h = h
  foldl-IsState st (b ∷ bs) h = foldl-IsState (e.compress st b) bs (c.compress_state st b)

  pub state_after-IsState : (blocks : ℕ) (p : List ℕ) → IsState n w (state_after e blocks p)
  state_after-IsState blocks p = foldl-IsState e.iv (chunks e.block_len blocks p) c.iv_state

module _ (v : Simd) (r : Rounds v.Vec) (corpus : ℕ → ℕ) where
  unfoldable pub stream_iteration : ℕ → S v r → S v r
  stream_iteration blocks s =
      feedback v r (for_range blocks 0 (stream_block v r corpus) (init_h v r s))

  module _ (e : Engine) (n wb w : ℕ) (load : List ℕ → ℕ → ℕ) (c : Computes v r e n wb w load)
      (l : ℕ) (inside : l < v.lanes) (slot blocks : ℕ) (p : List ℕ) where
    abbrev now : ℕ → List ℕ
    now t = fed e blocks t p

    abbrev lanes : List v.Vec → List ℕ
    lanes x = lanes_at v l x

    -- Where the loop over iterations stands after `t` of them.
    record At (t : ℕ) (s : S v r) : Type 0 where
      place : s.slot ≡ slot
      head : Head v r corpus e n wb w load c l inside (now t) s.fb
      rest : Rest v r corpus e n wb w load c l inside (now t) slot blocks
      hashed : 0 < t → lanes s.h ≡ state_after e blocks (now (t - 1))

    iteration_state :
        (t : ℕ) (s : S v r)
        → At t s
        → lanes (stream_iteration blocks s).h ≡ state_after e blocks (now t)
    unfolding stream_iteration feedback init_h
    iteration_state t s at =
        let whole : drop (0 * e.block_len) (now t) ≡ now t =
          ap (λ k. drop k (now t)) {y = 0} (omega arith) in
        blocks-foldl v r corpus e n wb w load c l inside (now t) slot blocks at.rest blocks 0
          (init_h v r s) (omega arith) at.place (λ z. at.head)
        ∙ ap₂ (λ st q. foldl e.compress st (chunks e.block_len blocks q)) (c.initial l inside) whole

    iteration_slot : (s : S v r) → (stream_iteration blocks s).slot ≡ s.slot
    unfolding stream_iteration feedback init_h
    iteration_slot s =
        for_range_inv (λ b t. t.slot ≡ s.slot) (stream_block v r corpus)
          (λ b t e. stream_block-slot v r corpus b t ∙ e) blocks 0 blocks (init_h v r s)
          (omega arith) refl

    -- The digest that the iteration leaves is fed in.
    fed_back :
        (t : ℕ) (s : S v r)
        → At t s
        → Head v r corpus e n wb w load c l inside (now (suc t)) (stream_iteration blocks s).h
    fed_back t s at =
        let h = (stream_iteration blocks s).h in
        let st = state_after e blocks (now t) in
        let good = state_after-IsState c blocks (now t) in
        record {
          size =
              sym (length-map (λ x. v.store x l) h)
              ∙ ap length (iteration_state t s at)
              ∙ good.size;
          at = λ j hj.
              sym (get_or-map (λ x. v.store x l) h j (v.set1 0))
              ∙ ap (get_or (lanes h) j) (c.on_zero l inside)
              ∙ ap (λ st. get_or st j 0) (iteration_state t s at)
              ∙ sym (c.load_stored st (now t) j good hj);
        }

    kept :
        (t : ℕ)
        → Rest v r corpus e n wb w load c l inside (now t) slot blocks
        → Rest v r corpus e n wb w load c l inside (now (suc t)) slot blocks
    kept t rest b j hb hj which =
        rest b j hb hj which
        ∙ sym (c.load_past bytes (now t) (b * e.block_len + j * wb) (past which))
      where
        bytes : List ℕ
        bytes = e.store_state (state_after e blocks (now t))

        size : length bytes ≡ n * wb
        size = c.length_stored (state_after e blocks (now t)) (state_after-IsState c blocks (now t))

        past : (0 < b) ⊎ (n ≤ j) → length bytes ≤ b * e.block_len + j * wb
        past (inl later) = grind (arith, size, c.block_size, c.few)
        past (inr far) = grind (arith, size)

    iteration-At : (t : ℕ) (s : S v r) → At t s → At (t + 1) (stream_iteration blocks s)
    unfolding stream_iteration feedback
    iteration-At t s at =
        subst (λ k. At k (stream_iteration blocks s)) {x = suc t} (omega arith)
          (record {
            place = iteration_slot s ∙ at.place;
            head = fed_back t s at;
            rest = kept t at.rest;
            hashed = λ pos.
                iteration_state t s at ∙ ap (λ k. state_after e blocks (now k)) (omega arith);
          })

    -- The hash after `t` iterations, of which there is one at least.
    pub iterations-state_after :
        (t : ℕ) (s : S v r)
        → 0 < t
        → s.slot ≡ slot
        → Head v r corpus e n wb w load c l inside p s.fb
        → Rest v r corpus e n wb w load c l inside p slot blocks
        → lanes (for_range t 0 (λ it. stream_iteration blocks) s).h
          ≡ state_after e blocks (fed e blocks (t - 1) p)
    iterations-state_after t s pos place head rest =
        (for_range_inv At (λ it. stream_iteration blocks) iteration-At t 0 t s (omega arith)
            (record {
              place = place;
              head = head;
              rest = rest;
              hashed = λ none. absurd (omega arith);
            })).hashed
          pos
