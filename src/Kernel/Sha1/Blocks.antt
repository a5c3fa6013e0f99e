-- ===== src/Kernel/Sha1/Blocks.antt =====
-- The lines of one block over the rolling window are the compression function of
-- src/reference/sha1.c over its whole schedule.
use valubench.Prelude.{
  ℕ, zero, suc, ◌+◌, ◌%◌, ◌≤◌, ◌<◌, ◌≡◌, refl, sym, ap, ap₂, ◌∙◌, arith, u32, fun_ext,
}
use valubench.Prelude.{List, [], ◌∷◌, ◌++◌, length, get_or, foldl, for_range}
use mathlib.Core.Path.{subst}
use mathlib.Core.List.{foldl-append}
use valubench.Hash.Sha1.{Regs, sha1_step, schedule, sha1_compress}
use valubench.Kernel.Isa.{Simd, IsSimd}
use valubench.Kernel.Sha.{Local}
use valubench.Kernel.Sha.Windows.{lanes_at, Window}
use valubench.Prelude.{set}
use valubench.Kernel.Sha1.{
  Sha1Ops, IsSha1Ops, Act, Five, sha1_acts, wget, expand_word, sha1_act, set_regs, chain_words,
}
use valubench.Kernel.Sha1.Schedule.{first_words, length-first_words, schedule-first, word_at}
use valubench.Kernel.Sha1.Steps.{
  step_of, regs_of, store-wget, Window-word, expanded-Window, step-sha1_step,
}

unfoldable plain_from : ℕ → ℕ → List Act
plain_from zero i = []
plain_from (suc n) i = step_of i ∷ plain_from n (i + 1)

unfoldable expanded_from : ℕ → ℕ → List Act
expanded_from zero i = []
expanded_from (suc n) i = Act.expand i ∷ (step_of i ∷ expanded_from n (i + 1))

-- The runs that the macros write out, by the index of the step.
sha1_acts-from : sha1_acts ≡ plain_from 16 0 ++ expanded_from 64 16
unfolding plain_from expanded_from
sha1_acts-from = refl

module _ (v : Simd) (o : Sha1Ops v) where
  abbrev run : List Act → Local v.Vec (Five v.Vec) → Local v.Vec (Five v.Vec)
  run ts x = foldl (λ x t. sha1_act v o t x) x ts

  module _ (simd : IsSimd v) (ok : IsSha1Ops v o) (l : ℕ) (inside : l < v.lanes) where
    abbrev lanes : List v.Vec → List ℕ
    lanes w = lanes_at v l w

    abbrev regs : Five v.Vec → Regs
    regs q = regs_of v l q

    module _ (block : List ℕ) where
      expanded_steps :
          (n i : ℕ) (x : Local v.Vec (Five v.Vec))
          → i + n ≡ 80
          → 16 ≤ i
          → Window (word_at block) i (lanes x.w)
          → regs (run (expanded_from n i) x).r
            ≡ for_range n i (sha1_step (schedule block)) (regs x.r)
      unfolding expanded_from sha1_act
      expanded_steps zero i x e long h = refl
      expanded_steps (suc n) i x e long h =
          let w = set x.w (i % 16) (expand_word v o i x.w) in
          let y : Local v.Vec (Five v.Vec) = record x { w = w } in
          let moved = expanded-Window v o simd ok l inside block i x.w long (omega arith) h in
          expanded_steps n (i + 1) (sha1_act v o (step_of i) y) (omega arith) (omega arith) moved
          ∙ ap (for_range n (i + 1) (sha1_step (schedule block))) (
              step-sha1_step v o simd ok l inside block i y (omega arith) (
                Window-word v o simd ok l inside block (i + 1) i w moved (omega arith)
                  (omega arith)))

      plain_steps :
          (n i : ℕ) (x : Local v.Vec (Five v.Vec))
          → i + n ≡ 16
          → Window (word_at block) 16 (lanes x.w)
          → (regs (run (plain_from n i) x).r
              ≡ for_range n i (sha1_step (schedule block)) (regs x.r))
            × ((run (plain_from n i) x).w ≡ x.w)
      unfolding plain_from sha1_act
      plain_steps zero i x e h = (refl, refl)
      plain_steps (suc n) i x e h =
          let y = sha1_act v o (step_of i) x in
          let rest = plain_steps n (i + 1) y (omega arith) h in
          (
            rest.0
                ∙ ap (for_range n (i + 1) (sha1_step (schedule block))) (
                    step-sha1_step v o simd ok l inside block i x (omega arith) (
                      Window-word v o simd ok l inside block 16 i x.w h (omega arith)
                        (omega arith))),
            rest.1,
          )

      first-Window :
          (w : List v.Vec) → lanes w ≡ first_words block → Window (word_at block) 16 (lanes w)
      first-Window w e = record {
        size = ap length e ∙ length-first_words block;
        at = λ j lt near.
            ap₂ (λ w k. get_or w k 0) e (omega arith) ∙ sym (schedule-first block j lt);
      }

      -- All 80 steps, on a window that starts as the words of the block.
      run-sha1_step :
          (x : Local v.Vec (Five v.Vec))
          → lanes x.w ≡ first_words block
          → regs (run sha1_acts x).r ≡ for_range 80 0 (sha1_step (schedule block)) (regs x.r)
      run-sha1_step x e =
          let first = plain_steps 16 0 x refl (first-Window x.w e) in
          ap (λ ts. regs (run ts x).r) sha1_acts-from
          ∙ ap (λ y. regs y.r)
              (foldl-append (λ x t. sha1_act v o t x) x (plain_from 16 0) (expanded_from 64 16))
          ∙ expanded_steps 64 16 (run (plain_from 16 0) x) refl (omega arith)
              (subst (λ w. Window (word_at block) 16 (lanes w)) (sym first.1) (first-Window x.w e))
          ∙ ap (for_range 64 16 (sha1_step (schedule block))) first.0

    abbrev regs_at : (ℕ → ℕ) → Regs
    regs_at f = record { a = f 0; b = f 1; c = f 2; d = f 3; e = f 4 }

    abbrev added : List ℕ → Regs → List ℕ
    added st r =
        u32 (get_or st 0 0 + r.a)
        ∷ u32 (get_or st 1 0 + r.b)
        ∷ u32 (get_or st 2 0 + r.c)
        ∷ u32 (get_or st 3 0 + r.d)
        ∷ u32 (get_or st 4 0 + r.e)
        ∷ []

    chain_words-added :
        (h : List v.Vec) (q : Five v.Vec) → lanes (chain_words v o h q) ≡ added (lanes h) (regs q)
    unfolding chain_words
    chain_words-added h q = ap₂ ◌∷◌ (word 0 q.a) (
        ap₂ ◌∷◌ (word 1 q.b)
          (ap₂ ◌∷◌ (word 2 q.c) (ap₂ ◌∷◌ (word 3 q.d) (ap (λ t. t ∷ []) (word 4 q.e)))))
      where
        word :
            (i : ℕ) (x : v.Vec)
            → v.store (v.add (wget v o h i) x) l ≡ u32 (get_or (lanes h) i 0 + v.store x l)
        word i x =
            simd.on_add (wget v o h i) x l inside
            ∙ ap (λ t. u32 (t + v.store x l)) (store-wget v o simd ok l inside h i)

    -- The state after a block whose words the window has.
    pub block-sha1_compress :
        (block : List ℕ) (h w : List v.Vec)
        → lanes w ≡ first_words block
        → lanes (chain_words v o h (run sha1_acts (record { w = w; r = set_regs v o h })).r)
          ≡ sha1_compress (lanes h) block
    unfolding set_regs sha1_compress
    block-sha1_compress block h w e =
        let start : Local v.Vec (Five v.Vec) = record { w = w; r = set_regs v o h } in
        chain_words-added h (run sha1_acts start).r
        ∙ ap (added (lanes h)) (
            run-sha1_step block start e
            ∙ ap (λ f. for_range 80 0 (sha1_step (schedule block)) (regs_at f))
                (fun_ext (store-wget v o simd ok l inside h)))
