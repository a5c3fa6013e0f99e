-- ===== src/Kernel/Md5/Checksum.antt =====
-- The kernel's checksum is the XOR over all messages, whatever stream and lane each is in.
use valubench.Prelude.{ℕ, zero, suc, ◌+◌, ◌*◌, ◌<◌, ◌≡◌, sym, ap, ◌∙◌, arith, bit_xor}
use valubench.Prelude.{List, map, foldl, for_range, for_range_inv}
use valubench.Prelude.{foldl-map, for_range-map, foldl-for_range, map-map, fun_ext}
use mathlib.Core.Path.{subst}
use valubench.Bits.Fold.{xor_range, xor_range-ext, for_range-xor, xor_range-mul, xor_range-swap}
use valubench.Kernel.Ops.{Ops, IsOps}
use valubench.Kernel.Md5.{
  Quad, Stream, pick, step_stream, start_block, chain_block, md5k_step, run_block, run_iteration,
  load_slot, load_group, accumulate, run_group, fold_lanes, init_h, feedback,
}
use valubench.Kernel.Md5.Table.{steps}
use valubench.Kernel.Md5.Blocks.{stream_block}
use valubench.Kernel.Md5.Iterations.{stream_iteration}

module _ (o : Ops) (corpus : ℕ → ℕ) where
  run_block-map :
      (b : ℕ) (ss : List (Stream o.Vec))
      → run_block o corpus b ss ≡ map (stream_block o corpus b) ss
  unfolding run_block stream_block md5k_step
  run_block-map b ss =
      ap (map (chain_block o)) (
        foldl-map (step_stream o corpus) steps (map (start_block o corpus b) ss)
        ∙ map-map (λ s. foldl (λ s st. step_stream o corpus st s) s steps) (start_block o corpus b)
            ss)
      ∙ map-map (chain_block o)
          (λ s. foldl (λ s st. step_stream o corpus st s) (start_block o corpus b s) steps) ss

  run_iteration-map :
      (blocks : ℕ) (ss : List (Stream o.Vec))
      → run_iteration o corpus blocks ss ≡ map (stream_iteration o corpus blocks) ss
  unfolding run_iteration stream_iteration
  run_iteration-map blocks ss =
      ap (map (feedback o)) (
        ap (λ body. for_range blocks 0 body (map (init_h o) ss))
          (fun_ext (λ b. fun_ext (run_block-map b)))
        ∙ for_range-map (stream_block o corpus) blocks 0 (map (init_h o) ss)
        ∙ map-map (for_range blocks 0 (stream_block o corpus)) (init_h o) ss)
      ∙ map-map (feedback o) (λ s. for_range blocks 0 (stream_block o corpus) (init_h o s)) ss

  module _ (unset : Quad o.Vec) (streams blocks iterations : ℕ) where
    abbrev iterate : Stream o.Vec → Stream o.Vec
    iterate s = for_range iterations 0 (λ it. stream_iteration o corpus blocks) s

    -- The stream that has worked through slot `m`.
    abbrev pub finished : ℕ → Stream o.Vec
    finished m = iterate (load_slot o corpus unset blocks m)

    iterations-map :
        (ss : List (Stream o.Vec))
        → for_range iterations 0 (λ it. run_iteration o corpus blocks) ss ≡ map iterate ss
    iterations-map ss =
        ap (λ body. for_range iterations 0 (λ it. body) ss) (fun_ext (run_iteration-map blocks))
        ∙ for_range-map (λ it. stream_iteration o corpus blocks) iterations 0 ss

    run_group-for_range :
        (g : ℕ) (acc : Quad o.Vec)
        → run_group o corpus unset streams blocks iterations g acc
          ≡ for_range streams 0 (λ k acc. accumulate o acc (finished (g * streams + k))) acc
    unfolding run_group load_group
    run_group-for_range g acc =
        ap (foldl (accumulate o) acc) (iterations-map (load_group o corpus unset streams blocks g))
        ∙ foldl-for_range (λ k. load_slot o corpus unset blocks (g * streams + k)) iterate
            (accumulate o) streams acc

    module _ (ok : IsOps o) (l j : ℕ) (inside : l < o.lanes) (small : j < 4) where
      abbrev value : ℕ → ℕ
      value m = o.store (pick (finished m).h j) l

      abbrev Sum : ℕ → Quad o.Vec → Type 0
      Sum m acc = o.store (pick acc j) l ≡ xor_range m value

      pick-accumulate :
          (i : ℕ) (acc : Quad o.Vec) (s : Stream o.Vec)
          → i < 4
          → o.store (pick (accumulate o acc s) i) l
            ≡ bit_xor (o.store (pick acc i) l) (o.store (pick s.h i) l)
      unfolding accumulate
      pick-accumulate zero acc s h = ok.on_xor acc.a s.h.a l inside
      pick-accumulate (suc zero) acc s h = ok.on_xor acc.b s.h.b l inside
      pick-accumulate (suc (suc zero)) acc s h = ok.on_xor acc.c s.h.c l inside
      pick-accumulate (suc (suc (suc zero))) acc s h = ok.on_xor acc.d s.h.d l inside
      pick-accumulate (suc (suc (suc (suc i)))) acc s h = absurd (omega arith)

      accumulate-Sum :
          (m : ℕ) (acc : Quad o.Vec) → Sum m acc → Sum (m + 1) (accumulate o acc (finished m))
      accumulate-Sum m acc h =
          let next : suc m ≡ m + 1 = omega arith in
          pick-accumulate j acc (finished m) small
          ∙ ap (λ t. bit_xor t (value m)) h
          ∙ ap (λ k. xor_range k value) next

      run_group-Sum :
          (g : ℕ) (acc : Quad o.Vec)
          → Sum (g * streams) acc
          → Sum ((g + 1) * streams) (run_group o corpus unset streams blocks iterations g acc)
      run_group-Sum g acc h = subst (Sum ((g + 1) * streams)) (sym (run_group-for_range g acc)) (
          subst (λ m. Sum m (for_range streams 0 turn acc)) {x = g * streams + streams}
            (omega arith)
            (for_range_inv (λ k acc. Sum (g * streams + k) acc) turn
              (λ k acc s.
                subst (λ m. Sum m (turn k acc)) {x = g * streams + k + 1} (omega arith)
                  (accumulate-Sum (g * streams + k) acc s))
              streams 0 streams acc (omega arith)
              (subst (λ m. Sum m acc) {x = g * streams} (omega arith) h)))
        where
          turn : ℕ → Quad o.Vec → Quad o.Vec
          turn k acc = accumulate o acc (finished (g * streams + k))

      -- After all groups, lane `l` of the accumulators holds the XOR over the slots.
      groups-Sum :
          (n_groups : ℕ) (acc : Quad o.Vec)
          → o.store (pick acc j) l ≡ 0
          → Sum
              (n_groups * streams)
              (for_range n_groups 0 (run_group o corpus unset streams blocks iterations) acc)
      groups-Sum n_groups acc e =
          for_range_inv (λ g acc. Sum (g * streams) acc)
            (run_group o corpus unset streams blocks iterations) run_group-Sum n_groups 0 n_groups
            acc (omega arith) (subst (λ m. Sum m acc) {x = 0} (omega arith) e)

    -- Given the state word `j` of every message `m * lanes + l`, the fold over lanes is the XOR of
    -- them all.
    pub fold_lanes-xor_range :
        (ok : IsOps o) (n_groups j : ℕ) (acc : Quad o.Vec) (word_of : ℕ → ℕ)
        → j < 4
        → ((l : ℕ) → l < o.lanes → o.store (pick acc j) l ≡ 0)
        → ((m l : ℕ)
            → m < n_groups * streams
            → l < o.lanes
            → o.store (pick (finished m).h j) l ≡ word_of (m * o.lanes + l))
        → fold_lanes o
            (pick (for_range n_groups 0 (run_group o corpus unset streams blocks iterations) acc) j)
          ≡ xor_range (n_groups * streams * o.lanes) word_of
    unfolding fold_lanes
    fold_lanes-xor_range ok n_groups j acc word_of small empty words =
        let total = for_range n_groups 0 (run_group o corpus unset streams blocks iterations) acc in
        for_range-xor o.lanes (o.store (pick total j))
        ∙ xor_range-ext o.lanes (o.store (pick total j))
            (λ l. xor_range (n_groups * streams) (λ m. word_of (m * o.lanes + l)))
            (λ l h.
              groups-Sum ok l j h small n_groups acc (empty l h)
              ∙ xor_range-ext (n_groups * streams) (value ok l j h small)
                  (λ m. word_of (m * o.lanes + l)) (λ m hm. words m l hm h))
        ∙ xor_range-swap o.lanes (n_groups * streams) (λ l m. word_of (m * o.lanes + l))
        ∙ sym (xor_range-mul (n_groups * streams) o.lanes word_of)
