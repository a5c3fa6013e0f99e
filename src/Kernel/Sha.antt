-- ===== src/Kernel/Sha.antt =====
-- The frame that src/kernels/cpu/sha1_kernel_impl.h and sha512_kernel_impl.h share: streams with a
-- rolling window of sixteen words, over any vectors and any rounds.
pub mod Windows
pub mod Streams
pub mod Iterations
pub mod Sums
pub mod Digest
pub mod Reference
pub mod Exact
pub mod Codec
pub mod Built
use valubench.Prelude.{
  ℕ, zero, suc, ◌+◌, ◌-◌, ◌*◌, bit_xor, ◌==◌, ◌||◌, if◌then◌else◌, List, [], ◌∷◌, ◌++◌, map, foldl,
}
use valubench.Prelude.{length, write_at, replicate, for_range}
use valubench.Kernel.Isa.{Simd}

-- The window `w` and the working registers of one stream.
pub record Local (V R : Type 0) : Type 0 where
  pub w : List V
  pub r : R

-- The variables of one stream. `slot` is an element index into the corpus, `fb` the digest that is
-- fed into block 0.
pub record Stream (V R : Type 0) : Type 0 where
  pub slot : ℕ
  pub fb : List V
  pub h : List V
  pub x : Local V R

-- What the two templates have of their own: the initial state, the registers, the lines between the
-- start of a block and its end, and how the registers are added to the state.
pub record Rounds (V : Type 0) : Type 1 where
  pub Regs : Type 0
  pub Act : Type 0
  pub iv : List ℕ
  pub set_regs : List V → Regs
  pub acts : List Act
  pub act : Act → Local V Regs → Local V Regs
  pub chain : List V → Regs → List V

module _ (v : Simd) (a : Rounds v.Vec) where
  abbrev pub S : Type 0
  S = Stream v.Vec a.Regs

  -- INIT_H.
  unfoldable pub init_h : S → S
  init_h s = record s { h = map v.set1 a.iv }

  -- A line on one stream.
  unfoldable pub act_stream : a.Act → S → S
  act_stream t s = record s { x = a.act t s.x }

  -- EACH: a line on every stream before the next line on any.
  unfoldable pub each_stream : List S → a.Act → List S
  unfolding act_stream
  each_stream streams t = map (act_stream t) streams

  -- CHAIN.
  unfoldable pub chain_block : S → S
  chain_block s = record s { h = a.chain s.h s.x.r }

  -- FEEDBACK.
  unfoldable pub feedback : S → S
  feedback s = record s { fb = s.h }

  -- ACC: every word of the state into its accumulator.
  unfoldable pub accumulate : List v.Vec → List v.Vec → List v.Vec
  accumulate [] hs = []
  accumulate (c ∷ acc) [] = c ∷ acc
  accumulate (c ∷ acc) (h ∷ hs) = v.xor c h ∷ accumulate acc hs

  -- `for (l...) c ^= t[l]`.
  unfoldable pub fold_lanes : v.Vec → ℕ
  fold_lanes x = for_range v.lanes 0 (λ l c. bit_xor c (v.store x l)) 0

module _ (v : Simd) (a : Rounds v.Vec) (corpus : ℕ → ℕ) where
  -- `n` vectors from element `p` on.
  unfoldable pub load_words : ℕ → ℕ → List v.Vec
  load_words n p = for_range n 0 (λ j w. w ++ (v.load corpus (p + j * v.lanes) ∷ [])) []

  -- START_BLOCK: the window from the corpus, and in block 0 the digest over its head.
  unfoldable pub start_block : ℕ → S v a → S v a
  unfolding load_words
  start_block b s =
      let w = load_words 16 (s.slot + b * (16 * v.lanes)) in
      record s { x = record { w = if b == 0 then write_at 0 s.fb w else w; r = a.set_regs s.h } }

  -- One turn of the loop over blocks.
  unfoldable pub run_block : ℕ → List (S v a) → List (S v a)
  unfolding start_block each_stream chain_block
  run_block b streams =
      map (chain_block v a) (foldl (each_stream v a) (map (start_block b) streams) a.acts)

  -- One turn of the loop over iterations.
  unfoldable pub run_iteration : ℕ → List (S v a) → List (S v a)
  unfolding init_h run_block feedback
  run_iteration blocks streams =
      map (feedback v a) (for_range blocks 0 run_block (map (init_h v a) streams))

  -- LOAD_SLOT. `unset` is what the variables hold before they are assigned.
  unfoldable pub load_slot : S v a → ℕ → ℕ → S v a
  unfolding load_words
  load_slot unset blocks k =
      let slot = k * (blocks * 16 * v.lanes) in
      record unset { slot = slot; fb = load_words (length a.iv) slot }

  -- The streams of group `g`: consecutive slots.
  unfoldable pub load_group : S v a → ℕ → ℕ → ℕ → List (S v a)
  unfolding load_slot
  load_group unset streams blocks g =
      for_range streams 0 (λ k ss. ss ++ (load_slot unset blocks (g * streams + k) ∷ [])) []

  -- One turn of the loop over groups.
  unfoldable pub run_group : S v a → ℕ → ℕ → ℕ → ℕ → List v.Vec → List v.Vec
  unfolding load_group run_iteration accumulate
  run_group unset streams blocks iterations g acc =
      foldl (λ acc s. accumulate v a acc s.h) acc
        (for_range iterations 0 (λ it. run_iteration blocks) (load_group unset streams blocks g))

  unfoldable pub sha_kernel : S v a → ℕ → ℕ → ℕ → ℕ → List ℕ
  unfolding run_group fold_lanes
  sha_kernel unset streams n_groups blocks iterations =
      if iterations == 0 || blocks == 0
      then replicate 8 0
      else (let start = map (λ x. v.set1 0) a.iv in
          let acc = for_range n_groups 0 (run_group unset streams blocks iterations) start in
          map (fold_lanes v a) acc ++ replicate (8 - length a.iv) 0)
