-- ===== src/Kernel/Md5.antt =====
-- src/kernels/cpu/md5_kernel_impl.h: the MD5 kernel over any operations and any number of streams.
pub mod Table
pub mod Steps
pub mod Blocks
pub mod Iterations
pub mod Checksum
pub mod Digest
pub mod Reference
pub mod Exact
use valubench.Prelude.{
  ℕ, ◌+◌, ◌*◌, bit_xor, ltb, ◌==◌, ◌||◌, if◌then◌else◌, List, [], ◌∷◌, ◌++◌, map, foldl,
}
use valubench.Prelude.{get_or, replicate, for_range}
use valubench.Hash.Md5.{md5_t}
use valubench.Kernel.Ops.{Ops}
use valubench.Kernel.Md5.Table.{Fn, Turn, Step, steps}

-- Four of a kind: A to D, h0 to h3, words 0 to 3, or the accumulators.
pub record Quad (V : Type 0) : Type 0 where
  pub a : V
  pub b : V
  pub c : V
  pub d : V

abbrev pub pick : {V : Type 0} → Quad V → ℕ → V
pick q j = if j == 0 then q.a else if j == 1 then q.b else if j == 2 then q.c else q.d

-- The variables of one stream. `slot` and `wp` are element indices into the corpus.
pub record Stream (V : Type 0) : Type 0 where
  pub slot : ℕ
  pub wp : ℕ
  pub wv : Quad V
  pub h : Quad V
  pub r : Quad V

module _ (o : Ops) where
  abbrev pub apply_fn : Fn → o.Vec → o.Vec → o.Vec → o.Vec
  apply_fn Fn.f x y z = o.f x y z
  apply_fn Fn.g x y z = o.g x y z
  apply_fn Fn.h x y z = o.h x y z
  apply_fn Fn.i x y z = o.i x y z

  -- The five lines of MD5K_STEP1, with the message word given.
  unfoldable pub mix : Fn → o.Vec → ℕ → ℕ → o.Vec → o.Vec → o.Vec → o.Vec → o.Vec
  mix fn w ti sh a b c d =
      let a = o.add a (apply_fn fn b c d) in
      let a = o.add a w in
      let a = o.add a (o.set1 (get_or md5_t ti 0)) in let a = o.rotl a sh in o.add a b

  -- The step assigns to the register that stands in the first place.
  unfoldable pub step1 : Turn → Fn → o.Vec → ℕ → ℕ → Quad o.Vec → Quad o.Vec
  unfolding mix
  step1 Turn.abcd fn w ti sh q = record q { a = mix fn w ti sh q.a q.b q.c q.d }
  step1 Turn.dabc fn w ti sh q = record q { d = mix fn w ti sh q.d q.a q.b q.c }
  step1 Turn.cdab fn w ti sh q = record q { c = mix fn w ti sh q.c q.d q.a q.b }
  step1 Turn.bcda fn w ti sh q = record q { b = mix fn w ti sh q.b q.c q.d q.a }

  -- MD5K_CHAIN.
  unfoldable pub chain_block : Stream o.Vec → Stream o.Vec
  chain_block s = record s {
    h = record {
      a = o.add s.h.a s.r.a;
      b = o.add s.h.b s.r.b;
      c = o.add s.h.c s.r.c;
      d = o.add s.h.d s.r.d;
    };
  }

  -- MD5K_INIT_H.
  unfoldable pub init_h : Stream o.Vec → Stream o.Vec
  init_h s = record s {
    h = record {
      a = o.set1 0x67452301;
      b = o.set1 0xefcdab89;
      c = o.set1 0x98badcfe;
      d = o.set1 0x10325476;
    };
  }

  -- MD5K_FEEDBACK: the digest becomes words 0 to 3.
  unfoldable pub feedback : Stream o.Vec → Stream o.Vec
  feedback s = record s { wv = s.h }

  -- MD5K_ACC.
  unfoldable pub accumulate : Quad o.Vec → Stream o.Vec → Quad o.Vec
  accumulate acc s = record {
    a = o.xor acc.a s.h.a;
    b = o.xor acc.b s.h.b;
    c = o.xor acc.c s.h.c;
    d = o.xor acc.d s.h.d;
  }

  -- `for (l...) c ^= t[l]`.
  unfoldable pub fold_lanes : o.Vec → ℕ
  fold_lanes v = for_range o.lanes 0 (λ l c. bit_xor c (o.store v l)) 0

module _ (o : Ops) (corpus : ℕ → ℕ) where
  -- MD5K_W: words 0 to 3 from the registers, the others from the corpus.
  unfoldable pub word : Stream o.Vec → ℕ → o.Vec
  word s wi = if ltb wi 4 then pick s.wv wi else o.load corpus (s.wp + wi * o.lanes)

  unfoldable pub step_stream : Step → Stream o.Vec → Stream o.Vec
  unfolding step1 word
  step_stream st s = record s { r = step1 o st.turn st.fn (word s st.wi) st.ti st.sh s.r }

  -- MD5K_STEP: the step on every stream before the next step on any.
  unfoldable pub md5k_step : List (Stream o.Vec) → Step → List (Stream o.Vec)
  unfolding step_stream
  md5k_step streams st = map (step_stream st) streams

  -- Words 0 to 3 of the block at `p`.
  unfoldable pub load_head : ℕ → Quad o.Vec
  load_head p = record {
    a = o.load corpus (p + 0 * o.lanes);
    b = o.load corpus (p + 1 * o.lanes);
    c = o.load corpus (p + 2 * o.lanes);
    d = o.load corpus (p + 3 * o.lanes);
  }

  -- MD5K_START_BLOCK.
  unfoldable pub start_block : ℕ → Stream o.Vec → Stream o.Vec
  unfolding load_head
  start_block b s =
      let wp = s.slot + b * (16 * o.lanes) in
      record s { wp = wp; wv = if ltb 0 b then load_head wp else s.wv; r = s.h }

  -- One turn of the loop over blocks.
  unfoldable pub run_block : ℕ → List (Stream o.Vec) → List (Stream o.Vec)
  unfolding start_block chain_block md5k_step
  run_block b streams = map (chain_block o) (foldl md5k_step (map (start_block b) streams) steps)

  -- One turn of the loop over iterations.
  unfoldable pub run_iteration : ℕ → List (Stream o.Vec) → List (Stream o.Vec)
  unfolding init_h feedback run_block
  run_iteration blocks streams =
      map (feedback o) (for_range blocks 0 run_block (map (init_h o) streams))

  -- MD5K_LOAD_SLOT. `unset` is what the other variables hold before they are assigned.
  unfoldable pub load_slot : Quad o.Vec → ℕ → ℕ → Stream o.Vec
  unfolding load_head
  load_slot unset blocks k =
      let slot = k * (blocks * 16 * o.lanes) in
      record { slot = slot; wp = slot; wv = load_head slot; h = unset; r = unset }

  -- The streams of group `g`: consecutive slots.
  unfoldable pub load_group : Quad o.Vec → ℕ → ℕ → ℕ → List (Stream o.Vec)
  unfolding load_slot
  load_group unset streams blocks g =
      for_range streams 0 (λ k ss. ss ++ (load_slot unset blocks (g * streams + k) ∷ [])) []

  -- One turn of the loop over groups.
  unfoldable pub run_group : Quad o.Vec → ℕ → ℕ → ℕ → ℕ → Quad o.Vec → Quad o.Vec
  unfolding load_group run_iteration accumulate
  run_group unset streams blocks iterations g acc =
      foldl (accumulate o) acc
        (for_range iterations 0 (λ it. run_iteration blocks) (load_group unset streams blocks g))

  unfoldable pub md5_kernel : Quad o.Vec → ℕ → ℕ → ℕ → ℕ → List ℕ
  unfolding run_group fold_lanes
  md5_kernel unset streams n_groups blocks iterations =
      if iterations == 0 || blocks == 0
      then replicate 8 0
      else (let zero_vec = o.set1 0 in
          let start : Quad o.Vec = record {
            a = zero_vec;
            b = zero_vec;
            c = zero_vec;
            d = zero_vec;
          } in
          let acc = for_range n_groups 0 (run_group unset streams blocks iterations) start in
          fold_lanes o acc.a
          ∷ fold_lanes o acc.b
          ∷ fold_lanes o acc.c
          ∷ fold_lanes o acc.d
          ∷ replicate 4 0)
