-- ===== src/Kernel/Sha/Sums.antt =====
-- The kernel's checksum is the XOR over all messages, whatever stream and lane each is in.
use valubench.Prelude.{ℕ, zero, suc, ◌+◌, ◌*◌, ◌≤◌, ◌<◌, ◌≡◌, refl, sym, ap, ◌∙◌, arith, bit_xor}
use valubench.Prelude.{List, [], ◌∷◌, length, get_or, map, foldl, for_range, for_range_inv}
use valubench.Prelude.{foldl-map, for_range-map, foldl-for_range, map-map, fun_ext}
use mathlib.Core.Path.{subst}
use valubench.Bits.Fold.{xor_range, xor_range-ext, for_range-xor, xor_range-mul, xor_range-swap}
use valubench.Kernel.Isa.{Simd}
use valubench.Kernel.Sha.{
  Rounds, S, init_h, act_stream, each_stream, chain_block, feedback, accumulate, fold_lanes,
  start_block, run_block, run_iteration, load_slot, load_group, run_group,
}
use valubench.Kernel.Sha.Streams.{stream_block}
use valubench.Kernel.Sha.Iterations.{stream_iteration}

module _ (v : Simd) (r : Rounds v.Vec) where
  length-accumulate : (acc h : List v.Vec) → length (accumulate v r acc h) ≡ length acc
  unfolding accumulate
  length-accumulate [] h = refl
  length-accumulate (c ∷ acc) [] = refl
  length-accumulate (c ∷ acc) (x ∷ h) = ap suc (length-accumulate acc h)

  get_or-accumulate :
      (acc h : List v.Vec) (j : ℕ) (d : v.Vec)
      → j < length acc
      → j < length h
      → get_or (accumulate v r acc h) j d ≡ v.xor (get_or acc j d) (get_or h j d)
  unfolding accumulate
  get_or-accumulate [] h j d p q = absurd (omega arith)
  get_or-accumulate (c ∷ acc) [] j d p q = absurd (omega arith)
  get_or-accumulate (c ∷ acc) (x ∷ h) zero d p q = refl
  get_or-accumulate (c ∷ acc) (x ∷ h) (suc j) d p q =
      get_or-accumulate acc h j d (omega arith) (omega arith)

module _ (v : Simd) (r : Rounds v.Vec) (corpus : ℕ → ℕ) where
  run_block-map :
      (b : ℕ) (ss : List (S v r)) → run_block v r corpus b ss ≡ map (stream_block v r corpus b) ss
  unfolding run_block stream_block each_stream
  run_block-map b ss =
      ap (map (chain_block v r)) (
        foldl-map (act_stream v r) r.acts (map (start_block v r corpus b) ss)
        ∙ map-map (λ s. foldl (λ s t. act_stream v r t s) s r.acts) (start_block v r corpus b) ss)
      ∙ map-map (chain_block v r)
          (λ s. foldl (λ s t. act_stream v r t s) (start_block v r corpus b s) r.acts) ss

  run_iteration-map :
      (blocks : ℕ) (ss : List (S v r))
      → run_iteration v r corpus blocks ss ≡ map (stream_iteration v r corpus blocks) ss
  unfolding run_iteration stream_iteration
  run_iteration-map blocks ss =
      ap (map (feedback v r)) (
        ap (λ body. for_range blocks 0 body (map (init_h v r) ss))
          (fun_ext (λ b. fun_ext (run_block-map b)))
        ∙ for_range-map (stream_block v r corpus) blocks 0 (map (init_h v r) ss)
        ∙ map-map (for_range blocks 0 (stream_block v r corpus)) (init_h v r) ss)
      ∙ map-map (feedback v r) (λ s. for_range blocks 0 (stream_block v r corpus) (init_h v r s)) ss

  module _ (unset : S v r) (streams blocks iterations : ℕ) where
    abbrev iterate : S v r → S v r
    iterate s = for_range iterations 0 (λ it. stream_iteration v r corpus blocks) s

    -- The stream that has worked through slot `m`.
    abbrev pub finished : ℕ → S v r
    finished m = iterate (load_slot v r corpus unset blocks m)

    abbrev turn : ℕ → ℕ → List v.Vec → List v.Vec
    turn g k acc = accumulate v r acc (finished (g * streams + k)).h

    run_group-for_range :
        (g : ℕ) (acc : List v.Vec)
        → run_group v r corpus unset streams blocks iterations g acc
          ≡ for_range streams 0 (turn g) acc
    unfolding run_group load_group
    run_group-for_range g acc =
        ap (foldl (λ acc s. accumulate v r acc s.h) acc) (
          ap
            (λ body.
              for_range iterations 0 (λ it. body) (load_group v r corpus unset streams blocks g))
            (fun_ext (run_iteration-map blocks))
          ∙ for_range-map (λ it. stream_iteration v r corpus blocks) iterations 0
              (load_group v r corpus unset streams blocks g))
        ∙ foldl-for_range (λ k. load_slot v r corpus unset blocks (g * streams + k)) iterate
            (λ acc s. accumulate v r acc s.h) streams acc

    pub length-groups :
        (n_groups n : ℕ) (acc : List v.Vec)
        → length acc ≡ n
        → length (for_range n_groups 0 (run_group v r corpus unset streams blocks iterations) acc)
          ≡ n
    length-groups n_groups n acc e =
        for_range_inv (λ g acc. length acc ≡ n)
          (run_group v r corpus unset streams blocks iterations)
          (λ g acc h.
            ap length (run_group-for_range g acc)
            ∙ for_range_inv (λ k acc. length acc ≡ n) (turn g)
                (λ k acc h. length-accumulate v r acc (finished (g * streams + k)).h ∙ h) streams 0
                streams acc (omega arith) h)
          n_groups 0 n_groups acc (omega arith) e

    module _
        (on_xor : (x y : v.Vec) (l : ℕ)
          → l < v.lanes
          → v.store (v.xor x y) l ≡ bit_xor (v.store x l) (v.store y l))
        (n total : ℕ) (sized : (m : ℕ) → m < total → length (finished m).h ≡ n) (l j : ℕ)
        (inside : l < v.lanes) (small : j < n) where
      abbrev word : List v.Vec → ℕ
      word x = v.store (get_or x j (v.set1 0)) l

      abbrev value : ℕ → ℕ
      value m = word (finished m).h

      record Sum (m : ℕ) (acc : List v.Vec) : Type 0 where
        pub size : length acc ≡ n
        pub sum : m ≤ total → word acc ≡ xor_range m value

      accumulate-Sum :
          (m : ℕ) (acc : List v.Vec) → Sum m acc → Sum (m + 1) (accumulate v r acc (finished m).h)
      accumulate-Sum m acc h =
          let next : suc m ≡ m + 1 = omega arith in
          record {
            size = length-accumulate v r acc (finished m).h ∙ h.size;
            sum = λ in_range.
                ap (λ x. v.store x l)
                  (get_or-accumulate v r acc (finished m).h j (v.set1 0) (omega (arith, h.size))
                    (omega (arith, sized m (omega arith))))
                ∙ on_xor (get_or acc j (v.set1 0)) (get_or (finished m).h j (v.set1 0)) l inside
                ∙ ap (λ t. bit_xor t (value m)) (h.sum (omega arith))
                ∙ ap (λ k. xor_range k value) next;
          }

      run_group-Sum :
          (g : ℕ) (acc : List v.Vec)
          → Sum (g * streams) acc
          → Sum ((g + 1) * streams) (run_group v r corpus unset streams blocks iterations g acc)
      run_group-Sum g acc h = subst (Sum ((g + 1) * streams)) (sym (run_group-for_range g acc)) (
          subst (λ m. Sum m (for_range streams 0 (turn g) acc)) {x = g * streams + streams}
            (omega arith)
            (for_range_inv (λ k acc. Sum (g * streams + k) acc) (turn g)
              (λ k acc s.
                subst (λ m. Sum m (turn g k acc)) {x = g * streams + k + 1} (omega arith)
                  (accumulate-Sum (g * streams + k) acc s))
              streams 0 streams acc (omega arith)
              (subst (λ m. Sum m acc) {x = g * streams} (omega arith) h)))

      -- After all groups, lane `l` of accumulator `j` holds the XOR over the slots.
      groups-Sum :
          (n_groups : ℕ) (acc : List v.Vec)
          → Sum 0 acc
          → Sum
              (n_groups * streams)
              (for_range n_groups 0 (run_group v r corpus unset streams blocks iterations) acc)
      groups-Sum n_groups acc e =
          for_range_inv (λ g acc. Sum (g * streams) acc)
            (run_group v r corpus unset streams blocks iterations) run_group-Sum n_groups 0 n_groups
            acc (omega arith) (subst (λ m. Sum m acc) {x = 0} (omega arith) e)

    -- Given the state word `j` of every message `m * lanes + l`, the fold over lanes is the XOR of
    -- them all.
    pub fold_lanes-xor_range :
        ((x y : v.Vec) (l : ℕ)
          → l < v.lanes
          → v.store (v.xor x y) l ≡ bit_xor (v.store x l) (v.store y l))
        → (n n_groups j : ℕ) (acc : List v.Vec) (word_of : ℕ → ℕ) → j < n
        → length acc ≡ n
        → ((m : ℕ) → m < n_groups * streams → length (finished m).h ≡ n)
        → ((l : ℕ) → l < v.lanes → v.store (get_or acc j (v.set1 0)) l ≡ 0)
        → ((m l : ℕ)
            → m < n_groups * streams
            → l < v.lanes
            → v.store (get_or (finished m).h j (v.set1 0)) l ≡ word_of (m * v.lanes + l))
        → fold_lanes v r (
            get_or
              (for_range n_groups 0 (run_group v r corpus unset streams blocks iterations) acc)
              j
              (v.set1 0))
          ≡ xor_range (n_groups * streams * v.lanes) word_of
    unfolding fold_lanes
    fold_lanes-xor_range on_xor n n_groups j acc word_of small size sized empty words =
        let done =
          for_range n_groups 0 (run_group v r corpus unset streams blocks iterations) acc in
        let total = n_groups * streams in
        for_range-xor v.lanes (v.store (get_or done j (v.set1 0)))
        ∙ xor_range-ext v.lanes (v.store (get_or done j (v.set1 0)))
            (λ l. xor_range total (λ m. word_of (m * v.lanes + l)))
            (λ l h.
              (groups-Sum on_xor n total sized l j h small n_groups acc
                  (record { size = size; sum = λ in_range. empty l h })).sum
                (omega arith)
              ∙ xor_range-ext total (value on_xor n total sized l j h small)
                  (λ m. word_of (m * v.lanes + l)) (λ m hm. words m l hm h))
        ∙ xor_range-swap v.lanes total (λ l m. word_of (m * v.lanes + l))
        ∙ sym (xor_range-mul total v.lanes word_of)
