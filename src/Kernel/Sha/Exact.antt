-- ===== src/Kernel/Sha/Exact.antt =====
-- A kernel of the frame on a corpus gives the reference checksum of its messages.
use valubench.Prelude.{
  ℕ, zero, suc, ◌+◌, ◌-◌, ◌*◌, ◌%◌, ◌^◌, ◌≤◌, ◌<◌, ◌≡◌, refl, sym, ap, ◌∙◌, arith, ◌⊎◌, inl, inr,
}
use valubench.Prelude.{List, [], ◌∷◌, ◌++◌, length, get_or, map, replicate, for_range, ◌==◌, false}
use valubench.Prelude.{
  length-map, length-append, length-replicate, length-for_range, get_or-map, get_or-left,
  get_or-right, get_or-for_range, list_ext,
}
use valubench.Bits.Fold.{xor_range, xor_range-ext}
use valubench.Bits.Xor.{xor-zero}
use valubench.Algorithm.{Algorithm, blocks_for}
use valubench.Algorithm.Blocks.{IsAlgorithm, blocks_for_least}
use valubench.Workload.Corpus.{padded_message, word_at}
use valubench.Workload.Corpus.Index.{mix_lt}
use valubench.Workload.Padding.{engine_of}
use valubench.Workload.Reference.{digest_row}
use valubench.Workload.Reference.Spec.{checksum}
use valubench.Kernel.Isa.{Simd}
use valubench.Kernel.Sha.{Rounds, S, load_words, load_slot, run_group, fold_lanes, sha_kernel}
use valubench.Kernel.Sha.Streams.{IsState, Computes}
use valubench.Kernel.Sha.Iterations.{iterations-state_after, state_after-IsState, fed}
use valubench.Kernel.Sha.Sums.{finished, length-groups, fold_lanes-xor_range}
use valubench.Kernel.Sha.Reference.{
  message_state, state_word, checksum-word, length-checksum, get_or-zeros,
}
use valubench.Kernel.Md5.Exact.{address}

pos-ne_zero : (n : ℕ) → 0 < n → (n == 0) ≡ false
pos-ne_zero n h = ground arith

past-end : (xs : List ℕ) (j : ℕ) → length xs ≤ j → get_or xs j 0 ≡ 0
past-end [] j h = refl
past-end (x ∷ xs) zero h = absurd (omega arith)
past-end (x ∷ xs) (suc j) h = past-end xs j (omega arith)

xor_range-zeros : (n : ℕ) → xor_range n (λ i. 0) ≡ 0
xor_range-zeros zero = refl
xor_range-zeros (suc n) = xor-zero (xor_range n (λ i. 0)) ∙ xor_range-zeros n

module _ (v : Simd) (r : Rounds v.Vec) (g : Algorithm) (known : IsAlgorithm g) (n wb w : ℕ)
    (load : List ℕ → ℕ → ℕ) (c : Computes v r (engine_of g.id) n wb w load)
    (rows : (st : List ℕ) → IsState n w st → digest_row g ((engine_of g.id).store_state st) ≡ st)
    (narrow : v.lanes < 2 ^ 32) (unset : S v r) (streams n_groups start bytes t : ℕ)
    (long : n * wb ≤ bytes) (short : bytes < 2 ^ 32 - 256) (some_iterations : 0 < t)
    (words : ℕ → ℕ) where
  abbrev slots : ℕ
  slots = n_groups * streams

  abbrev n_blocks : ℕ
  n_blocks = blocks_for g bytes

  abbrev message : ℕ → List ℕ
  message k = padded_message g start bytes n_blocks k

  -- The array holds the words of every padded message.
  abbrev Stored : Type 0
  Stored =
      (k b j : ℕ)
      → k < slots * v.lanes
      → b < n_blocks
      → j < 16
      → words (word_at v.lanes n_blocks k b j) % 2 ^ w
        ≡ load (message k) (b * (engine_of g.id).block_len + j * wb)

  module _ (stored : Stored) (fits : slots * v.lanes * n_blocks * 16 < 2 ^ 64) where
    -- What the kernel's load finds at a word of message `m * lanes + l`.
    found :
        (m l b j : ℕ)
        → m < slots
        → l < v.lanes
        → b < n_blocks
        → j < 16
        → v.store
            (v.load words (m * (n_blocks * 16 * v.lanes) + b * (16 * v.lanes) + j * v.lanes))
            l
          ≡ load (message (m * v.lanes + l)) (b * (engine_of g.id).block_len + j * wb)
    found m l b j hm hl hb hj =
        c.on_load words (m * (n_blocks * 16 * v.lanes) + b * (16 * v.lanes) + j * v.lanes) l hl
        ∙ ap (λ k. words k % 2 ^ w)
            (sym (address v.lanes n_blocks slots m l b j hl narrow fits hm hb hj))
        ∙ stored (m * v.lanes + l) b j (mix_lt m l slots v.lanes hm hl) hb hj

    some_blocks : 0 < n_blocks
    some_blocks = grind (arith, blocks_for_least g bytes known short)

    -- The state of one message, in its stream and lane.
    finished-message_state :
        (m l : ℕ)
        → l < v.lanes
        → m < slots
        → map (λ x. v.store x l) (finished v r words unset streams n_blocks t m).h
          ≡ message_state g known c rows start bytes t long short (m * v.lanes + l)
    unfolding load_slot load_words
    finished-message_state m l inside hm =
        iterations-state_after v r words (engine_of g.id) n wb w load c l inside at n_blocks
          (message (m * v.lanes + l)) t (load_slot v r words unset n_blocks m) some_iterations refl
          (record { size = size; at = head }) (λ b j hb hj which. found m l b j hm inside hb hj)
      where
        at : ℕ
        at = m * (n_blocks * 16 * v.lanes)

        vector : ℕ → v.Vec
        vector j = v.load words (at + j * v.lanes)

        size : length (for_range (length r.iv) 0 (λ j w. w ++ (vector j ∷ [])) []) ≡ n
        size = length-for_range vector (length r.iv) (v.set1 0) ∙ c.length_iv

        head :
            (j : ℕ)
            → j < n
            → v.store
                (get_or (for_range (length r.iv) 0 (λ j w. w ++ (vector j ∷ [])) []) j (v.set1 0))
                l
              ≡ load (message (m * v.lanes + l)) (j * wb)
        head j hj =
            ap (λ x. v.store x l)
              (get_or-for_range vector (length r.iv) j (v.set1 0) (omega (arith, hj, c.length_iv)))
            ∙ ap (λ k. v.store (v.load words k) l) {y = at + 0 * (16 * v.lanes) + j * v.lanes}
                (omega arith)
            ∙ found m l 0 j hm inside some_blocks (omega (arith, hj, c.few))
            ∙ ap (load (message (m * v.lanes + l))) (omega arith)

    length-finished :
        (m : ℕ) → m < slots → length (finished v r words unset streams n_blocks t m).h ≡ n
    length-finished m hm =
        sym (length-map (λ x. v.store x 0) (finished v r words unset streams n_blocks t m).h)
        ∙ ap length (finished-message_state m 0 c.some_lanes hm)
        ∙ (state_after-IsState c n_blocks
            (fed (engine_of g.id) n_blocks (t - 1) (message (m * v.lanes + 0)))).size

    word-state_word :
        (j m l : ℕ)
        → m < slots
        → l < v.lanes
        → v.store (get_or (finished v r words unset streams n_blocks t m).h j (v.set1 0)) l
          ≡ state_word g known c rows start bytes t long short j (m * v.lanes + l)
    word-state_word j m l hm inside =
        let h = (finished v r words unset streams n_blocks t m).h in
        sym (get_or-map (λ x. v.store x l) h j (v.set1 0))
        ∙ ap (get_or (map (λ x. v.store x l) h) j) (c.on_zero l inside)
        ∙ ap (λ st. get_or st j 0) (finished-message_state m l inside hm)

    abbrev cleared : List v.Vec
    cleared = map (λ x. v.set1 0) r.iv

    length-cleared : length cleared ≡ n
    length-cleared = length-map (λ x. v.set1 0) r.iv ∙ c.length_iv

    abbrev summed : List v.Vec
    summed = for_range n_groups 0 (run_group v r words unset streams n_blocks t) cleared

    length-summed : length (map (fold_lanes v r) summed) ≡ n
    length-summed =
        length-map (fold_lanes v r) summed
        ∙ length-groups v r words unset streams n_blocks t n_groups n cleared length-cleared

    cleared-at : (xs : List ℕ) (j : ℕ) → get_or (map (λ x. v.set1 0) xs) j (v.set1 0) ≡ v.set1 0
    cleared-at [] j = refl
    cleared-at (x ∷ xs) zero = refl
    cleared-at (x ∷ xs) (suc j) = cleared-at xs j

    -- A word that the digest has.
    result_word :
        (j : ℕ)
        → j < n
        → get_or (map (fold_lanes v r) summed) j 0
          ≡ xor_range (slots * v.lanes) (state_word g known c rows start bytes t long short j)
    result_word j small =
        inner (fold_lanes v r) summed j (omega (arith, small, length-summed'))
        ∙ fold_lanes-xor_range v r words unset streams n_blocks t c.on_xor n n_groups j cleared
            (state_word g known c rows start bytes t long short j) small length-cleared
            length-finished (λ l h. ap (λ x. v.store x l) (cleared-at r.iv j) ∙ c.on_zero l h)
            (λ m l hm hl. word-state_word j m l hm hl)
      where
        length-summed' : length summed ≡ n
        length-summed' = sym (length-map (fold_lanes v r) summed) ∙ length-summed

        inner :
            (f : v.Vec → ℕ) (xs : List v.Vec) (j : ℕ)
            → j < length xs
            → get_or (map f xs) j 0 ≡ f (get_or xs j (v.set1 0))
        inner f [] j h = absurd (omega arith)
        inner f (x ∷ xs) zero h = refl
        inner f (x ∷ xs) (suc j) h = inner f xs j (omega arith)

    result_at :
        (j : ℕ)
        → j < 8
        → get_or (map (fold_lanes v r) summed ++ replicate (8 - length r.iv) 0) j 0
          ≡ get_or (checksum g start (slots * v.lanes) bytes t) j 0
    result_at j h = elim (digest_or_zeros j) [
      | inl digest ↦
          get_or-left (map (fold_lanes v r) summed) (replicate (8 - length r.iv) 0) j 0
            (omega (arith, digest, length-summed))
          ∙ result_word j digest
          ∙ sym (checksum-word g known c rows start bytes t long short (slots * v.lanes) j h)
      | inr zeros ↦
          get_or-right (map (fold_lanes v r) summed) (replicate (8 - length r.iv) 0) j 0
            (omega (arith, zeros, length-summed))
          ∙ get_or-zeros (8 - length r.iv) (j - length (map (fold_lanes v r) summed))
          ∙ sym (
              checksum-word g known c rows start bytes t long short (slots * v.lanes) j h
              ∙ xor_range-ext (slots * v.lanes)
                  (state_word g known c rows start bytes t long short j) (λ m. 0)
                  (λ m lt. past-end (message_state g known c rows start bytes t long short m) j (
                    omega (
                      arith,
                      zeros,
                      (state_after-IsState c n_blocks
                          (fed (engine_of g.id) n_blocks (t - 1) (message m))).size,
                    )))
              ∙ xor_range-zeros (slots * v.lanes))
    ]
      where
        digest_or_zeros : (j : ℕ) → (j < n) ⊎ (n ≤ j)
        digest_or_zeros j = omega arith

    pub sha_kernel-checksum :
        sha_kernel v r words unset streams n_groups n_blocks t
        ≡ checksum g start (slots * v.lanes) bytes t
    unfolding sha_kernel
    sha_kernel-checksum =
        rw (pos-ne_zero t some_iterations, pos-ne_zero n_blocks some_blocks)
          (list_ext (map (fold_lanes v r) summed ++ replicate (8 - length r.iv) 0)
            (checksum g start (slots * v.lanes) bytes t) 0
            (size ∙ sym (length-checksum g start (slots * v.lanes) bytes t))
            (λ j h. result_at j (omega (arith, h, size))))
      where
        size : length (map (fold_lanes v r) summed ++ replicate (8 - length r.iv) 0) ≡ 8
        size = omega (
          arith,
          length-append (map (fold_lanes v r) summed) (replicate (8 - length r.iv) 0),
          length-summed,
          length-replicate {A = ℕ} (8 - length r.iv) 0,
          c.length_iv,
          c.few,
        )
