-- ===== src/Gpu/Item.antt =====
-- What one work-item leaves in local memory.
use valubench.Prelude.{
  ℕ, ◌+◌, ◌*◌, ◌≤◌, ◌<◌, ◌≡◌, ◌≢◌, refl, sym, ap, ap₂, ◌∙◌, ◌⊎◌, inl, inr, ltb, ◌==◌, ==_iff,
  lt→ltb, le→ltb, ltb→lt, Bool-cases, false, if◌then◌else◌, bit_xor, for_range, for_range_inv,
  arith,
}
use valubench.Workload.Corpus.{Memory, store}
use valubench.Workload.Corpus.Index.{mix_inj}
use valubench.Gpu.{fold_word, fold_item}

==-false : (a b : ℕ) → (a == b) ≡ false → a ≢ b
==-false a b h e = ground arith

below-suc : (j k : ℕ) → j < k + 1 → j ≢ k → j < k
below-suc j k h ne = ground (arith, h, ne)

store-at : (mem : Memory) (at v k : ℕ) → k ≡ at → store mem at v k ≡ v
store-at mem at v k e = ground (arith, e)

store-off : (mem : Memory) (at v k : ℕ) → k ≢ at → store mem at v k ≡ mem k
store-off mem at v k ne = ground (arith, ne)

module _ (words s lid : ℕ) (before : Memory) where
  -- The words below `k` are folded, and nothing else has changed.
  record Folded (k : ℕ) (after : Memory) : Type 0 where
    folds :
        (j : ℕ)
        → j < k
        → after (lid * words + j)
          ≡ bit_xor (before (lid * words + j)) (before ((lid + s) * words + j))
    keeps :
        (i j : ℕ) → j < words → (i ≢ lid) ⊎ (k ≤ j) → after (i * words + j) ≡ before (i * words + j)

  apart :
      (i j k : ℕ) → j < words → k < words → (i ≢ lid) ⊎ (j ≢ k) → i * words + j ≢ lid * words + k
  apart i j k hj hk (inl ne) e = ne (mix_inj i j lid k words hj hk e).0
  apart i j k hj hk (inr ne) e = ne (mix_inj i j lid k words hj hk e).1

  weaken : (i j k : ℕ) → (i ≢ lid) ⊎ (k + 1 ≤ j) → ((i ≢ lid) ⊎ (k ≤ j)) × ((i ≢ lid) ⊎ (j ≢ k))
  weaken i j k (inl ne) = (inl ne, inl ne)
  weaken i j k (inr le) = (inr (omega (arith, le)), inr (λ e. absurd (omega (arith, le, e))))

  fold_word-Folded :
      (k : ℕ) (mem : Memory)
      → 0 < s
      → k < words
      → Folded k mem
      → Folded (k + 1) (fold_word words s lid k mem)
  unfolding fold_word
  fold_word-Folded k mem pos small h =
      let at = lid * words + k in
      let v = bit_xor (mem at) (mem ((lid + s) * words + k)) in
      let far : lid + s ≢ lid = λ e. absurd (omega (arith, pos, e)) in
      record {
        folds = λ j hj. elim (Bool-cases (j == k)) [
          | inl same ↦
              let e = (==_iff j k).0 same in
              store-at mem at v (lid * words + j) (ap (λ x. lid * words + x) e)
              ∙ ap₂ bit_xor (h.keeps lid k small (inr (omega arith)))
                  (h.keeps (lid + s) k small (inl far))
              ∙ ap (λ x. bit_xor (before (lid * words + x)) (before ((lid + s) * words + x)))
                  (sym e)
          | inr other ↦
              let ne : j ≢ k = λ e. ==-false j k other e in
              store-off mem at v (lid * words + j)
                (apart lid j k (omega (arith, hj, small)) small (inr ne))
              ∙ h.folds j (below-suc j k hj ne)
        ];
        keeps = λ i j hj out.
            let w = weaken i j k out in
            store-off mem at v (i * words + j) (apart i j k hj small w.1) ∙ h.keeps i j hj w.0;
      }

  all-Folded :
      (mem : Memory)
      → 0 < s
      → Folded 0 mem
      → Folded words (for_range words 0 (fold_word words s lid) mem)
  all-Folded mem pos h =
      for_range_inv (λ k m. k ≤ words → Folded k m) (fold_word words s lid)
        (λ k m now le. fold_word-Folded k m pos (omega (arith, le)) (now (omega (arith, le)))) words
        0 words mem (omega arith) (λ le. h) (omega arith)

  start-Folded : Folded 0 before
  start-Folded = record { folds = λ j h. absurd (omega (arith, h)); keeps = λ i j h out. refl }

-- A work-item below `s` XORs the digest `s` above into its own and changes nothing else; the others
-- change nothing.
pub fold_item-folds :
    (words s lid j : ℕ) (before : Memory)
    → lid < s
    → j < words
    → fold_item words s before lid (lid * words + j)
      ≡ bit_xor (before (lid * words + j)) (before ((lid + s) * words + j))
unfolding fold_item
fold_item-folds words s lid j before below h =
    ap
      (λ b.
        (if b then for_range words 0 (fold_word words s lid) before else before) (lid * words + j))
      (lt→ltb lid s below)
    ∙ (all-Folded words s lid before before (omega (arith, below))
          (start-Folded words s lid before)).folds
        j h

pub fold_item-keeps :
    (words s lid i j : ℕ) (before : Memory)
    → j < words
    → i ≢ lid
    → fold_item words s before lid (i * words + j) ≡ before (i * words + j)
unfolding fold_item
fold_item-keeps words s lid i j before h ne = elim (Bool-cases (ltb lid s)) [
  | inl below ↦
      ap
        (λ b.
          (if b then for_range words 0 (fold_word words s lid) before else before) (i * words + j))
        below
      ∙ (all-Folded words s lid before before (omega (arith, ltb→lt lid s below))
            (start-Folded words s lid before)).keeps
          i j h (inl ne)
  | inr above ↦
      ap
        (λ b.
          (if b then for_range words 0 (fold_word words s lid) before else before) (i * words + j))
        above
]

pub fold_item-idle :
    (words s lid : ℕ) (before : Memory)
    → s ≤ lid
    → (at : ℕ) → fold_item words s before lid at ≡ before at
unfolding fold_item
fold_item-idle words s lid before above at =
    ap (λ b. (if b then for_range words 0 (fold_word words s lid) before else before) at)
      (le→ltb lid s above)
