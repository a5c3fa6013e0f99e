-- ===== src/Kernel/Sha/Windows.antt =====
-- The rolling window: the slot `i % 16` holds word `i` of the message schedule, for the last sixteen
-- words.
use valubench.Prelude.{
  ℕ, zero, suc, ◌+◌, ◌%◌, ◌≤◌, ◌<◌, ◌≡◌, refl, sym, ap, ◌∙◌, arith, ◌⊎◌, inl, inr,
}
use valubench.Prelude.{List, [], ◌∷◌, ◌++◌, length, get_or, map, for_range}
use valubench.Kernel.Isa.{Simd}
use valubench.Prelude.{set, length-set, get_or-set_same, get_or-set_other}
use valubench.Prelude.{length-append, get_or-left, get_or-append}

-- Lane `l` of every vector.
abbrev pub lanes_at : (v : Simd) → ℕ → List v.Vec → List ℕ
lanes_at v l w = map (λ x. v.store x l) w

-- A schedule grows by a word computed from the words before it.
module _ (next : ℕ → (ℕ → ℕ) → ℕ) where
  abbrev pub grow : ℕ → List ℕ → List ℕ
  grow i w = w ++ (next i (λ j. get_or w j 0) ∷ [])

  abbrev LooksBack : Type 0
  LooksBack = (i : ℕ) (f g : ℕ → ℕ) → ((j : ℕ) → j < i → f j ≡ g j) → 16 ≤ i → next i f ≡ next i g

  grow-old :
      (n k i : ℕ) (w : List ℕ)
      → length w ≡ k
      → i < k
      → get_or (for_range n k grow w) i 0 ≡ get_or w i 0
  grow-old zero k i w e h = refl
  grow-old (suc n) k i w e h =
      let x = next k (λ j. get_or w j 0) in
      grow-old n (k + 1) i (grow k w) (omega (arith, length-append w (x ∷ []), e)) (omega arith)
      ∙ get_or-left w (x ∷ []) i 0 (omega (arith, e))

  -- Word `i` of the whole schedule, from the words of the whole schedule.
  pub grow-next :
      (n k i : ℕ) (w : List ℕ)
      → LooksBack
      → 16 ≤ k
      → length w ≡ k
      → k ≤ i
      → i < k + n
      → get_or (for_range n k grow w) i 0 ≡ next i (λ j. get_or (for_range n k grow w) j 0)
  grow-next zero k i w back long e h lt = absurd (omega arith)
  grow-next (suc n) k i w back long e h lt = elim (now_or_later i h) [
    | inl now ↦
        let x = next k (λ j. get_or w j 0) in
        let size : length (grow k w) ≡ k + 1 = omega (arith, length-append w (x ∷ []), e) in
        grow-old n (k + 1) i (grow k w) size (omega (arith, now))
        ∙ get_or-append w x [] i 0 (sym now ∙ sym e)
        ∙ back k (λ j. get_or w j 0) (λ j. get_or (for_range (suc n) k grow w) j 0)
            (λ j hj. sym (grow-old (suc n) k j w e hj)) long
        ∙ ap (λ k'. next k' (λ j. get_or (for_range (suc n) k grow w) j 0)) now
    | inr later ↦
        let x = next k (λ j. get_or w j 0) in
        grow-next n (k + 1) i (grow k w) back (omega arith)
          (omega (arith, length-append w (x ∷ []), e)) later (omega arith)
  ]
    where
      now_or_later : (i : ℕ) → k ≤ i → (k ≡ i) ⊎ (k + 1 ≤ i)
      now_or_later i h = omega arith

  pub grow-first :
      (n k i : ℕ) (w : List ℕ)
      → length w ≡ k
      → i < k
      → get_or (for_range n k grow w) i 0 ≡ get_or w i 0
  grow-first n k i w e h = grow-old n k i w e h

-- At word `i`, the window holds the sixteen words before it.
pub record Window (words : ℕ → ℕ) (i : ℕ) (w : List ℕ) : Type 0 where
  pub size : length w ≡ 16
  pub at : (j : ℕ) → j < i → i ≤ j + 16 → get_or w (j % 16) 0 ≡ words j

-- Writing word `i` in place moves the window on.
pub set-Window :
    (words : ℕ → ℕ) (i : ℕ) (w : List ℕ)
    → Window words i w
    → Window words (i + 1) (set w (i % 16) (words i))
set-Window words i w h = record {
  size = length-set w (i % 16) (words i) ∙ h.size;
  at = λ j lt near. elim (new_or_old j lt) [
    | inl new ↦
        ap (λ k. get_or (set w (i % 16) (words i)) (k % 16) 0) new
        ∙ get_or-set_same w (i % 16) (words i) 0 (omega (arith, h.size))
        ∙ ap words (sym new)
    | inr old ↦
        get_or-set_other w (i % 16) (j % 16) (words i) 0 (λ e. absurd (omega (arith, e)))
        ∙ h.at j old (omega arith)
  ];
}
  where
    new_or_old : (j : ℕ) → j < i + 1 → (j ≡ i) ⊎ (j < i)
    new_or_old j lt = omega arith
