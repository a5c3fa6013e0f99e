-- ===== src/Gpu/Round.antt =====
-- What the work-items of a group leave between two barriers, in any order.
use valubench.Prelude.{
  ℕ, ◌+◌, ◌*◌, ◌≤◌, ◌<◌, ◌≡◌, ◌≢◌, refl, sym, ap₂, ◌∙◌, ◌⊎◌, inl, inr, ◌==◌, ==_iff, Bool,
  Bool-cases, true, false, ◌||◌, List, [], ◌∷◌, bit_xor, arith,
}
use mathlib.Core.Path.{subst}
use valubench.Workload.Corpus.{Memory}
use valubench.Gpu.{fold_item, fold_round, member}
use valubench.Gpu.Item.{fold_item-folds, fold_item-keeps, fold_item-idle}

-- No work-item twice.
abbrev pub Distinct : List ℕ → Type 0
Distinct [] = Unit {0}
Distinct (x ∷ order) = (member x order ≡ false) × Distinct order

==-false : (a b : ℕ) → (a == b) ≡ false → a ≢ b
==-false a b h e = ground arith

or-parts : (a b : Bool) → (a || b) ≡ false → (a ≡ false) × (b ≡ false)
or-parts true b h = ground arith
or-parts false b h = (refl, h)

or-rest : (a b : Bool) → a ≡ false → (a || b) ≡ true → b ≡ true
or-rest true b e h = ground arith
or-rest false b e h = h

module _ (words s : ℕ) where
  fold_item-out :
      (lid i j : ℕ) (mem : Memory)
      → j < words
      → (i ≢ lid) ⊎ (s ≤ i)
      → fold_item words s mem lid (i * words + j) ≡ mem (i * words + j)
  fold_item-out lid i j mem h out = elim (Bool-cases (i == lid)) [
    | inr ne ↦ fold_item-keeps words s lid i j mem h (==-false i lid ne)
    | inl e ↦
        let above : s ≤ i = elim out [
          | inl ne ↦ absurd (ne ((==_iff i lid).0 e))
          | inr high ↦ high
        ] in
        fold_item-idle words s lid mem (omega (arith, above, (==_iff i lid).0 e)) (i * words + j)
  ]

  fold_round-out :
      (order : List ℕ) (i j : ℕ) (mem : Memory)
      → j < words
      → (member i order ≡ false) ⊎ (s ≤ i)
      → fold_round words s order mem (i * words + j) ≡ mem (i * words + j)
  unfolding fold_round
  fold_round-out [] i j mem h out = refl
  fold_round-out (x ∷ order) i j mem h (inr high) =
      fold_round-out order i j (fold_item words s mem x) h (inr high)
      ∙ fold_item-out x i j mem h (inr high)
  fold_round-out (x ∷ order) i j mem h (inl absent) =
      let parts = or-parts (i == x) (member i order) absent in
      fold_round-out order i j (fold_item words s mem x) h (inl parts.1)
      ∙ fold_item-keeps words s x i j mem h (==-false i x parts.0)

  pub fold_round-folds :
      (order : List ℕ) (i j : ℕ) (mem : Memory)
      → Distinct order
      → member i order ≡ true
      → i < s
      → j < words
      → fold_round words s order mem (i * words + j)
        ≡ bit_xor (mem (i * words + j)) (mem ((i + s) * words + j))
  unfolding fold_round
  fold_round-folds [] i j mem d there below h = ground arith
  fold_round-folds (x ∷ order) i j mem d there below h = elim (Bool-cases (i == x)) [
    | inl e ↦
        let same = (==_iff i x).0 e in
        fold_round-out order i j (fold_item words s mem x) h
          (inl (subst (λ y. member y order ≡ false) (sym same) d.0))
        ∙ subst
            (λ y.
              fold_item words s mem y (i * words + j)
              ≡ bit_xor (mem (i * words + j)) (mem ((i + s) * words + j)))
            same (fold_item-folds words s i j mem below h)
    | inr ne ↦
        fold_round-folds order i j (fold_item words s mem x) d.1
          (or-rest (i == x) (member i order) ne there) below h
        ∙ ap₂ bit_xor (fold_item-keeps words s x i j mem h (==-false i x ne))
            (fold_item-out x (i + s) j mem h (inr (omega arith)))
  ]
