-- ===== src/Gpu/Tests.antt =====
-- The reduction of a work-group at concrete inputs.
use valubench.Prelude.{ℕ, ◌+◌, ◌*◌, ◌^◌, ◌<◌, ◌≡◌, refl, true, List, [], ◌∷◌, arith}
use valubench.Bits.Fold.{xor_range}
use valubench.Gpu.{fold_group, member}
use valubench.Gpu.Tree.{fold_group-xor_range}

-- Four work-items, the last first.
abbrev backwards : List ℕ
backwards = 3 ∷ 2 ∷ 1 ∷ 0 ∷ []

everyone : (i : ℕ) → i < 4 → member i backwards ≡ true
everyone i h = ground (arith, h)

fold_group-xor_range_example :
    fold_group 2 (λ s. backwards) (2 ^ 2) (λ k. k * k + 5) (0 * 2 + 1)
    ≡ xor_range (2 ^ 2) (λ i. (i * 2 + 1) * (i * 2 + 1) + 5)
fold_group-xor_range_example =
    fold_group-xor_range 2 2 1 (λ s. backwards) (λ k. k * k + 5)
      (λ s. (refl, (refl, (refl, (refl, tt))))) (λ s i h. everyone i h) (omega arith)

-- 6, 14, 30 and 54.
group_run : fold_group 2 (λ s. backwards) 4 (λ k. k * k + 5) 1 ≡ 32
unfolding fold_group
group_run = refl
