-- ===== src/Prelude/Collect.antt =====
-- Loops that fill a list, and loops that run over every element of one.
use Prim.Native.Nat.{ℕ, zero, suc, ◌+◌, ◌<◌}
use mathlib.Core.Path.{◌≡◌, refl, sym, ap, ◌∙◌}
use mathlib.Core.List.{List, [], ◌∷◌, ◌++◌, map, foldl, map-map, map-id, map-append, foldl-append}
use mathlib.Core.Logic.{◌⊎◌, inl, inr}
use native.Mathlib.Omega.{arith}
use valubench.Prelude.Lists.{length, get_or, length-append, get_or-left, get_or-append}
use valubench.Prelude.Loops.{for_range, for_range_inv}

module _ {ℓ} {A : Type ℓ} (f : ℕ → A) where
  -- `for (i...) out[i] = f (i)`, as the list that has grown.
  abbrev pub push : ℕ → List A → List A
  push i out = out ++ (f i ∷ [])

  record Filled (d : A) (k : ℕ) (out : List A) : Type ℓ where
    size : length out ≡ k
    at : (j : ℕ) → j < k → get_or out j d ≡ f j

  push-Filled : (d : A) (k : ℕ) (out : List A) → Filled d k out → Filled d (k + 1) (push k out)
  push-Filled d k out p = record {
    size = omega (arith, length-append out (f k ∷ []), p.size);
    at = λ j h. elim (old_or_new j h) [
      | inl old ↦ get_or-left out (f k ∷ []) j d (omega (arith, p.size)) ∙ p.at j old
      | inr new ↦ get_or-append out (f k) [] j d (new ∙ sym p.size) ∙ ap f (sym new)
    ];
  }
    where
      old_or_new : (j : ℕ) → j < k + 1 → (j < k) ⊎ (j ≡ k)
      old_or_new j h = omega arith

  filled : (d : A) (n : ℕ) → Filled d n (for_range n 0 push [])
  filled d n =
      for_range_inv (Filled d) push (push-Filled d) n 0 n [] (omega arith)
        (record { size = refl; at = λ j h. absurd (omega arith) })

  pub length-for_range : (n : ℕ) (d : A) → length (for_range n 0 push []) ≡ n
  length-for_range n d = (filled d n).size

  pub get_or-for_range : (n j : ℕ) (d : A) → j < n → get_or (for_range n 0 push []) j d ≡ f j
  get_or-for_range n j d h = (filled d n).at j h

module _ {ℓ κ} {S : Type ℓ} {X : Type κ} where
  -- A pass per operation is a pass per element.
  pub foldl-map :
      (act : X → S → S) (xs : List X) (ss : List S)
      → foldl (λ ss x. map (act x) ss) ss xs ≡ map (λ s. foldl (λ s x. act x s) s xs) ss
  foldl-map act [] ss = sym (map-id ss)
  foldl-map act (x ∷ xs) ss =
      foldl-map act xs (map (act x) ss) ∙ map-map (λ s. foldl (λ s x. act x s) s xs) (act x) ss

module _ {ℓ} {S : Type ℓ} where
  pub for_range-map :
      (act : ℕ → S → S) (n k : ℕ) (ss : List S)
      → for_range n k (λ i ss. map (act i) ss) ss ≡ map (for_range n k act) ss
  for_range-map act zero k ss = sym (map-id ss)
  for_range-map act (suc n) k ss =
      for_range-map act n (k + 1) (map (act k) ss) ∙ map-map (for_range n (k + 1) act) (act k) ss

module _ {ℓ κ μ} {X : Type ℓ} {S : Type κ} {B : Type μ} (f : ℕ → X) (run : X → S)
    (step : B → S → B) where
  foldl-pushed :
      (n k : ℕ) (out : List X) (b : B)
      → foldl step b (map run (for_range n k (push f) out))
        ≡ for_range n k (λ i b. step b (run (f i))) (foldl step b (map run out))
  foldl-pushed zero k out b = refl
  foldl-pushed (suc n) k out b =
      foldl-pushed n (k + 1) (out ++ f k ∷ []) b
      ∙ ap (for_range n (k + 1) (λ i b. step b (run (f i)))) (
          ap (foldl step b) (map-append run out (f k ∷ []))
          ∙ foldl-append step b (map run out) (run (f k) ∷ []))

  -- A fold over a list that a loop has filled is a loop.
  pub foldl-for_range :
      (n : ℕ) (b : B)
      → foldl step b (map run (for_range n 0 (push f) []))
        ≡ for_range n 0 (λ i b. step b (run (f i))) b
  foldl-for_range n b = foldl-pushed n 0 [] b
