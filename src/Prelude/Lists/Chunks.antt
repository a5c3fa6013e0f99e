-- ===== src/Prelude/Lists/Chunks.antt =====
-- A list cut into pieces of one size.
use Prim.Native.Nat.{ℕ, zero, suc, ◌*◌}
use mathlib.Core.Path.{◌≡◌, refl, ap}
use mathlib.Core.List.{List, [], ◌∷◌, ◌++◌, append_assoc}
use native.Mathlib.Omega.{arith}
use valubench.Prelude.Lists.Core.{length, take, drop, concat, length-append}
use valubench.Prelude.Lists.Core.{take-append, drop-append}

module _ {ℓ} {A : Type ℓ} where
  -- The first `n` pieces of `size` elements.
  abbrev pub chunks : ℕ → ℕ → List A → List (List A)
  chunks size zero xs = []
  chunks size (suc n) xs = take size xs ∷ chunks size n (drop size xs)

  abbrev pub AllSize : ℕ → List (List A) → Type 0
  AllSize size [] = Unit {0}
  AllSize size (b ∷ bs) = (length b ≡ size) × AllSize size bs

module _ {ℓ} {A : Type ℓ} where
  pub chunks-concat :
      (size : ℕ) (bs : List (List A)) → AllSize size bs → chunks size (length bs) (concat bs) ≡ bs
  chunks-concat size [] h = refl
  chunks-concat size (b ∷ bs) h =
      rw (take-append size b (concat bs) h.0, drop-append size b (concat bs) h.0)
        (ap (λ t. b ∷ t) (chunks-concat size bs h.1))

  pub length-concat :
      (size : ℕ) (bs : List (List A)) → AllSize size bs → length (concat bs) ≡ length bs * size
  length-concat size [] h = omega arith
  length-concat size (b ∷ bs) h =
      omega (arith, length-append b (concat bs), length-concat size bs h.1)

  pub concat-append : (bs cs : List (List A)) → concat (bs ++ cs) ≡ concat bs ++ concat cs
  concat-append [] cs = refl
  concat-append (b ∷ bs) cs = rw (concat-append bs cs, append_assoc b (concat bs) (concat cs))

  pub AllSize-append :
      (size : ℕ) (bs cs : List (List A))
      → AllSize size bs
      → AllSize size cs
      → AllSize size (bs ++ cs)
  AllSize-append size [] cs p q = q
  AllSize-append size (b ∷ bs) cs p q = (p.0, AllSize-append size bs cs p.1 q)
