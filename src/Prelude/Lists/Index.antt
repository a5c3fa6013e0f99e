-- ===== src/Prelude/Lists/Index.antt =====
-- What stands at an index of a list that is cut, joined or overwritten.
use Prim.Native.Nat.{ℕ, zero, suc, ◌+◌, ◌-◌, ◌≤◌, ◌<◌}
use mathlib.Core.Path.{◌≡◌, refl, sym, ap, ap₂, ◌∙◌}
use mathlib.Core.List.{List, [], ◌∷◌, ◌++◌, map}
use mathlib.Core.Logic.{◌≢◌}
use native.Mathlib.Omega.{arith}
use valubench.Prelude.Lists.Core.{length, get_or, take, drop, drop_all, write_at, set}

module _ {ℓ} {A : Type ℓ} where
  pub get_or-take :
      (n : ℕ) (xs : List A) (i : ℕ) (d : A) → i < n → get_or (take n xs) i d ≡ get_or xs i d
  get_or-take zero xs i d h = absurd (omega arith)
  get_or-take (suc n) [] i d h = refl
  get_or-take (suc n) (x ∷ xs) zero d h = refl
  get_or-take (suc n) (x ∷ xs) (suc i) d h = get_or-take n xs i d (omega arith)

  pub get_or-drop :
      (n : ℕ) (xs : List A) (i : ℕ) (d : A) → get_or (drop n xs) i d ≡ get_or xs (n + i) d
  get_or-drop zero xs i d = let e : i ≡ zero + i = omega arith in ap (λ k. get_or xs k d) e
  get_or-drop (suc n) [] i d = refl
  get_or-drop (suc n) (x ∷ xs) i d =
      let e : suc (n + i) ≡ suc n + i = omega arith in
      get_or-drop n xs i d ∙ ap (λ k. get_or (x ∷ xs) k d) e

  pub drop-drop : (m n : ℕ) (xs : List A) → drop m (drop n xs) ≡ drop (n + m) xs
  drop-drop m zero xs = let e : m ≡ zero + m = omega arith in ap (λ k. drop k xs) e
  drop-drop m (suc n) [] = drop_all m [] (omega arith) ∙ sym (drop_all (suc n + m) [] (omega arith))
  drop-drop m (suc n) (x ∷ xs) =
      let e : suc (n + m) ≡ suc n + m = omega arith in
      drop-drop m n xs ∙ ap (λ k. drop k (x ∷ xs)) e

  pub get_or-left :
      (xs ys : List A) (i : ℕ) (d : A) → i < length xs → get_or (xs ++ ys) i d ≡ get_or xs i d
  get_or-left [] ys i d h = absurd (omega arith)
  get_or-left (x ∷ xs) ys zero d h = refl
  get_or-left (x ∷ xs) ys (suc i) d h = get_or-left xs ys i d (omega arith)

  pub get_or-right :
      (xs ys : List A) (i : ℕ) (d : A)
      → length xs ≤ i
      → get_or (xs ++ ys) i d ≡ get_or ys (i - length xs) d
  get_or-right [] ys i d h = let e : i ≡ i - 0 = omega arith in ap (λ k. get_or ys k d) e
  get_or-right (x ∷ xs) ys zero d h = absurd (omega arith)
  get_or-right (x ∷ xs) ys (suc i) d h =
      let e : i - length xs ≡ suc i - suc (length xs) = omega arith in
      get_or-right xs ys i d (omega arith) ∙ ap (λ k. get_or ys k d) e

  -- Writing over the head of a list leaves what stands past it.
  pub get_or-write_head :
      (bytes buf : List A) (i : ℕ) (d : A)
      → length bytes ≤ i
      → get_or (write_at 0 bytes buf) i d ≡ get_or buf i d
  get_or-write_head bytes buf i d h =
      let e : 0 + length bytes + (i - length bytes) ≡ i = omega arith in
      get_or-right bytes (drop (0 + length bytes) buf) i d h
      ∙ get_or-drop (0 + length bytes) buf (i - length bytes) d
      ∙ ap (λ k. get_or buf k d) e

pub get_or-map {ℓ κ} :
    {A : Type ℓ} {B : Type κ} (f : A → B) (xs : List A) (i : ℕ) (d : A)
    → get_or (map f xs) i (f d) ≡ f (get_or xs i d)
get_or-map f [] i d = refl
get_or-map f (x ∷ xs) zero d = refl
get_or-map f (x ∷ xs) (suc i) d = get_or-map f xs i d

module _ {ℓ} {A : Type ℓ} where
  pub length-set : (xs : List A) (i : ℕ) (x : A) → length (set xs i x) ≡ length xs
  length-set [] i x = refl
  length-set (y ∷ ys) zero x = refl
  length-set (y ∷ ys) (suc i) x = ap suc (length-set ys i x)

  pub get_or-set_same :
      (xs : List A) (i : ℕ) (x d : A) → i < length xs → get_or (set xs i x) i d ≡ x
  get_or-set_same [] i x d h = absurd (omega arith)
  get_or-set_same (y ∷ ys) zero x d h = refl
  get_or-set_same (y ∷ ys) (suc i) x d h = get_or-set_same ys i x d (omega arith)

  pub get_or-set_other :
      (xs : List A) (i j : ℕ) (x d : A) → i ≢ j → get_or (set xs i x) j d ≡ get_or xs j d
  get_or-set_other [] i j x d h = refl
  get_or-set_other (y ∷ ys) zero zero x d h = absurd (h refl)
  get_or-set_other (y ∷ ys) zero (suc j) x d h = refl
  get_or-set_other (y ∷ ys) (suc i) zero x d h = refl
  get_or-set_other (y ∷ ys) (suc i) (suc j) x d h = get_or-set_other ys i j x d (λ e. h (ap suc e))

pub map-set {ℓ κ} :
    {A : Type ℓ} {B : Type κ} (f : A → B) (xs : List A) (i : ℕ) (x : A)
    → map f (set xs i x) ≡ set (map f xs) i (f x)
map-set f [] i x = refl
map-set f (y ∷ ys) zero x = refl
map-set f (y ∷ ys) (suc i) x = ap (◌∷◌ (f y)) (map-set f ys i x)

-- Two lists of one length with the same elements.
pub list_ext {ℓ} :
    {A : Type ℓ} (xs ys : List A) (d : A)
    → length xs ≡ length ys
    → ((j : ℕ) → j < length xs → get_or xs j d ≡ get_or ys j d)
    → xs ≡ ys
list_ext [] [] d e h = refl
list_ext [] (y ∷ ys) d e h = absurd (omega arith)
list_ext (x ∷ xs) [] d e h = absurd (omega arith)
list_ext (x ∷ xs) (y ∷ ys) d e h =
    ap₂ ◌∷◌ (h 0 (omega arith)) (list_ext xs ys d (omega arith) (λ j lt. h (suc j) (omega arith)))
