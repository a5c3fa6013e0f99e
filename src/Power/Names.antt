-- ===== src/Power/Names.antt =====
-- strcasecmp of src/power.c: device ids are the same without regard to case.
use valubench.Prelude.{
  ℕ, ◌==◌, ==_iff, ◌≡◌, refl, sym, ap, ap₂, ◌∙◌, Bool, true, false, ◌&&◌, List, [], ◌∷◌, map, arith,
}
use valubench.Power.{to_lower, same_name}

-- A name in lower case.
abbrev lower : List ℕ → List ℕ
lower s = map to_lower s

pub and-both : (a b : Bool) → (a && b) ≡ true → (a ≡ true) × (b ≡ true)
and-both true true h = (refl, refl)
and-both true false h = (refl, h)
and-both false b h = (h, ground arith)

pub both-and : (a b : Bool) → a ≡ true → b ≡ true → (a && b) ≡ true
both-and a b h k = ap₂ (λ x y. x && y) h k

abbrev head_or : ℕ → List ℕ → ℕ
head_or d [] = d
head_or d (x ∷ xs) = x

abbrev tail : List ℕ → List ℕ
tail [] = []
tail (x ∷ xs) = xs

==_refl : (a : ℕ) → (a == a) ≡ true
==_refl a = (==_iff a a).1 refl

same_name-lower : (a b : List ℕ) → same_name a b ≡ true → lower a ≡ lower b
unfolding same_name
same_name-lower [] [] h = refl
same_name-lower [] (y ∷ ys) h = ground arith
same_name-lower (x ∷ xs) [] h = ground arith
same_name-lower (x ∷ xs) (y ∷ ys) h =
    let both = and-both (to_lower x == to_lower y) (same_name xs ys) h in
    ap₂ (λ c cs. c ∷ cs) ((==_iff (to_lower x) (to_lower y)).0 both.0)
      (same_name-lower xs ys both.1)

lower-same_name : (a b : List ℕ) → lower a ≡ lower b → same_name a b ≡ true
unfolding same_name
lower-same_name [] [] h = refl
lower-same_name [] (y ∷ ys) h = ground arith
lower-same_name (x ∷ xs) [] h = ground arith
lower-same_name (x ∷ xs) (y ∷ ys) h =
    both-and (to_lower x == to_lower y) (same_name xs ys)
      ((==_iff (to_lower x) (to_lower y)).1 (ap (head_or 0) h)) (lower-same_name xs ys (ap tail h))

pub same_name_refl : (a : List ℕ) → same_name a a ≡ true
same_name_refl a = lower-same_name a a refl

pub same_name_sym : (a b : List ℕ) → same_name a b ≡ true → same_name b a ≡ true
same_name_sym a b h = lower-same_name b a (sym (same_name-lower a b h))

pub same_name_trans :
    (a b c : List ℕ) → same_name a b ≡ true → same_name b c ≡ true → same_name a c ≡ true
same_name_trans a b c h k = lower-same_name a c (same_name-lower a b h ∙ same_name-lower b c k)
