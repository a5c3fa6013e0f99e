-- ===== src/Cli/Strtoul.antt =====
-- A number takes at least one character.
use valubench.Prelude.{
  ℕ, ◌+◌, ◌-◌, ◌*◌, ◌^◌, ◌≤◌, ◌<◌, ◌≡◌, refl, ap, Bool, true, false, ◌||◌, ◌==◌, leb, if◌then◌else◌,
  Option, none, some, List, [], ◌∷◌, length, u64, arith,
}
use valubench.Cli.{
  Number, is_space, is_digit, is_negative, skip_space, skip_sign, digits, number, strtoul,
}

if-length :
    (b : Bool) (p q : List ℕ) (n : ℕ)
    → length p ≤ n
    → length q ≤ n
    → length (if b then p else q) ≤ n
if-length true p q n h k = h
if-length false p q n h k = k

length-skip_space : (s : List ℕ) → length (skip_space s) ≤ length s
unfolding skip_space
length-skip_space [] = omega arith
length-skip_space (c ∷ s) =
    let h = length-skip_space s in
    if-length (is_space c) (skip_space s) (c ∷ s) (length (c ∷ s)) (omega (arith, h)) (omega arith)

length-skip_sign : (s : List ℕ) → length (skip_sign s) ≤ length s
unfolding skip_sign
length-skip_sign [] = omega arith
length-skip_sign (c ∷ s) =
    if-length ((c == 43) || (c == 45)) s (c ∷ s) (length (c ∷ s)) (omega arith) (omega arith)

if-end :
    (b : Bool) (p q : ℕ × List ℕ) (n : ℕ)
    → length p.1 ≤ n
    → length q.1 ≤ n
    → length (if b then p else q).1 ≤ n
if-end true p q n h k = h
if-end false p q n h k = k

length-digits : (n : ℕ) (s : List ℕ) → length (digits n s).1 ≤ length s
unfolding digits
length-digits n [] = omega arith
length-digits n (c ∷ s) =
    let h = length-digits (n * 10 + (c - 48)) s in
    if-end (is_digit c) (digits (n * 10 + (c - 48)) s) (n, c ∷ s) (length (c ∷ s))
      (omega (arith, h)) (omega arith)

pick-end :
    (b : Bool) (x y : Number) (e : List ℕ) → x.end ≡ e → y.end ≡ e → (if b then x else y).end ≡ e
pick-end true x y e h k = h
pick-end false x y e h k = k

number-end : (negative : Bool) (p : ℕ × List ℕ) → (number negative p).end ≡ p.1
number-end negative (n, end) =
    pick-end (leb (2 ^ 64) n) (record { value = 2 ^ 64 - 1; out_of_range = true; end = end })
      (record { value = if negative then u64 (2 ^ 64 - n) else n; out_of_range = false; end = end })
      end refl refl

-- What the number leaves is shorter than the string.
abbrev pub Shorter : List ℕ → Option Number → Type 0
Shorter s none = Unit {0}
Shorter s (some v) = length v.end < length s

if-Shorter :
    (b : Bool) (s : List ℕ) (v : Number)
    → length v.end < length s
    → Shorter s (if b then some v else none)
if-Shorter true s v h = h
if-Shorter false s v h = tt

from-Shorter :
    (s at rest : List ℕ)
    → length rest ≤ length s
    → Shorter s (elim rest [
      | [] ↦ none
      | c ∷ rest ↦
          if is_digit c then some (number (is_negative at) (digits (c - 48) rest)) else none
    ])
from-Shorter s at [] h = tt
from-Shorter s at (c ∷ rest) h =
    let found = digits (c - 48) rest in
    let least = length-digits (c - 48) rest in
    let same = ap length (number-end (is_negative at) found) in
    if-Shorter (is_digit c) s (number (is_negative at) found) (omega (arith, same, least, h))

pub strtoul-Shorter : (s : List ℕ) → Shorter s (strtoul s)
unfolding strtoul
strtoul-Shorter s =
    let at = skip_space s in
    let a = length-skip_space s in
    let b = length-skip_sign at in from-Shorter s at (skip_sign at) (omega (arith, a, b))
