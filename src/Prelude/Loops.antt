-- ===== src/Prelude/Loops.antt =====
-- A C loop that counts up: `rounds` turns, the first of which sees the counter `k`.
use Prim.Native.Nat.{ℕ, zero, suc, ◌+◌}
use mathlib.Core.Path.{◌≡◌, subst}
use native.Mathlib.Omega.{arith}

abbrev pub for_range {ℓ} : {S : Type ℓ} → ℕ → ℕ → (ℕ → S → S) → S → S
for_range zero k turn state = state
for_range (suc rounds) k turn state = for_range rounds (k + 1) turn (turn k state)

-- What every turn carries from `k` to `k + 1` holds at the end, `stop`.
pub for_range_inv {ℓ κ} :
    {S : Type ℓ} (Inv : ℕ → S → Type κ) (turn : ℕ → S → S)
    → ((k : ℕ) (state : S) → Inv k state → Inv (k + 1) (turn k state))
    → (rounds k stop : ℕ) (state : S) → k + rounds ≡ stop
    → Inv k state
    → Inv stop (for_range rounds k turn state)
for_range_inv Inv turn each zero k stop state e now = subst (λ c. Inv c state) (omega arith) now
for_range_inv Inv turn each (suc rounds) k stop state e now =
    let next = each k state now in
    for_range_inv Inv turn each rounds (k + 1) stop (turn k state) (omega arith) next
