-- ===== src/Device/Launch.antt =====
-- What a launch's repeats, waves and chunks are good for.
use valubench.Prelude.{
  ℕ, zero, suc, ◌+◌, ◌-◌, ◌*◌, ◌/◌, ◌^◌, ◌≤◌, ◌<◌, ◌≡◌, refl, sym, ap, ◌∙◌, arith,
}
use valubench.Prelude.{bit_or, bit_xor, u32, true, false, ltb, not, ◌&&◌, ◌⊎◌, inl, inr, Bool-cases}
use mathlib.Core.Path.{subst}
use native.Mathlib.Nat.{div-lt_iff_lt-mul, mul-div-le}
use valubench.Prelude.{u64, ◌==◌, min, if◌then◌else◌, Bool}
use valubench.Bits.Sum.{or-one}
use valubench.Bits.Xor.{xor_self, xor-zero, zero-xor, xor_assoc}
use valubench.Bits.Fold.{xor_range}
use valubench.Device.{target_launch_ns, calibrated_repeats, dev_waves, pair_fits}

abbrev sweeps : ℕ → ℕ → ℕ
sweeps n x = xor_range n (λ i. x)

even_sweeps : (n k x : ℕ) → n ≡ k + k → sweeps n x ≡ 0
even_sweeps zero k x e = refl
even_sweeps (suc zero) k x e = absurd (omega arith)
even_sweeps (suc (suc n)) k x e =
    xor_assoc (sweeps n x) x x
    ∙ ap (bit_xor (sweeps n x)) (xor_self x)
    ∙ xor-zero (sweeps n x)
    ∙ even_sweeps n (k - 1) x (omega arith)

odd_sweeps : (n k x : ℕ) → n ≡ suc (k + k) → sweeps n x ≡ x
odd_sweeps zero k x e = absurd (omega arith)
odd_sweeps (suc n) k x e = ap (λ t. bit_xor t x) (even_sweeps n k x (omega arith)) ∙ zero-xor x

calibrated_repeats-odd : (one : ℕ) → (k : ℕ) × (k < 32768) × (calibrated_repeats one ≡ suc (k + k))
unfolding calibrated_repeats
calibrated_repeats-odd one = elim (Bool-cases (ltb 0 one && ltb one target_launch_ns)) [
  | inl short ↦ (
    want / 2,
    omega (arith, bounded),
    ap (λ b. if b then u32 (bit_or want 1) else 1) short
        ∙ ap u32 (or-one want)
        ∙ omega (arith, bounded),
  )
  | inr long ↦ (0, omega arith, ap (λ b. if b then u32 (bit_or want 1) else 1) long)
]
  where
    want : ℕ
    want =
        let w = target_launch_ns / one in
        let w = if ltb w 1 then 1 else w in if ltb 0xffff w then 0xffff else w

    bounded : want ≤ 65535
    bounded = ground arith

-- However long a sweep took, the repeats are from 1 to 65535, and the XOR over that many sweeps of a
-- checksum word is the word of a single sweep.
pub calibrated_repeats-sweeps :
    (one x : ℕ)
    → (1 ≤ calibrated_repeats one)
      × (calibrated_repeats one ≤ 65535)
      × (xor_range (calibrated_repeats one) (λ i. x) ≡ x)
calibrated_repeats-sweeps one x =
    let (k, small, odd) = calibrated_repeats-odd one in
    (omega (arith, odd), omega (arith, odd, small), odd_sweeps (calibrated_repeats one) k x odd)

-- The least count whose shares of `capacity` hold `busy`.
abbrev pub LeastCount : ℕ → ℕ → ℕ → Type 0
LeastCount busy capacity r = (busy ≤ r * capacity) × (0 < r → (r - 1) * capacity < busy)

rounded-LeastCount :
    (busy capacity : ℕ) → 0 < capacity → LeastCount busy capacity ((busy + capacity - 1) / capacity)
rounded-LeastCount busy capacity pos =
    (omega (arith, above), λ some. omega (arith, below, apart some))
  where
    q : ℕ
    q = (busy + capacity - 1) / capacity

    above : busy + capacity - 1 < (q + 1) * capacity
    above = (div-lt_iff_lt-mul pos).0 (omega arith)

    below : capacity * q ≤ busy + capacity - 1
    below = mul-div-le (busy + capacity - 1) capacity

    apart : 0 < q → (q - 1) * capacity + capacity ≡ capacity * q
    apart some = let e : q - 1 + 1 ≡ q = omega arith in step (q - 1) ∙ ap (λ t. capacity * t) e
      where
        step : (r : ℕ) → r * capacity + capacity ≡ capacity * (r + 1)
        step r = omega arith

-- With a measured capacity, and counts below 2 ^ 32, the waves are the least number whose capacity
-- holds every work-item that has work.
pub dev_waves-LeastCount :
    (global n_groups lanes capacity : ℕ)
    → 0 < capacity
    → capacity < 2 ^ 32
    → n_groups * lanes < 2 ^ 32
    → LeastCount (min global (n_groups * lanes)) capacity (dev_waves global n_groups lanes capacity)
unfolding dev_waves
dev_waves-LeastCount global n_groups lanes capacity pos small fits =
    subst (LeastCount busy capacity) (sym exact) (rounded-LeastCount busy capacity pos)
  where
    busy : ℕ
    busy = min global (n_groups * lanes)

    nonzero : (capacity == 0) ≡ false
    nonzero = ground arith

    working :
        (if ltb global (u64 (n_groups * lanes)) then global else u64 (n_groups * lanes)) ≡ busy
    working =
        let grid : u64 (n_groups * lanes) ≡ n_groups * lanes = omega arith in
        ap (λ g. if ltb global g then global else g) grid ∙ ground arith

    count : u32 ((busy + capacity - 1) / capacity) ≡ (busy + capacity - 1) / capacity
    count =
        let below : (busy + capacity - 1) / capacity < 2 ^ 32 =
          (div-lt_iff_lt-mul pos).1 (omega arith) in
        omega (arith, below)

    exact : dev_waves global n_groups lanes capacity ≡ (busy + capacity - 1) / capacity
    exact =
        let grid = u64 (n_groups * lanes) in
        let b = if ltb global grid then global else grid in
        let whole : u64 (busy + capacity - 1) ≡ busy + capacity - 1 = omega arith in
        ap (λ t. if t then 0 else u32 (u64 (b + capacity - 1) / capacity)) nonzero
        ∙ ap (λ t. u32 (u64 (t + capacity - 1) / capacity)) working
        ∙ ap (λ t. u32 (t / capacity)) whole
        ∙ count

module _ (n_groups group_bytes budget : ℕ) where
  -- What the search over chunk counts ends with, from `from` on.
  pub record Settled (from result : ℕ) : Type 0 where
    pub at_least : from ≤ result
    pub at_most : result ≤ 256
    pub in_slice : (result ≡ from) ⊎ (result ≤ n_groups)
    pub stopped :
        (budget ≡ 0)
        ⊎ (n_groups ≤ result)
        ⊎ (256 ≤ result)
        ⊎ (pair_fits n_groups group_bytes budget result ≡ true)
    pub least : (k : ℕ) → from ≤ k → k < result → pair_fits n_groups group_bytes budget k ≡ false

  abbrev pub more : ℕ → Bool
  more c =
      ltb 0 budget
      && (ltb c n_groups && (ltb c 256 && not (pair_fits n_groups group_bytes budget c)))
