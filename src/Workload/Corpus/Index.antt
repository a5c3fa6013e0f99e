-- ===== src/Workload/Corpus/Index.antt =====
-- The index `(((slot * blocks + b) * 16 + j) * lanes) + lane`: in range, and another one for every
-- message, block and word.
use valubench.Prelude.{ℕ, ◌+◌, ◌*◌, ◌/◌, ◌%◌, ◌^◌, ◌<◌, ◌≡◌, sym, ap, ◌∙◌, arith}
use valubench.Workload.Corpus.{word_at}

-- Two digits of a mixed-radix number: in range, and determined by the number.
pub mix_lt : (x y X Y : ℕ) → x < X → y < Y → x * Y + y < X * Y
mix_lt x y X Y hx hy = grind arith

pub mix_div : (x y Y : ℕ) → y < Y → (x * Y + y) / Y ≡ x
mix_div x y Y h = grind arith

pub mix_inj : (x y x' y' Y : ℕ) → y < Y → y' < Y → x * Y + y ≡ x' * Y + y' → (x ≡ x') × (y ≡ y')
mix_inj x y x' y' Y h h' e =
    let same : x ≡ x' = sym (mix_div x y Y h) ∙ ap (λ t. t / Y) e ∙ mix_div x' y' Y h' in
    (same, omega (arith, e, ap (λ t. t * Y) same))

module _ (lanes blocks n : ℕ) (pos : 0 < lanes) (small : lanes < 2 ^ 32) (whole : n % lanes ≡ 0)
    (fits : n * blocks * 16 < 2 ^ 64) where
  abbrev exact : ℕ → ℕ → ℕ → ℕ
  exact m b j = ((m / lanes * blocks + b) * 16 + j) * lanes + m % lanes

  slots : n ≡ n / lanes * lanes
  slots = grind arith

  slot-lt : (m : ℕ) → m < n → m / lanes < n / lanes
  slot-lt m h = grind (arith, slots)

  lane-lt : (m : ℕ) → m % lanes < lanes
  lane-lt m = omega arith

  size : n / lanes * blocks * 16 * lanes ≡ n * blocks * 16
  size =
      let q = n / lanes in
      let e : q * blocks * 16 * lanes ≡ q * lanes * blocks * 16 = omega arith in
      e ∙ ap (λ t. t * blocks * 16) (sym slots)

  exact-lt : (m b j : ℕ) → m < n → b < blocks → j < 16 → exact m b j < n * blocks * 16
  exact-lt m b j hm hb hj =
      let block = mix_lt (m / lanes) b (n / lanes) blocks (slot-lt m hm) hb in
      let word = mix_lt (m / lanes * blocks + b) j (n / lanes * blocks) 16 block hj in
      omega (
        arith,
        mix_lt ((m / lanes * blocks + b) * 16 + j) (m % lanes) (n / lanes * blocks * 16) lanes word
            (lane-lt m),
        size,
      )

  pub word_at-exact :
      (m b j : ℕ) → m < n → b < blocks → j < 16 → word_at lanes blocks m b j ≡ exact m b j
  unfolding word_at
  word_at-exact m b j hm hb hj = omega (arith, exact-lt m b j hm hb hj, lane-lt m)

  -- No element index is out of range.
  pub word_at-lt :
      (m b j : ℕ) → m < n → b < blocks → j < 16 → word_at lanes blocks m b j < n * blocks * 16
  word_at-lt m b j hm hb hj = rw (word_at-exact m b j hm hb hj) (exact-lt m b j hm hb hj)

  -- Two words share an element only if they are the same word.
  pub word_at-injective :
      (m b j m' b' j' : ℕ)
      → m < n
      → b < blocks
      → j < 16
      → m' < n
      → b' < blocks
      → j' < 16
      → word_at lanes blocks m b j ≡ word_at lanes blocks m' b' j'
      → (m ≡ m') × (b ≡ b') × (j ≡ j')
  word_at-injective m b j m' b' j' hm hb hj hm' hb' hj' e =
      let e' : exact m b j ≡ exact m' b' j' =
        sym (word_at-exact m b j hm hb hj) ∙ e ∙ word_at-exact m' b' j' hm' hb' hj' in
      let lane =
        mix_inj ((m / lanes * blocks + b) * 16 + j) (m % lanes)
          ((m' / lanes * blocks + b') * 16 + j') (m' % lanes) lanes (lane-lt m) (lane-lt m') e' in
      let word =
        mix_inj (m / lanes * blocks + b) j (m' / lanes * blocks + b') j' 16 hj hj' lane.0 in
      let block = mix_inj (m / lanes) b (m' / lanes) b' blocks hb hb' word.0 in
      (same block.0 lane.1, block.1, word.1)
    where
      same : m / lanes ≡ m' / lanes → m % lanes ≡ m' % lanes → m ≡ m'
      same d r = grind arith
