-- ===== src/Device/Slice.antt =====
-- The slices of `vb_dev_slice` are a partition.
use valubench.Prelude.{ℕ, zero, suc, ◌+◌, ◌-◌, ◌≤◌, ◌<◌, ◌≡◌, ap, arith}
use valubench.Prelude.{◌⊎◌, inl, inr}
use valubench.Device.{dev_slice_count, dev_slice_first}

abbrev pub InSlice : ℕ → ℕ → ℕ → ℕ → Type 0
InSlice total n i g =
    (dev_slice_first total n i ≤ g) × (g < dev_slice_first total n i + dev_slice_count total n i)

module _ (total n : ℕ) where
  first-suc :
      (i : ℕ)
      → dev_slice_first total n (suc i) ≡ dev_slice_first total n i + dev_slice_count total n i
  unfolding dev_slice_first dev_slice_count
  first-suc i = ground arith

  first-zero : dev_slice_first total n 0 ≡ 0
  unfolding dev_slice_first
  first-zero = ground arith

  first-all : 0 < n → dev_slice_first total n n ≡ total
  unfolding dev_slice_first
  first-all pos = grind arith

  find : (i g : ℕ) → g < dev_slice_first total n i → (j : ℕ) × (j < i) × InSlice total n j g
  find zero g h = absurd (omega (arith, first-zero))
  find (suc i) g h = elim (side g (dev_slice_first total n i)) [
    | inl below ↦ (let (j, p, q) = find i g below in (j, omega arith, q))
    | inr above ↦ (i, omega arith, (above, omega (arith, first-suc i)))
  ]
    where
      side : (x y : ℕ) → (x < y) ⊎ (y ≤ x)
      side x y = omega arith

  after :
      (i d : ℕ)
      → dev_slice_first total n i + dev_slice_count total n i ≤ dev_slice_first total n (i + 1 + d)
  after i zero =
      let e : suc i ≡ i + 1 + zero = omega arith in
      omega (arith, first-suc i, ap (dev_slice_first total n) e)
  after i (suc d) =
      let e : suc (i + 1 + d) ≡ i + 1 + suc d = omega arith in
      omega (arith, after i d, first-suc (i + 1 + d), ap (dev_slice_first total n) e)

  no_later : (i j g : ℕ) → InSlice total n i g → InSlice total n j g → j ≤ i
  no_later i j g p q = elim (side i j) [
    | inl later ↦
        let e : i + 1 + (j - i - 1) ≡ j = omega arith in
        absurd (omega (arith, after i (j - i - 1), ap (dev_slice_first total n) e, p.1, q.0))
    | inr fine ↦ fine
  ]
    where
      side : (x y : ℕ) → (x < y) ⊎ (y ≤ x)
      side x y = omega arith

-- With at least one slice, every group below the total is in exactly one of the `n` slices.
pub dev_slice-partition :
    (total n g : ℕ)
    → 0 < n
    → g < total
    → (i : ℕ) × (i < n) × InSlice total n i g × ((j : ℕ) → InSlice total n j g → j ≡ i)
dev_slice-partition total n g pos h =
    let (i, below, there) = find total n n g (omega (arith, first-all total n pos)) in
    (
      i,
      below,
      there,
      λ j also. omega (arith, no_later total n i j g there also, no_later total n j i g also there),
    )
