-- ===== src/Bench/Batch.antt =====
-- A batch is whole groups of every kernel that the harness accepts.
use valubench.Prelude.{ℕ, zero, suc, ◌*◌, ◌/◌, ◌%◌, ◌^◌, ◌<◌, ◌≡◌, sym, ap, ◌∙◌, arith}
use valubench.Prelude.{true, false, u32, u64, ltb, ◌==◌, if◌then◌else◌, Bool-cases, inl, inr}
use valubench.Algorithm.{blocks_for}
use native.Mathlib.Nat.{mul_assoc}
use valubench.Bench.{KernelRow, Config, batch_lcm, batch_divides, batch_messages}

rounded :
    (x : ℕ)
    → (q : ℕ) × (0 < q)
      × ((if ltb (x / batch_lcm * batch_lcm) batch_lcm
            then batch_lcm
            else x / batch_lcm * batch_lcm)
          ≡ q * batch_lcm)
rounded x = elim (Bool-cases (ltb (x / batch_lcm * batch_lcm) batch_lcm)) [
  | inl small ↦ (1, omega arith, ground (arith, small))
  | inr large ↦ (x / batch_lcm, ground (arith, large), ground (arith, large))
]

batch_messages-lcm : (cfg : Config) → (q : ℕ) × (0 < q) × (batch_messages cfg ≡ q * batch_lcm)
unfolding batch_messages
batch_messages-lcm cfg =
    let padded = u64 (blocks_for cfg.alg cfg.message_bytes * cfg.alg.block_bytes) in
    rounded (if padded == 0 then 0 else u64 (cfg.working_set_kb * 1024) / padded)

tiles :
    (g : ℕ)
    → (if g == 0 then false else batch_lcm % g == 0) ≡ true
    → (0 < g) × (batch_lcm ≡ batch_lcm / g * g)
tiles zero h = absurd (ground (arith, h))
tiles (suc g) h =
    let none : batch_lcm % suc g ≡ 0 = ground (arith, h) in (omega arith, grind (arith, none))

-- The size of a batch is positive, and a multiple of the group of every kernel whose group divides
-- the harness's unit and fits 32 bits.
pub batch_messages-batch_divides :
    (k : KernelRow) (cfg : Config)
    → k.lanes * k.streams < 2 ^ 32
    → batch_divides k ≡ true
    → (n_groups : ℕ) × (0 < n_groups)
      × (0 < k.lanes * k.streams)
      × (batch_messages cfg ≡ n_groups * (k.lanes * k.streams))
unfolding batch_divides
batch_messages-batch_divides k cfg small divides =
    let g = k.lanes * k.streams in
    let same : u32 g ≡ g = omega arith in
    let (pos, whole) =
      tiles g (ap (λ t. if t == 0 then false else batch_lcm % t == 0) (sym same) ∙ divides) in
    let (q, some, count) = batch_messages-lcm cfg in
    (
      q * (batch_lcm / g),
      grind (arith, pos, whole, some),
      pos,
      count ∙ ap (λ t. q * t) whole ∙ sym (mul_assoc q (batch_lcm / g) g),
    )
