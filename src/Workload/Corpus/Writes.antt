-- ===== src/Workload/Corpus/Writes.antt =====
-- What a loop that stores at many places leaves in memory: each place has its value, and nothing
-- else has changed.
use mathlib.Core.Path.{subst}
use valubench.Prelude.{ℕ, zero, suc, ◌+◌, ◌≤◌, ◌<◌, ◌≡◌, refl, ◌≢◌, sym, ◌∙◌, inl, inr, ◌⊎◌, arith}
use valubench.Prelude.{for_range}
use valubench.Workload.Corpus.{Memory, store}

-- `after` has `val y` at the place `ix y` of each `y` of the family, and is `before` elsewhere.
pub record Writes {Y : Type 0} (In : Y → Type 0) (ix val : Y → ℕ) (before after : Memory)
    : Type 0 where
  pub sets : (y : Y) → In y → after (ix y) ≡ val y
  pub keeps : (k : ℕ) → ((y : Y) → In y → k ≢ ix y) → after k ≡ before k

pub store-Writes :
    (mem : Memory) (at v : ℕ)
    → Writes {Y = Unit {0}} (λ y. Unit {0}) (λ y. at) (λ y. v) mem (store mem at v)
store-Writes mem at v = record {
  sets = λ y h. ground arith;
  keeps = λ k h. let ne = h tt tt in ground arith;
}

le-cases : (lo i : ℕ) → lo ≤ i → (lo ≡ i) ⊎ (lo + 1 ≤ i)
le-cases lo i h = grind arith

module _ {Y : Type 0} (In : ℕ → Y → Type 0) (ix val : ℕ → Y → ℕ) (body : ℕ → Memory → Memory) where
  abbrev pub Between : ℕ → ℕ → ℕ × Y → Type 0
  Between lo hi p = (lo ≤ p.0) × (p.0 < hi) × In p.0 p.1

  -- The first round's writes and those of the later rounds.
  join-Writes :
      (lo hi : ℕ) (before middle after : Memory)
      → lo < hi
      → Writes (In lo) (ix lo) (val lo) before middle
      → Writes (Between (lo + 1) hi) (λ p. ix p.0 p.1) (λ p. val p.0 p.1) middle after
      → ((i : ℕ) (y y' : Y) → lo < i → i < hi → In lo y → In i y' → ix lo y ≢ ix i y')
      → Writes (Between lo hi) (λ p. ix p.0 p.1) (λ p. val p.0 p.1) before after
  join-Writes lo hi before middle after below first rest apart = record {
    sets = λ p h. place p.0 p.1 h (le-cases lo p.0 h.0);
    keeps = λ k h.
        rest.keeps k (λ p q. h p (omega arith, q.1, q.2))
        ∙ first.keeps k (λ y q. h (lo, y) (omega arith, below, q));
  }
    where
      now : (y : Y) → In lo y → after (ix lo y) ≡ val lo y
      now y h =
          rest.keeps (ix lo y) (λ p q. apart p.0 y p.1 (omega arith) q.1 h q.2) ∙ first.sets y h

      place :
          (i : ℕ) (y : Y)
          → Between lo hi (i, y)
          → (lo ≡ i) ⊎ (lo + 1 ≤ i)
          → after (ix i y) ≡ val i y
      place i y h (inr later) = rest.sets (i, y) (later, h.1, h.2)
      place i y h (inl same) =
          subst (λ k. after (ix k y) ≡ val k y) same (now y (subst (λ k. In k y) (sym same) h.2))

  -- A counted loop whose rounds write at places of their own.
  pub for_range-Writes :
      (n lo hi : ℕ) (mem : Memory)
      → lo + n ≡ hi
      → ((i : ℕ) (m : Memory) → i < hi → Writes (In i) (ix i) (val i) m (body i m))
      → ((i i' : ℕ) (y y' : Y) → i < i' → i' < hi → In i y → In i' y' → ix i y ≢ ix i' y')
      → Writes (Between lo hi) (λ p. ix p.0 p.1) (λ p. val p.0 p.1) mem (for_range n lo body mem)
  for_range-Writes zero lo hi mem e each apart = record {
    sets = λ p h. absurd (omega arith);
    keeps = λ k h. refl;
  }
  for_range-Writes (suc n) lo hi mem e each apart =
      join-Writes lo hi mem (body lo mem) (for_range n (lo + 1) body (body lo mem)) (omega arith)
        (each lo mem (omega arith))
        (for_range-Writes n (lo + 1) hi (body lo mem) (omega arith) each apart)
        (λ i y y' p q r t. apart lo i y y' p q r t)
