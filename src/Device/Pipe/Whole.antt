-- ===== src/Device/Pipe/Whole.antt =====
-- A call of `vb_dev_pipe_next` as a whole.
use valubench.Prelude.{
  ℕ, zero, suc, ◌+◌, ◌-◌, ◌*◌, ◌/◌, ◌≤◌, ◌<◌, ◌≡◌, refl, sym, ap, ap₂, ◌∙◌, arith, true, ◌==◌,
  if◌then◌else◌, bit_xor, inl, inr,
}
use valubench.Prelude.{List, [], ◌∷◌, map}
use valubench.Bits.Fold.{xor_range, xor_range-ext, xor_range-mul, xor_range-zero}
use valubench.Bits.Xor.{xor-zero, zero-xor}
use valubench.Workload.Corpus.Index.{mix_div}
use valubench.Device.Pipe.{
  PipeCtx, Finished, Backend, Lane, Progress, start_lane, most_chunks, dev_pipe_next,
}
use valubench.Device.Pipe.Steps.{AllInRing}
use valubench.Device.Pipe.Turns.{Reliable, part, same_or_not}
use valubench.Device.Pipe.Passes.{share, total, AllValid, AllLeft, key, Complete, rounds-Complete}

module _ (p : ℕ) (g : ℕ → ℕ) where
  abbrev only : ℕ → ℕ
  only q = if p == q then g q else 0

  before-only : (n : ℕ) → n ≤ p → xor_range n only ≡ 0
  before-only zero h = refl
  before-only (suc n) h = elim (same_or_not p n) [
    | inl (e, test) ↦ absurd (omega (arith, e))
    | inr test ↦
        ap (λ b. bit_xor (xor_range n only) (if b then g n else 0)) test
        ∙ xor-zero (xor_range n only)
        ∙ before-only n (omega arith)
  ]

  -- One term of a sum that has no other.
  xor_range-only : (n : ℕ) → p < n → xor_range n only ≡ g p
  xor_range-only zero h = absurd (omega arith)
  xor_range-only (suc n) h = elim (same_or_not p n) [
    | inl (e, test) ↦
        ap₂ (λ s b. bit_xor s (if b then g n else 0)) (before-only n (omega (arith, e))) test
        ∙ zero-xor (g n)
        ∙ ap g (sym e)
    | inr test ↦
        ap (λ b. bit_xor (xor_range n only) (if b then g n else 0)) test
        ∙ xor-zero (xor_range n only)
        ∙ xor_range-only n (ground (arith, test))
  ]

module _ (done : ℕ → ℕ → Finished) where
  -- Pass `p` of a call: the XOR, over the devices, of the chunks of the pass.
  abbrev pub pass_sum : List PipeCtx → ℕ → ℕ → ℕ
  pass_sum [] p w = 0
  pass_sum (c ∷ ctx) p w =
      bit_xor
        (xor_range c.pipe_chunks (λ j. part done c (c.pipe_collected + (p * c.pipe_chunks + j)) w))
        (pass_sum ctx p w)

  share-pass :
      (c : PipeCtx) (base passes p w : ℕ)
      → p < passes
      → share done c base (passes * c.pipe_chunks) p w
        ≡ xor_range c.pipe_chunks (λ j. part done c (base + (p * c.pipe_chunks + j)) w)
  share-pass c base passes p w h =
      xor_range-mul passes c.pipe_chunks term
      ∙ xor_range-ext passes (λ q. xor_range c.pipe_chunks (λ j. term (q * c.pipe_chunks + j)))
          (only p whole)
          (λ q hq.
            xor_range-ext c.pipe_chunks (λ j. term (q * c.pipe_chunks + j))
              (λ j. if p == q then value q j else 0)
              (λ j hj. ap (λ k. if p == k then value q j else 0) (mix_div q j c.pipe_chunks hj))
            ∙ gathered q)
      ∙ xor_range-only p whole passes h
    where
      value : ℕ → ℕ → ℕ
      value q j = part done c (base + (q * c.pipe_chunks + j)) w

      term : ℕ → ℕ
      term i = if p == i / c.pipe_chunks then part done c (base + i) w else 0

      whole : ℕ → ℕ
      whole q = xor_range c.pipe_chunks (value q)

      gathered :
          (q : ℕ) → xor_range c.pipe_chunks (λ j. if p == q then value q j else 0) ≡ only p whole q
      gathered q = elim (same_or_not p q) [
        | inl (e, test) ↦
            ap (λ b. xor_range c.pipe_chunks (λ j. if b then value q j else 0)) test
            ∙ sym (ap (λ b. if b then whole q else 0) test)
        | inr test ↦
            ap (λ b. xor_range c.pipe_chunks (λ j. if b then value q j else 0)) test
            ∙ xor_range-zero c.pipe_chunks
            ∙ sym (ap (λ b. if b then whole q else 0) test)
      ]

  -- At the end of a call, what a lane has added follows from what the call does not change.
  abbrev sum_keys : List (PipeCtx × (ℕ × ℕ)) → ℕ → ℕ → ℕ
  sum_keys [] p w = 0
  sum_keys (k ∷ ks) p w = bit_xor (share done k.0 k.1.0 (k.1.1 - k.1.0) p w) (sum_keys ks p w)

  abbrev keys : List Lane → List (PipeCtx × (ℕ × ℕ))
  keys xs = map (key done) xs

  total-sum_keys :
      (xs : List Lane) (p w : ℕ)
      → AllValid done xs
      → AllLeft done 0 xs
      → total done xs p w ≡ sum_keys (keys xs) p w
  total-sum_keys [] p w v l = refl
  total-sum_keys (x ∷ xs) p w v l =
      ap₂ (λ m t. bit_xor (share done x.c x.base m p w) t) {x = x.c.pipe_collected - x.base}
        {y = x.stop - x.base} (omega (arith, v.0.upto, l.0)) (total-sum_keys xs p w v.1 l.1)

  stops :
      (xs : List Lane)
      → AllValid done xs
      → AllLeft done 0 xs
      → map (λ x. x.c.pipe_collected) xs ≡ map (λ k. k.1.1) (keys xs)
  stops [] v l = refl
  stops (x ∷ xs) v l =
      ap₂ ◌∷◌ {x = x.c.pipe_collected} {y = x.stop} (omega (arith, v.0.upto, l.0))
        (stops xs v.1 l.1)

  module _ {B : Type 0} (be : Backend B) (passes : ℕ) where
    abbrev starts : List PipeCtx → List Lane
    starts ctx = map (start_lane be passes) ctx

    starts-sum_keys :
        (ctx : List PipeCtx) (p w : ℕ)
        → p < passes
        → sum_keys (keys (starts ctx)) p w ≡ pass_sum ctx p w
    unfolding start_lane
    starts-sum_keys [] p w h = refl
    starts-sum_keys (c ∷ ctx) p w h =
        ap₂ bit_xor
          (ap (λ m. share done c c.pipe_collected m p w)
              {x = c.pipe_collected + passes * c.pipe_chunks - c.pipe_collected} (omega arith)
            ∙ share-pass c c.pipe_collected passes p w h)
          (starts-sum_keys ctx p w h)

    starts-AllValid : (ctx : List PipeCtx) → AllInRing ctx → AllValid done (starts ctx)
    unfolding start_lane
    starts-AllValid [] h = tt
    starts-AllValid (c ∷ ctx) h =
        (record { ring = h.0; from = omega arith; upto = omega arith }, starts-AllValid ctx h.1)

    starts-AllLeft :
        (ctx : List PipeCtx) (n : ℕ) → most_chunks be passes ctx ≤ n → AllLeft done n (starts ctx)
    unfolding start_lane most_chunks
    starts-AllLeft [] n h = tt
    starts-AllLeft (c ∷ ctx) n h = (omega arith, starts-AllLeft ctx n (omega arith))

    starts-total : (ctx : List PipeCtx) (p w : ℕ) → 0 ≡ total done (starts ctx) p w
    unfolding start_lane
    starts-total [] p w = refl
    starts-total (c ∷ ctx) p w =
        sym (zero-xor 0)
        ∙ ap₂ bit_xor
            (ap (λ m. share done c c.pipe_collected m p w) {x = 0}
              {y = c.pipe_collected - c.pipe_collected} (omega arith))
            (starts-total ctx p w)

    starts-stops :
        (ctx : List PipeCtx)
        → map (λ k. k.1.1) (keys (starts ctx))
          ≡ map (λ c. c.pipe_collected + passes * c.pipe_chunks) ctx
    unfolding start_lane
    starts-stops [] = refl
    starts-stops (c ∷ ctx) =
        ap (λ t. (c.pipe_collected + passes * c.pipe_chunks) ∷ t) (starts-stops ctx)

-- Over a backend that queues every chunk and reads chunk `seq` of each device back as `done dev seq`,
-- with at most VB_PIPE_RING chunks in flight on each device at the start: the call succeeds, every
-- device has collected `passes` whole passes more, and each of those passes is the XOR of its chunks
-- over all devices.
pub dev_pipe_next-pass_sum :
    {B : Type 0} (be : Backend B) (done : ℕ → ℕ → Finished) (ctx : List PipeCtx) (passes : ℕ)
    (b : B)
    → Reliable be done
    → AllInRing ctx
    → ((dev_pipe_next be ctx passes b).ok ≡ true)
      × (map (λ x. x.c.pipe_collected) (dev_pipe_next be ctx passes b).lanes
          ≡ map (λ c. c.pipe_collected + passes * c.pipe_chunks) ctx)
      × ((p w : ℕ) → p < passes → (dev_pipe_next be ctx passes b).out p w ≡ pass_sum done ctx p w)
unfolding dev_pipe_next
dev_pipe_next-pass_sum be done ctx passes b r h = (
  whole.ok,
  stops done s.lanes whole.valid whole.finished
      ∙ ap (map (λ k. k.1.1)) whole.keys
      ∙ starts-stops done be passes ctx,
  λ p w lt.
      whole.outs p w
      ∙ zero-xor (total done s.lanes p w)
      ∙ total-sum_keys done s.lanes p w whole.valid whole.finished
      ∙ ap (λ ks. sum_keys done ks p w) whole.keys
      ∙ starts-sum_keys done be passes ctx p w lt,
)
  where
    start : Progress be
    start = record {
      ok = true;
      busy = true;
      lanes = starts done be passes ctx;
      out = λ p w. 0;
      world = b;
    }

    s : Progress be
    s = dev_pipe_next be ctx passes b

    whole : Complete done be r start.lanes s
    whole =
        rounds-Complete done be r (most_chunks be passes ctx + 1) start refl
          (λ e. absurd (ground (arith, e)))
          (starts-AllLeft done be passes ctx (most_chunks be passes ctx + 1) (omega arith))
          (starts-AllValid done be passes ctx h)
          (λ p w.
            sym (zero-xor (total done start.lanes p w) ∙ sym (starts-total done be passes ctx p w)))
