-- ===== src/Device/Pipe/Turns.antt =====
-- One device's turn over a backend that never fails.
use valubench.Prelude.{
  ℕ, zero, suc, ◌+◌, ◌-◌, ◌*◌, ◌/◌, ◌≤◌, ◌<◌, ◌≡◌, refl, sym, ap, ◌∙◌, arith, Bool, true, false,
  ltb, ◌==◌, if◌then◌else◌, bit_xor, u64, ◌⊎◌, inl, inr,
}
use valubench.Prelude.{by_bool, lt→ltb, le→ltb, Option, some}
use mathlib.Core.Path.{subst}
use valubench.Bits.Fold.{xor_range}
use valubench.Bits.Xor.{xor-zero}
use valubench.Device.Fold.{fold_partials, fold_partials-xor_range}
use valubench.Workload.Corpus.{Memory}
use valubench.Device.Pipe.{
  pipe_ring, PipeCtx, Request, Finished, Backend, Lane, Outs, next_request, pipe_queue, top_up,
  collect, take_turn,
}
use valubench.Device.Pipe.Steps.{InRing}
use valubench.Device.Pipe.Ring.{false-ne-true}

-- Every request is queued, and chunk `seq` of a device is read back as `done dev seq`.
pub record Reliable {B : Type 0} (be : Backend B) (done : ℕ → ℕ → Finished) : Type 0 where
  pub queues : (r : Request) (b : B) → (be.pipe_enqueue r b).0 ≡ true
  pub answers : (dev seq : ℕ) (b : B) → (be.pipe_wait dev seq b).0 ≡ some (done dev seq)

pub same_or_not : (a b : ℕ) → ((a ≡ b) × ((a == b) ≡ true)) ⊎ ((a == b) ≡ false)
same_or_not a b = ground arith

module _ (done : ℕ → ℕ → Finished) where
  -- What chunk `s` of a device adds to word `w` of its pass.
  abbrev pub part : PipeCtx → ℕ → ℕ → ℕ
  part c s w =
      if ltb w c.partial_words
      then xor_range c.n_partials (λ i. (done c.dev s).partials (i * c.partial_words + w))
      else 0

  -- The lane after a turn.
  abbrev pub advanced : Lane → Lane
  advanced x = record x {
    c = record x.c {
      pipe_queued = x.c.pipe_collected + pipe_ring;
      pipe_collected = x.c.pipe_collected + 1;
    };
    k = u64 (x.k + (done x.c.dev x.c.pipe_collected).kernel_ns);
    t = u64 (x.t + (done x.c.dev x.c.pipe_collected).transfer_ns);
  }

  -- The pass that the next chunk belongs to.
  abbrev pub pass_of : Lane → ℕ
  pass_of x = (x.c.pipe_collected - x.base) / x.c.pipe_chunks

  pub record Took {B : Type 0} (x : Lane) (out : Outs) (r : Bool × (Lane × (Outs × B)))
      : Type 0 where
    pub ok : r.0 ≡ true
    pub lane : r.1.0 ≡ advanced x
    pub outs :
        (p w : ℕ)
        → r.1.1.0 p w
          ≡ bit_xor (out p w) (if p == pass_of x then part x.c x.c.pipe_collected w else 0)

  fold-part :
      (c : PipeCtx) (s : ℕ) (acc : Memory) (w : ℕ)
      → fold_partials c.n_partials c.partial_words (done c.dev s).partials acc w
        ≡ bit_xor (acc w) (part c s w)
  fold-part c s acc w =
      let laws =
        fold_partials-xor_range c.n_partials c.partial_words (done c.dev s).partials acc w in
      elim (side w c.partial_words) [
        | inl below ↦
            laws.0 below
            ∙ ap (λ t. bit_xor (acc w) (if t then column else 0))
                (sym (lt→ltb w c.partial_words below))
        | inr above ↦
            laws.1 above
            ∙ sym (xor-zero (acc w))
            ∙ ap (λ t. bit_xor (acc w) (if t then column else 0))
                (sym (le→ltb w c.partial_words above))
      ]
    where
      side : (x y : ℕ) → (x < y) ⊎ (y ≤ x)
      side x y = omega arith

      column : ℕ
      column = xor_range c.n_partials (λ i. (done c.dev s).partials (i * c.partial_words + w))

  module _ {B : Type 0} (be : Backend B) (r : Reliable be done) where
    pipe_queue-ok :
        (c : PipeCtx) (b : B)
        → ((pipe_queue be c b).0 ≡ true)
          × ((pipe_queue be c b).1.0 ≡ record c { pipe_queued = c.pipe_queued + 1 })
    unfolding pipe_queue
    pipe_queue-ok c b =
        by_bool
          (λ (q : Bool × (PipeCtx × B)).
            (q.0 ≡ true) × (q.1.0 ≡ record c { pipe_queued = c.pipe_queued + 1 }))
          (be.pipe_enqueue (next_request c) b).0 (λ ok. (refl, refl))
          (λ bad. absurd (false-ne-true (sym bad ∙ r.queues (next_request c) b)))

    -- The top-up fills the ring.
    top_up-ok :
        (fuel : ℕ) (c : PipeCtx) (b : B)
        → c.pipe_collected + pipe_ring ≤ c.pipe_queued + fuel
        → c.pipe_queued ≤ c.pipe_collected + pipe_ring
        → ((top_up be fuel c b).0 ≡ true)
          × ((top_up be fuel c b).1.0 ≡ record c { pipe_queued = c.pipe_collected + pipe_ring })
    unfolding top_up
    top_up-ok zero c b enough room = (refl, ap (λ q. record c { pipe_queued = q }) (omega arith))
    top_up-ok (suc fuel) c b enough room =
        by_bool Full (ltb c.pipe_queued (c.pipe_collected + pipe_ring))
          (λ more.
            let q = pipe_queue-ok c b in
            let (d, after) = (pipe_queue be c b).1 in
            let count = ap (λ (d : PipeCtx). d.pipe_queued) q.1 in
            let base = ap (λ (d : PipeCtx). d.pipe_collected) q.1 in
            by_bool Full (pipe_queue be c b).0
              (λ ok.
                let rest =
                  top_up-ok fuel d after (omega (arith, enough, count, base))
                    (ground (arith, more, count, base)) in
                (
                  rest.0,
                  rest.1
                      ∙ ap
                          (λ (d : PipeCtx). record d { pipe_queued = d.pipe_collected + pipe_ring })
                          q.1,
                ))
              (λ bad. absurd (false-ne-true (sym bad ∙ q.0))))
          (λ full. (refl, ap (λ q. record c { pipe_queued = q }) (ground (arith, full))))
      where
        Full : Bool × (PipeCtx × B) → Type 0
        Full q = (q.0 ≡ true) × (q.1.0 ≡ record c { pipe_queued = c.pipe_collected + pipe_ring })

    collect-Took :
        (x : Lane) (out : Outs) (c : PipeCtx) (result : Option Finished) (b : B)
        → c ≡ record x.c { pipe_queued = x.c.pipe_collected + pipe_ring }
        → result ≡ some (done c.dev c.pipe_collected)
        → Took x out (collect be x c out result b)
    unfolding collect
    collect-Took x out c result b same known =
        subst (λ result. Took x out (collect be x c out result b)) (sym known)
          (subst (λ c. Took x out (collect be x c out (some (done c.dev c.pipe_collected)) b))
            (sym same) (record { ok = refl; lane = refl; outs = added }))
      where
        folded : Memory
        folded =
            fold_partials x.c.n_partials x.c.partial_words
              (done x.c.dev x.c.pipe_collected).partials (out (pass_of x))

        now : ℕ → ℕ
        now w = part x.c x.c.pipe_collected w

        added :
            (p w : ℕ)
            → (if p == pass_of x then folded else out p) w
              ≡ bit_xor (out p w) (if p == pass_of x then now w else 0)
        added p w = elim (same_or_not p (pass_of x)) [
          | inl (e, test) ↦
              ap (λ b. (if b then folded else out p) w) test
              ∙ fold-part x.c x.c.pipe_collected (out (pass_of x)) w
              ∙ ap (λ q. bit_xor (out q w) (now w)) (sym e)
              ∙ ap (λ b. bit_xor (out p w) (if b then now w else 0)) (sym test)
          | inr test ↦
              ap (λ b. (if b then folded else out p) w) test
              ∙ sym (xor-zero (out p w))
              ∙ ap (λ b. bit_xor (out p w) (if b then now w else 0)) (sym test)
        ]

    pub take_turn-Took :
        (x : Lane) (out : Outs) (b : B) → InRing x.c → Took x out (take_turn be x out b)
    unfolding take_turn
    take_turn-Took x out b h =
        let up = top_up-ok pipe_ring x.c b (omega (arith, h.behind)) h.ahead in
        let (c, after) = (top_up be pipe_ring x.c b).1 in
        let waited = be.pipe_wait c.dev c.pipe_collected after in
        by_bool (Took x out) (top_up be pipe_ring x.c b).0
          (λ ok.
            collect-Took x out c waited.0 waited.1 up.1 (r.answers c.dev c.pipe_collected after))
          (λ bad. absurd (false-ne-true (sym bad ∙ up.0)))
