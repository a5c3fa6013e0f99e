-- ===== src/Device/Pipe/Ring.antt =====
-- The pipeline's functions take each context by the steps of a pipeline, whatever the backend does.
use valubench.Prelude.{
  ℕ, zero, suc, ◌+◌, ◌-◌, ◌≤◌, ◌<◌, ◌≡◌, refl, sym, ap, ◌∙◌, arith, Bool, true, false, ltb,
}
use valubench.Prelude.{by_bool, Option, none, some, List, [], ◌∷◌, map, ◌&&◌}
use mathlib.Core.Path.{subst}
use valubench.Device.Pipe.Steps.{
  queue, retire, halt, Reach, here, next, Reach-then, InRing, AllReach, AllInRing, AllReach-refl,
  AllReach-then, AllReach-AllInRing,
}
use valubench.Device.Pipe.{
  pipe_ring, PipeCtx, Finished, Backend, Lane, Outs, Progress, begin_one, next_request, pipe_queue,
  top_up, collect, take_turn, round, rounds, start_lane, most_chunks, dev_pipe_begin, dev_pipe_next,
  drain, end_one, dev_pipe_end,
}

pub false-ne-true : false ≡ true → ⊥
false-ne-true e = ground arith

module _ {B : Type 0} (be : Backend B) where
  -- A chunk is queued, or the backend refuses it and nothing changes.
  record Queued (c : PipeCtx) (r : Bool × (PipeCtx × B)) : Type 0 where
    reach : Reach c r.1.0
    kept : r.1.0.pipe_collected ≡ c.pipe_collected
    counted : r.0 ≡ true → r.1.0.pipe_queued ≡ c.pipe_queued + 1

  pipe_queue-Queued :
      (c : PipeCtx) (b : B)
      → c.pipe_queued < c.pipe_collected + pipe_ring
      → Queued c (pipe_queue be c b)
  unfolding pipe_queue
  pipe_queue-Queued c b room =
      by_bool (Queued c) (be.pipe_enqueue (next_request c) b).0
        (λ ok. record { reach = next here (queue c room); kept = refl; counted = λ e. refl })
        (λ bad. record { reach = here; kept = refl; counted = λ e. absurd (false-ne-true e) })

  -- The top-up queues within the ring, and fills it unless it fails.
  record Topped (c : PipeCtx) (r : Bool × (PipeCtx × B)) : Type 0 where
    reach : Reach c r.1.0
    kept : r.1.0.pipe_collected ≡ c.pipe_collected
    full : r.0 ≡ true → c.pipe_collected + pipe_ring ≤ r.1.0.pipe_queued

  top_up-Topped :
      (fuel : ℕ) (c : PipeCtx) (b : B)
      → c.pipe_collected + pipe_ring ≤ c.pipe_queued + fuel
      → Topped c (top_up be fuel c b)
  unfolding top_up
  top_up-Topped zero c b h = record { reach = here; kept = refl; full = λ e. omega arith }
  top_up-Topped (suc fuel) c b h =
      by_bool (Topped c) (ltb c.pipe_queued (c.pipe_collected + pipe_ring))
        (λ room.
          let q = pipe_queue-Queued c b (ground (arith, room)) in
          let (d, after) = (pipe_queue be c b).1 in
          by_bool (Topped c) (pipe_queue be c b).0
            (λ ok.
              let rest = top_up-Topped fuel d after (omega (arith, h, q.kept, q.counted ok)) in
              record {
                reach = Reach-then q.reach rest.reach;
                kept = rest.kept ∙ q.kept;
                full = λ e. omega (arith, rest.full e, q.kept);
              })
            (λ bad. record {
              reach = q.reach;
              kept = q.kept;
              full = λ e. absurd (false-ne-true e);
            }))
        (λ full. record { reach = here; kept = refl; full = λ e. ground (arith, full) })

  take_turn-Reach :
      (x : Lane) (out : Outs) (b : B) → InRing x.c → Reach x.c (take_turn be x out b).1.0.c
  unfolding take_turn
  take_turn-Reach x out b h =
      let t = top_up-Topped pipe_ring x.c b (omega (arith, h.behind)) in
      let (c, after) = (top_up be pipe_ring x.c b).1 in
      by_bool (λ (r : Bool × (Lane × (Outs × B))). Reach x.c r.1.0.c) (top_up be pipe_ring x.c b).0
        (λ ok.
          collect-Reach c out (be.pipe_wait c.dev c.pipe_collected after).0
            (be.pipe_wait c.dev c.pipe_collected after).1 t.reach
            (omega (arith, t.full ok, t.kept)))
        (λ bad. t.reach)
    where
      collect-Reach :
          (c : PipeCtx) (out : Outs) (result : Option Finished) (b : B)
          → Reach x.c c
          → c.pipe_collected < c.pipe_queued
          → Reach x.c (collect be x c out result b).1.0.c
      collect-Reach c out none b r left = r
      collect-Reach c out (some d) b r left = next r (retire c left)

  abbrev pub contexts : List Lane → List PipeCtx
  contexts xs = map (λ x. x.c) xs

  round-AllReach :
      (xs : List Lane) (out : Outs) (b : B)
      → AllInRing (contexts xs)
      → AllReach (contexts xs) (contexts (round be xs out b).lanes)
  unfolding round
  round-AllReach [] out b h = tt
  round-AllReach (x ∷ xs) out b h =
      by_bool (λ (r : Progress be). AllReach (contexts (x ∷ xs)) (contexts r.lanes))
        (ltb x.c.pipe_collected x.stop)
        (λ more.
          let turn = take_turn be x out b in
          let (folded, after) = turn.1.1 in
          by_bool (λ (r : Progress be). AllReach (contexts (x ∷ xs)) (contexts r.lanes)) turn.0
            (λ ok. (take_turn-Reach x out b h.0, round-AllReach xs folded after h.1))
            (λ bad. (take_turn-Reach x out b h.0, AllReach-refl (contexts xs))))
        (λ done. (here, round-AllReach xs out b h.1))

  rounds-AllReach :
      (fuel : ℕ) (s : Progress be)
      → AllInRing (contexts s.lanes)
      → AllReach (contexts s.lanes) (contexts (rounds be fuel s).lanes)
  unfolding rounds
  rounds-AllReach zero s h = AllReach-refl (contexts s.lanes)
  rounds-AllReach (suc fuel) s h =
      let r = round be s.lanes s.out s.world in
      let moved = round-AllReach s.lanes s.out s.world h in
      by_bool (λ (t : Progress be). AllReach (contexts s.lanes) (contexts t.lanes)) (s.ok && s.busy)
        (λ go.
          AllReach-then (contexts s.lanes) (contexts r.lanes) (contexts (rounds be fuel r).lanes)
            moved
            (rounds-AllReach fuel r
              (AllReach-AllInRing (contexts s.lanes) (contexts r.lanes) moved h)))
        (λ stop. AllReach-refl (contexts s.lanes))

  contexts-start :
      (passes : ℕ) (ctx : List PipeCtx) → contexts (map (start_lane be passes) ctx) ≡ ctx
  unfolding start_lane
  contexts-start passes [] = refl
  contexts-start passes (c ∷ ctx) = ap (λ t. c ∷ t) (contexts-start passes ctx)

  pub dev_pipe_next-AllReach :
      (ctx : List PipeCtx) (passes : ℕ) (b : B)
      → AllInRing ctx
      → AllReach ctx (contexts (dev_pipe_next be ctx passes b).lanes)
  unfolding dev_pipe_next
  dev_pipe_next-AllReach ctx passes b h =
      let start = contexts-start passes ctx in
      subst (λ cs. AllReach cs (contexts (dev_pipe_next be ctx passes b).lanes)) start
        (rounds-AllReach (most_chunks be passes ctx + 1)
          (record {
            ok = true;
            busy = true;
            lanes = map (start_lane be passes) ctx;
            out = λ p w. 0;
            world = b;
          })
          (subst AllInRing (sym start) h))

  drain-Reach : (fuel : ℕ) (c : PipeCtx) (b : B) → Reach c (drain be fuel c b).0
  unfolding drain
  drain-Reach zero c b = here
  drain-Reach (suc fuel) c b =
      by_bool (λ (r : PipeCtx × B). Reach c r.0) (ltb c.pipe_collected c.pipe_queued)
        (λ more.
          waited
            (drain-Reach fuel (record c { pipe_collected = c.pipe_collected + 1 })
              (be.pipe_wait c.dev c.pipe_collected b).1)
            (be.pipe_wait c.dev c.pipe_collected b).0 (ground (arith, more)))
        (λ done. here)
    where
      after : B
      after = (be.pipe_wait c.dev c.pipe_collected b).1

      retired : PipeCtx
      retired = record c { pipe_collected = c.pipe_collected + 1 }

      waited :
          Reach retired (drain be fuel retired after).0
          → (result : Option Finished) → c.pipe_collected < c.pipe_queued
          → let r : PipeCtx × B = elim result [
            | none ↦ (c, after)
            | some d ↦ drain be fuel retired after
          ] in
            Reach c r.0
      waited rest none left = here
      waited rest (some d) left = Reach-then (next here (retire c left)) rest

  end_one-Reach : (c : PipeCtx) (b : B) → Reach c (end_one be c b).0
  unfolding end_one
  end_one-Reach c b =
      by_bool (λ (r : PipeCtx × B). Reach c r.0) c.pipe_running
        (λ running.
          let drained = drain-Reach (c.pipe_queued - c.pipe_collected) c b in
          next drained (halt (drain be (c.pipe_queued - c.pipe_collected) c b).0))
        (λ idle. here)

  dev_pipe_end-AllReach : (ctx : List PipeCtx) (b : B) → AllReach ctx (dev_pipe_end be ctx b).0
  unfolding dev_pipe_end
  dev_pipe_end-AllReach [] b = tt
  dev_pipe_end-AllReach (c ∷ ctx) b =
      (end_one-Reach c b, dev_pipe_end-AllReach ctx (end_one be c b).1)

begin-AllInRing : (iterations : ℕ) (ctx : List PipeCtx) → AllInRing (dev_pipe_begin iterations ctx)
unfolding dev_pipe_begin begin_one
begin-AllInRing iterations [] = tt
begin-AllInRing iterations (c ∷ ctx) =
    (record { behind = omega arith; ahead = omega arith }, begin-AllInRing iterations ctx)

-- If every pipeline has at most VB_PIPE_RING chunks in flight and has collected no chunk that it has
-- not queued, then, whatever the backend does and whichever of its calls fail, it is so after
-- `vb_dev_pipe_begin`, after `vb_dev_pipe_next` and after `vb_dev_pipe_end`.
pub pipeline-AllInRing :
    {B : Type 0} (be : Backend B) (ctx : List PipeCtx) (iterations passes : ℕ) (b : B)
    → AllInRing ctx
    → AllInRing (dev_pipe_begin iterations ctx)
      × AllInRing (contexts be (dev_pipe_next be ctx passes b).lanes)
      × AllInRing (dev_pipe_end be ctx b).0
pipeline-AllInRing be ctx iterations passes b h = (
  begin-AllInRing iterations ctx,
  AllReach-AllInRing ctx (contexts be (dev_pipe_next be ctx passes b).lanes)
      (dev_pipe_next-AllReach be ctx passes b h) h,
  AllReach-AllInRing ctx (dev_pipe_end be ctx b).0 (dev_pipe_end-AllReach be ctx b) h,
)
