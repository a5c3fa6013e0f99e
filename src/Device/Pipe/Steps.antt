-- ===== src/Device/Pipe/Steps.antt =====
-- The steps that one pipeline may take, and what the comment on `pipe_queued` and `pipe_collected` in
-- include/device.h promises of them: at most VB_PIPE_RING apart.
use valubench.Prelude.{ℕ, ◌+◌, ◌≤◌, ◌<◌, false, arith, List, [], ◌∷◌}
use valubench.Device.Pipe.{pipe_ring, PipeCtx, begin_one}

-- What may happen to one pipeline: it starts, a chunk is queued while fewer than VB_PIPE_RING are in
-- flight, the oldest chunk in flight is collected, or the pipeline is marked as ended.
pub data PipeStep : PipeCtx → PipeCtx → Type 0 where
  begin : (c : PipeCtx) (iterations : ℕ) → PipeStep c (begin_one iterations c)
  queue :
      (c : PipeCtx)
      → c.pipe_queued < c.pipe_collected + pipe_ring
      → PipeStep c (record c { pipe_queued = c.pipe_queued + 1 })
  retire :
      (c : PipeCtx)
      → c.pipe_collected < c.pipe_queued
      → PipeStep c (record c { pipe_collected = c.pipe_collected + 1 })
  halt : (c : PipeCtx) → PipeStep c (record c { pipe_running = false })

pub data Reach (s : PipeCtx) : PipeCtx → Type 0 where
  here : Reach s s
  next : {t u : PipeCtx} → Reach s t → PipeStep t u → Reach s u

pub Reach-then : {s t u : PipeCtx} → Reach s t → Reach t u → Reach s u
Reach-then p here = p
Reach-then p (next q step) = next (Reach-then p q) step

pub record InRing (c : PipeCtx) : Type 0 where
  pub behind : c.pipe_collected ≤ c.pipe_queued
  pub ahead : c.pipe_queued ≤ c.pipe_collected + pipe_ring

PipeStep-InRing : {t u : PipeCtx} → PipeStep t u → InRing t → InRing u
unfolding begin_one
PipeStep-InRing (begin c it) h = record { behind = omega arith; ahead = omega arith }
PipeStep-InRing (queue c room) h = record {
  behind = omega (arith, h.behind);
  ahead = omega (arith, room);
}
PipeStep-InRing (retire c some_left) h = record {
  behind = omega (arith, some_left);
  ahead = omega (arith, h.ahead);
}
PipeStep-InRing (halt c) h = record { behind = h.behind; ahead = h.ahead }

pub Reach-InRing : {s t : PipeCtx} → Reach s t → InRing s → InRing t
Reach-InRing here h = h
Reach-InRing (next p step) h = PipeStep-InRing step (Reach-InRing p h)

-- Each context of a list reaches the one in its place.
abbrev pub AllReach : List PipeCtx → List PipeCtx → Type 0
AllReach [] [] = Unit {0}
AllReach [] (d ∷ ds) = ⊥
AllReach (c ∷ cs) [] = ⊥
AllReach (c ∷ cs) (d ∷ ds) = Reach c d × AllReach cs ds

abbrev pub AllInRing : List PipeCtx → Type 0
AllInRing [] = Unit {0}
AllInRing (c ∷ cs) = InRing c × AllInRing cs

pub AllReach-refl : (cs : List PipeCtx) → AllReach cs cs
AllReach-refl [] = tt
AllReach-refl (c ∷ cs) = (here, AllReach-refl cs)

pub AllReach-then : (cs ds es : List PipeCtx) → AllReach cs ds → AllReach ds es → AllReach cs es
AllReach-then [] [] [] p q = tt
AllReach-then [] [] (e ∷ es) p q = q
AllReach-then (c ∷ cs) (d ∷ ds) (e ∷ es) p q = (Reach-then p.0 q.0, AllReach-then cs ds es p.1 q.1)
AllReach-then [] (d ∷ ds) es p q = absurd p
AllReach-then (c ∷ cs) [] es p q = absurd p
AllReach-then (c ∷ cs) (d ∷ ds) [] p q = q

pub AllReach-AllInRing : (cs ds : List PipeCtx) → AllReach cs ds → AllInRing cs → AllInRing ds
AllReach-AllInRing [] [] p h = tt
AllReach-AllInRing [] (d ∷ ds) p h = absurd p
AllReach-AllInRing (c ∷ cs) [] p h = absurd p
AllReach-AllInRing (c ∷ cs) (d ∷ ds) p h = (Reach-InRing p.0 h.0, AllReach-AllInRing cs ds p.1 h.1)
