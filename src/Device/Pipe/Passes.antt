-- ===== src/Device/Pipe/Passes.antt =====
-- What `vb_dev_pipe_next` returns over a backend that never fails: every pass whole, and every device
-- stopped on a pass boundary.
use valubench.Prelude.{
  ℕ, zero, suc, ◌+◌, ◌-◌, ◌/◌, ◌≤◌, ◌<◌, ◌≡◌, refl, sym, ap, ◌∙◌, arith, Bool, true, false, ltb,
  ◌&&◌, ◌==◌, if◌then◌else◌, bit_xor,
}
use valubench.Prelude.{by_bool, List, [], ◌∷◌, map}
use mathlib.Core.Path.{subst}
use valubench.Bits.Fold.{xor_range}
use valubench.Bits.Xor.{xor_comm, xor_assoc}
use valubench.Device.Pipe.{
  PipeCtx, Finished, Backend, Lane, Outs, Progress, take_turn, round, rounds,
}
use valubench.Device.Pipe.Steps.{InRing}
use valubench.Device.Pipe.Turns.{Reliable, part, advanced, pass_of, Took, take_turn-Took}
use valubench.Device.Pipe.Ring.{false-ne-true}

module _ (done : ℕ → ℕ → Finished) where
  -- What a device that started a call at chunk `base` has added to pass `p` after `m` chunks.
  abbrev pub share : PipeCtx → ℕ → ℕ → ℕ → ℕ → ℕ
  share c base m p w =
      xor_range m (λ i. if p == i / c.pipe_chunks then part done c (base + i) w else 0)

  abbrev pub total : List Lane → ℕ → ℕ → ℕ
  total [] p w = 0
  total (x ∷ xs) p w = bit_xor (share x.c x.base (x.c.pipe_collected - x.base) p w) (total xs p w)

  -- A lane within its call.
  pub record Valid (x : Lane) : Type 0 where
    pub ring : InRing x.c
    pub from : x.base ≤ x.c.pipe_collected
    pub upto : x.c.pipe_collected ≤ x.stop

  abbrev pub AllValid : List Lane → Type 0
  AllValid [] = Unit {0}
  AllValid (x ∷ xs) = Valid x × AllValid xs

  -- At most `n` chunks are left to collect from each device.
  abbrev pub AllLeft : ℕ → List Lane → Type 0
  AllLeft n [] = Unit {0}
  AllLeft n (x ∷ xs) = (x.stop ≤ x.c.pipe_collected + n) × AllLeft n xs

  -- What a call does not change.
  abbrev pub key : Lane → PipeCtx × (ℕ × ℕ)
  key x = (record x.c { pipe_queued = 0; pipe_collected = 0 }, (x.base, x.stop))

  share-suc :
      (x : Lane) (p w : ℕ)
      → x.base ≤ x.c.pipe_collected
      → share x.c x.base (x.c.pipe_collected + 1 - x.base) p w
        ≡ bit_xor
            (share x.c x.base (x.c.pipe_collected - x.base) p w)
            (if p == pass_of done x then part done x.c x.c.pipe_collected w else 0)
  share-suc x p w from =
      let m = x.c.pipe_collected - x.base in
      ap (λ n. share x.c x.base n p w) {y = suc m} (omega arith)
      ∙ ap
          (λ s.
            bit_xor (share x.c x.base m p w)
              (if p == m / x.c.pipe_chunks then part done x.c s w else 0))
          (omega arith)

  advanced-Valid : (x : Lane) → Valid x → x.c.pipe_collected < x.stop → Valid (advanced done x)
  advanced-Valid x h more = record {
    ring = record { behind = omega arith; ahead = omega arith };
    from = omega (arith, h.from);
    upto = omega (arith, more);
  }

  exchange :
      (z s t e : ℕ) → bit_xor (bit_xor z (bit_xor s t)) e ≡ bit_xor (bit_xor z (bit_xor s e)) t
  exchange z s t e =
      ap (λ q. bit_xor q e) (sym (xor_assoc z s t))
      ∙ xor_assoc (bit_xor z s) t e
      ∙ ap (bit_xor (bit_xor z s)) (xor_comm t e)
      ∙ sym (xor_assoc (bit_xor z s) e t)
      ∙ ap (λ q. bit_xor q t) (xor_assoc z s e)

  module _ {B : Type 0} (be : Backend B) (r : Reliable be done) where
    -- A round over the lanes, when `z` is what the lanes before them have added.
    record Rounded (z : Outs) (xs : List Lane) (s : Progress be) : Type 0 where
      ok : s.ok ≡ true
      valid : AllValid s.lanes
      keys : map key s.lanes ≡ map key xs
      outs : (p w : ℕ) → s.out p w ≡ bit_xor (z p w) (total s.lanes p w)
      idle : s.busy ≡ false → AllLeft 0 s.lanes
      left : (n : ℕ) → AllLeft (n + 1) xs → AllLeft n s.lanes
      settled : AllLeft 0 xs → AllLeft 0 s.lanes

    abbrev pub Sums : Outs → List Lane → Outs → Type 0
    Sums z xs out = (p w : ℕ) → out p w ≡ bit_xor (z p w) (total xs p w)

    abbrev mine : Lane → Outs
    mine x p w = share x.c x.base (x.c.pipe_collected - x.base) p w

    -- The lane's own part moves to what came before the others.
    abbrev past : Outs → Lane → Outs
    past z x p w = bit_xor (z p w) (mine x p w)

    moved :
        (z out : Outs) (x : Lane) (xs : List Lane) → Sums z (x ∷ xs) out → Sums (past z x) xs out
    moved z out x xs h p w = h p w ∙ sym (xor_assoc (z p w) (mine x p w) (total xs p w))

    back : (z out : Outs) (x : Lane) (xs : List Lane) → Sums (past z x) xs out → Sums z (x ∷ xs) out
    back z out x xs h p w = h p w ∙ xor_assoc (z p w) (mine x p w) (total xs p w)

    turned :
        (z out : Outs) (x : Lane) (xs : List Lane) (t : Bool × (Lane × (Outs × B)))
        → Valid x
        → Sums z (x ∷ xs) out
        → Took done x out t
        → Sums (past z (advanced done x)) xs t.1.1.0
    turned z out x xs t v h took p w =
        let e = if p == pass_of done x then part done x.c x.c.pipe_collected w else 0 in
        took.outs p w
        ∙ ap (λ q. bit_xor q e) (h p w)
        ∙ exchange (z p w) (mine x p w) (total xs p w) e
        ∙ ap (λ q. bit_xor (bit_xor (z p w) q) (total xs p w)) (sym (share-suc x p w v.from))

    round-Rounded :
        (z out : Outs) (xs : List Lane) (b : B)
        → AllValid xs
        → Sums z xs out
        → Rounded z xs (round be xs out b)
    unfolding round
    round-Rounded z out [] b v h = record {
      ok = refl;
      valid = tt;
      keys = refl;
      outs = h;
      idle = λ e. tt;
      left = λ n l. tt;
      settled = λ l. tt;
    }
    round-Rounded z out (x ∷ xs) b v h =
        by_bool (Rounded z (x ∷ xs)) (ltb x.c.pipe_collected x.stop)
          (λ more.
            let t = take_turn be x out b in
            let took = take_turn-Took done be r x out b v.0.ring in
            let (folded, after) = t.1.1 in
            let tail =
              round-Rounded (past z (advanced done x)) folded xs after v.1
                (turned z out x xs t v.0 h took) in
            let s = round be xs folded after in
            by_bool (Rounded z (x ∷ xs)) t.0
              (λ ok.
                subst (λ y. Rounded z (x ∷ xs) (record s { busy = true; lanes = y ∷ s.lanes }))
                  (sym took.lane)
                  (record {
                    ok = tail.ok;
                    valid = (advanced-Valid x v.0 (ground (arith, more)), tail.valid);
                    keys = ap (λ ks. key x ∷ ks) tail.keys;
                    outs = back z s.out (advanced done x) s.lanes tail.outs;
                    idle = λ e. absurd (false-ne-true (sym e));
                    left = λ n l. (omega (arith, l.0), tail.left n l.1);
                    settled = λ l. absurd (ground (arith, more, l.0));
                  }))
              (λ bad. absurd (false-ne-true (sym bad ∙ took.ok))))
          (λ full.
            let tail = round-Rounded (past z x) out xs b v.1 (moved z out x xs h) in
            let s = round be xs out b in
            record {
              ok = tail.ok;
              valid = (v.0, tail.valid);
              keys = ap (λ ks. key x ∷ ks) tail.keys;
              outs = back z s.out x s.lanes tail.outs;
              idle = λ e. (ground (arith, full), tail.idle e);
              left = λ n l. (ground (arith, full), tail.left n l.1);
              settled = λ l. (l.0, tail.settled l.1);
            })

    -- Where the whole call ends.
    pub record Complete (xs : List Lane) (s : Progress be) : Type 0 where
      pub ok : s.ok ≡ true
      pub valid : AllValid s.lanes
      pub keys : map key s.lanes ≡ map key xs
      pub outs : Sums (λ p w. 0) s.lanes s.out
      pub finished : AllLeft 0 s.lanes

    pub rounds-Complete :
        (fuel : ℕ) (s : Progress be)
        → s.ok ≡ true
        → (s.busy ≡ false → AllLeft 0 s.lanes)
        → AllLeft fuel s.lanes
        → AllValid s.lanes
        → Sums (λ p w. 0) s.lanes s.out
        → Complete s.lanes (rounds be fuel s)
    unfolding rounds
    rounds-Complete zero s ok idle left v h = record {
      ok = ok;
      valid = v;
      keys = refl;
      outs = h;
      finished = left;
    }
    rounds-Complete (suc fuel) s ok idle left v h =
        by_bool (Complete s.lanes) (s.ok && s.busy)
          (λ go.
            let next = round be s.lanes s.out s.world in
            let one = round-Rounded (λ p w. 0) s.out s.lanes s.world v h in
            let fewer =
              one.left fuel (subst (λ n. AllLeft n s.lanes) {x = suc fuel} (omega arith) left) in
            let rest = rounds-Complete fuel next one.ok one.idle fewer one.valid one.outs in
            record {
              ok = rest.ok;
              valid = rest.valid;
              keys = rest.keys ∙ one.keys;
              outs = rest.outs;
              finished = rest.finished;
            })
          (λ stop. record {
            ok = ok;
            valid = v;
            keys = refl;
            outs = h;
            finished = idle (not_busy s.busy (sym (ap (λ o. o && s.busy) ok) ∙ stop));
          })
      where
        not_busy : (b : Bool) → (true && b) ≡ false → b ≡ false
        not_busy b e = e
