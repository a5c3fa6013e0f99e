-- ===== src/Cli/Ladder.antt =====
-- `parse_ladder` ends, and accepts only what the checkpointed walk can use.
use valubench.Prelude.{
  ℕ, zero, suc, ◌≤◌, ◌<◌, ◌≡◌, refl, ap, Bool, true, false, ◌&&◌, ◌||◌, not, ltb, leb, ◌==◌,
  if◌then◌else◌, Option, none, some, List, [], ◌∷◌, ◌++◌, length, arith,
}
use valubench.Workload.Reference.Spec.{AllAtMost}
use valubench.Cli.{
  Number, Outcome, strtoul, iters_limit, last_or, rung_ok, ladder_loop, parse_ladder,
}
use valubench.Cli.Strtoul.{Shorter, strtoul-Shorter}

-- Each is greater than the one before it, the first than `lo`.
abbrev pub Rising : ℕ → List ℕ → Type 0
Rising lo [] = Unit {0}
Rising lo (t ∷ out) = (lo < t) × Rising t out

snoc-Rising :
    (lo : ℕ) (out : List ℕ) (v : ℕ)
    → Rising lo out
    → last_or out lo < v
    → Rising lo (out ++ (v ∷ []))
snoc-Rising lo [] v up h = (h, tt)
snoc-Rising lo (t ∷ out) v up h = (up.0, snoc-Rising t out v up.1 h)

snoc-AllAtMost :
    (hi : ℕ) (out : List ℕ) (v : ℕ) → AllAtMost hi out → v ≤ hi → AllAtMost hi (out ++ (v ∷ []))
snoc-AllAtMost hi [] v low h = (h, tt)
snoc-AllAtMost hi (t ∷ out) v low h = (low.0, snoc-AllAtMost hi out v low.1 h)

length-snoc : (out : List ℕ) (v : ℕ) → length (out ++ (v ∷ [])) ≡ suc (length out)
length-snoc [] v = refl
length-snoc (t ∷ out) v = ap suc (length-snoc out v)

-- Counts above 0, each greater than the one before, none above the limit, and no more than `max`.
pub record Usable (max : ℕ) (out : List ℕ) : Type 0 where
  pub up : Rising 0 out
  pub low : AllAtMost iters_limit out
  pub few : length out ≤ max

-- The loop ended, and what it accepted is usable.
abbrev pub Fine : ℕ → Outcome → Type 0
Fine max (Outcome.accepted out) = Usable max out
Fine max Outcome.rejected = Unit {0}
Fine max Outcome.unfinished = ⊥

rung-parts :
    (r a b c g : Bool)
    → (not (r || (a || b)) && (not c && not g)) ≡ true
    → (a ≡ false) × (b ≡ false) × (c ≡ false) × (g ≡ false)
rung-parts r a b c g h = (ground arith, ground arith, ground arith, ground arith)

above-last :
    (out : List ℕ) (v : ℕ)
    → (ltb 0 (length out) && leb v (last_or out 0)) ≡ false
    → 1 ≤ v
    → last_or out 0 < v
above-last [] v h pos = pos
above-last (t ∷ out) v h pos = ground (arith, h)

at-least : (v : ℕ) → ltb v 1 ≡ false → 1 ≤ v
at-least v h = ground arith

at-most : (v : ℕ) → ltb iters_limit v ≡ false → v ≤ iters_limit
at-most v h = ground arith

room : (n max : ℕ) → n ≤ max → (n == max) ≡ false → suc n ≤ max
room n max h ne = ground (arith, h)

snoc-Usable :
    (max : ℕ) (out : List ℕ) (v : Number)
    → Usable max out
    → rung_ok max out v ≡ true
    → Usable max (out ++ (v.value ∷ []))
unfolding rung_ok
snoc-Usable max out v u h =
    let (pos, low, some_room, rises) =
      rung-parts v.out_of_range (ltb v.value 1) (ltb iters_limit v.value) (length out == max)
        (ltb 0 (length out) && leb v.value (last_or out 0)) h in
    let grown = length-snoc out v.value in
    record {
      up = snoc-Rising 0 out v.value u.up (above-last out v.value rises (at-least v.value pos));
      low = snoc-AllAtMost iters_limit out v.value u.low (at-most v.value low);
      few = omega (arith, grown, room (length out) max u.few some_room);
    }

module _ (max fuel : ℕ)
    (go : (p out : List ℕ)
      → length p ≤ fuel
      → Usable max out
      → Fine max (ladder_loop max fuel p out)) where
  comma-Fine :
      (b : Bool) (rest out : List ℕ)
      → length rest ≤ fuel
      → Usable max out
      → Fine max (elim b [ true ↦ ladder_loop max fuel rest out | false ↦ Outcome.rejected ])
  comma-Fine true rest out h u = go rest out h u
  comma-Fine false rest out h u = tt

  end-Fine :
      (end out : List ℕ)
      → length end ≤ fuel
      → Usable max out
      → Fine max (elim end [
        | [] ↦ ladder_loop max fuel [] out
        | e ∷ rest ↦ elim (e == 44) [
          | true ↦ ladder_loop max fuel rest out
          | false ↦ Outcome.rejected
        ]
      ])
  end-Fine [] out h u = go [] out h u
  end-Fine (e ∷ rest) out h u = comma-Fine (e == 44) rest out (omega (arith, h)) u

  rung-Fine :
      (b : Bool) (v : Number) (out : List ℕ)
      → rung_ok max out v ≡ b
      → length v.end ≤ fuel
      → Usable max out
      → Fine max (elim b [
        | false ↦ Outcome.rejected
        | true ↦ elim v.end [
          | [] ↦ ladder_loop max fuel [] (out ++ (v.value ∷ []))
          | e ∷ rest ↦ elim (e == 44) [
            | true ↦ ladder_loop max fuel rest (out ++ (v.value ∷ []))
            | false ↦ Outcome.rejected
          ]
        ]
      ])
  rung-Fine false v out e h u = tt
  rung-Fine true v out e h u = end-Fine v.end (out ++ (v.value ∷ [])) h (snoc-Usable max out v u e)

  number-Fine :
      (p : List ℕ) (o : Option Number) (out : List ℕ)
      → Shorter p o
      → length p ≤ suc fuel
      → Usable max out
      → Fine max (elim o [
        | none ↦ Outcome.rejected
        | some v ↦ elim (rung_ok max out v) [
          | false ↦ Outcome.rejected
          | true ↦ elim v.end [
            | [] ↦ ladder_loop max fuel [] (out ++ (v.value ∷ []))
            | e ∷ rest ↦ elim (e == 44) [
              | true ↦ ladder_loop max fuel rest (out ++ (v.value ∷ []))
              | false ↦ Outcome.rejected
            ]
          ]
        ]
      ])
  number-Fine p none out short h u = tt
  number-Fine p (some v) out short h u =
      rung-Fine (rung_ok max out v) v out refl (omega (arith, short, h)) u

ladder_loop-Fine :
    (max fuel : ℕ) (p out : List ℕ)
    → length p ≤ fuel
    → Usable max out
    → Fine max (ladder_loop max fuel p out)
unfolding ladder_loop
ladder_loop-Fine max fuel [] out enough u = u
ladder_loop-Fine max zero (c ∷ p) out enough u = absurd (omega (arith, enough))
ladder_loop-Fine max (suc fuel) (c ∷ p) out enough u =
    number-Fine max fuel (ladder_loop-Fine max fuel) (c ∷ p) (strtoul (c ∷ p)) out
      (strtoul-Shorter (c ∷ p)) (omega (arith, enough)) u

-- A ladder that may be used: one that is not empty, too.
abbrev pub Parsed : ℕ → Outcome → Type 0
Parsed max (Outcome.accepted out) = (0 < length out) × Usable max out
Parsed max Outcome.rejected = Unit {0}
Parsed max Outcome.unfinished = ⊥

some-Parsed :
    (max : ℕ) (out : List ℕ) (b : Bool)
    → (length out == 0) ≡ b
    → Usable max out
    → Parsed max (if b then Outcome.rejected else Outcome.accepted out)
some-Parsed max out true e u = tt
some-Parsed max out false e u = (ground (arith, e), u)

outcome-Parsed :
    (max : ℕ) (o : Outcome)
    → Fine max o
    → Parsed max (elim o [
      | Outcome.accepted out ↦ if length out == 0 then Outcome.rejected else Outcome.accepted out
      | Outcome.rejected ↦ Outcome.rejected
      | Outcome.unfinished ↦ Outcome.unfinished
    ])
outcome-Parsed max (Outcome.accepted out) h = some-Parsed max out (length out == 0) refl h
outcome-Parsed max Outcome.rejected h = tt
outcome-Parsed max Outcome.unfinished h = h

-- On every argument `parse_ladder` comes to an end: it rejects it, or accepts a ladder of at least one
-- and at most `max` counts, from 1 to VB_MAX_ITERS, each greater than the one before.
pub parse_ladder-Parsed : (arg : List ℕ) (max : ℕ) → Parsed max (parse_ladder arg max)
unfolding parse_ladder
parse_ladder-Parsed arg max = outcome-Parsed max (ladder_loop max (length arg) arg []) (
    ladder_loop-Fine max (length arg) arg [] (omega arith)
      (record { up = tt; low = tt; few = omega arith }))
