-- ===== src/Workload/Reference/Snapshot.antt =====
-- What the `while` over the due rungs does: it takes exactly those that land on this iteration.
use valubench.Prelude.{ℕ, zero, suc, ◌+◌, ◌≤◌, ◌≡◌, refl, sym, ap, ap₂, ◌∙◌, arith}
use mathlib.Core.Path.{subst}
use valubench.Prelude.{
  Bool, true, false, inl, inr, Bool-cases, ◌==◌, ==_iff, ltb, lt→ltb, le→ltb, ◌&&◌,
}
use valubench.Prelude.{List, [], ◌∷◌, ◌++◌, length, get_or, set, append-nil, append_assoc}
use valubench.Prelude.{length-append, get_or-append, set-append}
use valubench.Algorithm.{Algorithm}
use valubench.Workload.Reference.{snapshot}
use valubench.Workload.Reference.Rows.{Row, xor_row}
use valubench.Workload.Reference.Spec.{contribute, digest_at, Ascending, AllAtMost}

-- Where a walk over `msg` stands: the rungs `done` have been taken, those of `rest` are counts from
-- `lo` to `hi` and untouched, and what is to come will make the rows `target`.
pub record Progress (a : Algorithm) (msg iters : List ℕ) (target : List Row) (lo hi k : ℕ)
    (out : List Row) : Type 0 where
  pub done : List ℕ
  pub rest : List ℕ
  pub ready : List Row
  pub waiting : List Row
  pub split : iters ≡ done ++ rest
  pub position : k ≡ length done
  pub rows : out ≡ ready ++ waiting
  pub length-ready : length ready ≡ length done
  pub length-waiting : length waiting ≡ length rest
  pub ascends : Ascending lo rest
  pub bounded : AllAtMost hi rest
  pub aim : target ≡ ready ++ contribute a msg rest waiting

module _ (a : Algorithm) (iters : List ℕ) (count : ℕ) (row : Row) (k : ℕ) (out : List Row) where
  abbrev due : Bool
  due = ltb k (length iters) && get_or iters k 0 == count

  snapshot_stop : (fuel : ℕ) → due ≡ false → snapshot a iters fuel count row k out ≡ (k, out)
  unfolding snapshot
  snapshot_stop zero h = refl
  snapshot_stop (suc fuel) h = rw (h, snapshot)

  snapshot_go :
      (fuel : ℕ)
      → due ≡ true
      → snapshot a iters (suc fuel) count row k out
        ≡ snapshot a iters fuel count row (k + 1) (set out k (xor_row (get_or out k []) row))
  unfolding snapshot
  snapshot_go fuel h = rw (h, snapshot)

module _ (a : Algorithm) (msg iters : List ℕ) (target : List Row) (count hi : ℕ) where
  abbrev row : Row
  row = digest_at a count msg

  abbrev Goal : ℕ × List Row → Type 0
  Goal r = Progress a msg iters target (count + 1) hi r.0 r.1

  -- The loop, from the rungs that are left.
  take_due :
      (fuel : ℕ) (done rest : List ℕ) (ready waiting : List Row)
      → length rest ≤ fuel
      → iters ≡ done ++ rest
      → length ready ≡ length done
      → length waiting ≡ length rest
      → Ascending count rest
      → AllAtMost hi rest
      → target ≡ ready ++ contribute a msg rest waiting
      → Goal (snapshot a iters fuel count row (length done) (ready ++ waiting))
  take_due fuel done [] ready waiting h split lr lw up below aim =
      subst Goal (sym (snapshot_stop a iters count row (length done) (ready ++ waiting) fuel past))
        (record {
          done = done;
          rest = [];
          ready = ready;
          waiting = waiting;
          split = split;
          position = refl;
          rows = refl;
          length-ready = lr;
          length-waiting = lw;
          ascends = tt;
          bounded = tt;
          aim = aim;
        })
    where
      past : due a iters count row (length done) (ready ++ waiting) ≡ false
      past = rw (split, append-nil, le→ltb (length done) (length done) (omega arith))
  take_due zero done (t ∷ rest) ready waiting h split lr lw up below aim = absurd (omega arith)
  take_due (suc fuel) done (t ∷ rest) ready [] h split lr lw up below aim = absurd (omega arith)
  take_due (suc fuel) done (t ∷ rest) ready (w ∷ waiting) h split lr lw up below aim =
      elim (Bool-cases (t == count)) [
        | inl now ↦ subst Goal (sym (taken now)) (
            take_due fuel (done ++ t ∷ []) rest (ready ++ x ∷ []) waiting (omega arith)
              (split ∙ sym (append_assoc done (t ∷ []) rest))
              (omega (arith, length-append ready (x ∷ []), length-append done (t ∷ []), lr))
              (omega arith) (rw (← same now) up.1) below.1
              (aim
                ∙ ap (λ c. ready ++ (xor_row w (digest_at a c msg) ∷ contribute a msg rest waiting))
                    (same now)
                ∙ sym (append_assoc ready (x ∷ []) (contribute a msg rest waiting))))
        | inr later ↦
            subst Goal
              (sym (
                snapshot_stop a iters count row (length done) (ready ++ w ∷ waiting) (suc fuel)
                  (waits later)))
              (record {
                done = done;
                rest = t ∷ rest;
                ready = ready;
                waiting = w ∷ waiting;
                split = split;
                position = refl;
                rows = refl;
                length-ready = lr;
                length-waiting = lw;
                ascends = (ground (arith, up.0), up.1);
                bounded = below;
                aim = aim;
              })
      ]
    where
      at_k : get_or iters (length done) 0 ≡ t
      at_k = rw split (get_or-append done t rest (length done) 0 refl)

      inside : ltb (length done) (length iters) ≡ true
      inside = lt→ltb _ _ (rw split (omega (arith, length-append done (t ∷ rest))))

      waits :
          (t == count) ≡ false → due a iters count row (length done) (ready ++ w ∷ waiting) ≡ false
      waits e = rw (inside, at_k, e)

      x : Row
      x = xor_row w row

      same : (t == count) ≡ true → t ≡ count
      same e = (==_iff t count).0 e

      taken :
          (t == count) ≡ true
          → snapshot a iters (suc fuel) count row (length done) (ready ++ w ∷ waiting)
            ≡ snapshot a iters fuel count row
                (length (done ++ t ∷ []))
                ((ready ++ x ∷ []) ++ waiting)
      taken e =
          snapshot_go a iters count row (length done) (ready ++ w ∷ waiting) fuel
            (rw (inside, at_k, e))
          ∙ ap₂ (λ n o. snapshot a iters fuel count row n o)
              (omega (arith, length-append done (t ∷ [])))
              (ap (λ r. set (ready ++ w ∷ waiting) (length done) (xor_row r row))
                  (get_or-append ready w waiting (length done) [] (sym lr))
                ∙ set-append ready w waiting (length done) x (sym lr)
                ∙ sym (append_assoc ready (x ∷ []) waiting))

  pub snapshot-Progress :
      (k : ℕ) (out : List Row) (digest : Row)
      → digest ≡ digest_at a count msg
      → Progress a msg iters target count hi k out
      → Goal (snapshot a iters (length iters) count digest k out)
  snapshot-Progress k out digest e p =
      rw (e, p.position, p.rows)
        (take_due (length iters) p.done p.rest p.ready p.waiting
          (omega (arith, ap length p.split, length-append p.done p.rest)) p.split p.length-ready
          p.length-waiting p.ascends p.bounded p.aim)
