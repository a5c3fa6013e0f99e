-- ===== src/Workload/Reference/Ladder.antt =====
-- `vb_reference_checksums` gives each rung its checksum, and so does the call with one rung.
use mathlib.Core.Path.{subst}
use valubench.Prelude.{ℕ, zero, suc, ◌+◌, ◌-◌, ◌≤◌, ◌<◌, ◌≡◌, refl, sym, ap, ◌∙◌, arith}
use valubench.Prelude.{true, lt→ltb, u32, for_range, for_range_inv}
use valubench.Prelude.{List, [], ◌∷◌, ◌++◌, length, get_or, map, replicate, write_at}
use valubench.Prelude.{length-map, eq-nil_of_length}
use valubench.Algorithm.{Algorithm}
use valubench.Workload.Message.{build_message}
use valubench.Workload.Reference.{digest_row, Walk, walk_step, max_iters, walk_message}
use valubench.Workload.Reference.{reference_checksums, reference_checksum}
use valubench.Workload.Reference.Rows.{Row, zero_row}
use valubench.Workload.Reference.Spec.{chain, contribute, checksum, Ascending, AllAtMost}
use valubench.Workload.Reference.Snapshot.{Progress, snapshot-Progress}

module _ (a : Algorithm) (msg iters : List ℕ) (target : List Row) (maxit : ℕ) where
  -- The invariant of the loop over iterations.
  record At (it : ℕ) (s : Walk) : Type 0 where
    progress : Progress a msg iters target (it + 1) maxit s.k s.out
    chained : it < maxit → s.msg ≡ chain a it msg

  iteration :
      (it : ℕ) (s : Walk) → it < maxit → At it s → At (it + 1) (walk_step a iters maxit it s)
  unfolding walk_step
  iteration it s h p = record {
    progress =
        snapshot-Progress a msg iters target (it + 1) maxit s.k s.out (digest_row a (a.hash s.msg))
          (ap (λ m. digest_row a (a.hash m)) (p.chained h ∙ back)) p.progress;
    chained = λ more. rw (lt→ltb (it + 1) maxit more) (fed (p.chained h));
  }
    where
      back : chain a it msg ≡ chain a (it + 1 - 1) msg
      back = let e : it ≡ it + 1 - 1 = omega arith in ap (λ t. chain a t msg) e

      fed : s.msg ≡ chain a it msg → write_at 0 (a.hash s.msg) s.msg ≡ chain a (it + 1) msg
      fed e =
          let next : suc it ≡ it + 1 = omega arith in
          ap (λ m. write_at 0 (a.hash m) m) e ∙ ap (λ t. chain a t msg) next

  all_iterations :
      (n it : ℕ) (s : Walk)
      → it + n ≡ maxit
      → At it s
      → At maxit (for_range n it (walk_step a iters maxit) s)
  all_iterations zero it s e p = subst (λ t. At t s) (omega arith) p
  all_iterations (suc n) it s e p =
      all_iterations n (it + 1) (walk_step a iters maxit it s) (omega arith)
        (iteration it s (omega arith) p)

  -- Past the last count no rung is left.
  none_left : (rest : List ℕ) → Ascending (maxit + 1) rest → AllAtMost maxit rest → rest ≡ []
  none_left [] up below = refl
  none_left (t ∷ rest) up below = absurd (omega (arith, up.0, below.0))

  finished : (s : Walk) → At maxit s → s.out ≡ target
  finished s p =
      let q = p.progress in
      let no_rest = none_left q.rest q.ascends q.bounded in
      let no_rows : q.waiting ≡ [] =
        eq-nil_of_length q.waiting (q.length-waiting ∙ ap length no_rest) in
      q.rows
      ∙ ap (λ t. q.ready ++ t) (no_rows ∙ ap (λ ts. contribute a msg ts q.waiting) (sym no_rest))
      ∙ sym q.aim

from_head :
    (t : ℕ) (ts : List ℕ) → Ascending t ts → AllAtMost (get_or (t ∷ ts) (length ts) 0) (t ∷ ts)
from_head t [] up = (omega arith, tt)
from_head t (u ∷ us) up = let above = from_head u us up.1 in (omega (arith, above.0, up.0), above)

-- The last rung is the largest.
last-AllAtMost :
    (lo : ℕ) (iters : List ℕ)
    → Ascending lo iters
    → AllAtMost (get_or iters (length iters - 1) 0) iters
last-AllAtMost lo [] up = tt
last-AllAtMost lo (t ∷ ts) up =
    let e : length ts ≡ suc (length ts) - 1 = omega arith in
    subst (λ i. AllAtMost (get_or (t ∷ ts) i 0) (t ∷ ts)) e (from_head t ts up.1)

-- Walking a message adds to every rung the digest at its count.
pub walk_message-contribute :
    (a : Algorithm) (msg iters : List ℕ) (out : List Row)
    → Ascending 1 iters
    → length out ≡ length iters
    → walk_message a iters msg out ≡ contribute a msg iters out
unfolding walk_message max_iters
walk_message-contribute a msg iters out up same =
    finished a msg iters target maxit (for_range maxit 0 (walk_step a iters maxit) start) (
      all_iterations a msg iters target maxit maxit 0 start (omega arith) (record {
        progress = record {
          done = [];
          rest = iters;
          ready = [];
          waiting = out;
          split = refl;
          position = refl;
          rows = refl;
          length-ready = refl;
          length-waiting = same;
          ascends = up;
          bounded = last-AllAtMost 1 iters up;
          aim = refl;
        };
        chained = λ h. refl;
      }))
  where
    target : List Row
    target = contribute a msg iters out

    maxit : ℕ
    maxit = get_or iters (length iters - 1) 0

    start : Walk
    start = record { msg = msg; k = 0; out = out }

-- The rows of a ladder, each by itself.
abbrev pub ladder : Algorithm → ℕ → ℕ → ℕ → List ℕ → List Row
ladder a start count message_bytes iters = map (checksum a start count message_bytes) iters

contribute-ladder :
    (a : Algorithm) (start count message_bytes : ℕ) (iters : List ℕ)
    → contribute a
        (build_message (u32 (start + u32 count)) message_bytes)
        iters
        (ladder a start count message_bytes iters)
      ≡ ladder a start (suc count) message_bytes iters
unfolding checksum
contribute-ladder a start count message_bytes [] = refl
contribute-ladder a start count message_bytes (t ∷ ts) =
    ap (λ r. checksum a start (suc count) message_bytes t ∷ r)
      (contribute-ladder a start count message_bytes ts)

pub ladder-zero :
    (a : Algorithm) (start message_bytes : ℕ) (iters : List ℕ)
    → ladder a start 0 message_bytes iters ≡ replicate (length iters) zero_row
unfolding checksum
ladder-zero a start message_bytes [] = refl
ladder-zero a start message_bytes (t ∷ ts) =
    ap (λ r. zero_row ∷ r) (ladder-zero a start message_bytes ts)

module _ (a : Algorithm) (start message_bytes : ℕ) (iters : List ℕ) (up : Ascending 1 iters) where
  abbrev message : ℕ → List Row → List Row
  message n out = walk_message a iters (build_message (u32 (start + u32 n)) message_bytes) out

  range-ladder :
      (n i j : ℕ) (out : List Row)
      → i + n ≡ j
      → out ≡ ladder a start i message_bytes iters
      → for_range n i message out ≡ ladder a start j message_bytes iters
  range-ladder n i j out e h =
      for_range_inv (λ k rows. rows ≡ ladder a start k message_bytes iters) message
        (λ k rows q.
          walk_message-contribute a (build_message (u32 (start + u32 k)) message_bytes) iters rows
            up (ap length q ∙ length-map (checksum a start k message_bytes) iters)
          ∙ ap (contribute a (build_message (u32 (start + u32 k)) message_bytes) iters) q
          ∙ contribute-ladder a start k message_bytes iters
          ∙ ap (λ c. ladder a start c message_bytes iters) (suc_add k))
        n i j out e h
    where
      suc_add : (k : ℕ) → suc k ≡ k + 1
      suc_add k = omega arith

pub reference_checksums-ladder :
    (a : Algorithm) (start count message_bytes : ℕ) (iters : List ℕ)
    → Ascending 1 iters
    → reference_checksums true a start count message_bytes iters
      ≡ ladder a start count message_bytes iters
unfolding reference_checksums
reference_checksums-ladder a start count message_bytes [] up = refl
reference_checksums-ladder a start count message_bytes (t ∷ ts) up =
    rw (lt→ltb 0 (length (t ∷ ts)) (omega arith)) (
      range-ladder a start message_bytes (t ∷ ts) up count 0 count
        (replicate (length (t ∷ ts)) zero_row) (omega arith)
        (sym (ladder-zero a start message_bytes (t ∷ ts))))

pub reference_checksum-checksum :
    (a : Algorithm) (start count message_bytes iterations : ℕ)
    → 1 ≤ iterations
    → reference_checksum true a start count message_bytes iterations
      ≡ checksum a start count message_bytes iterations
unfolding reference_checksum
reference_checksum-checksum a start count message_bytes iterations h =
    ap (λ rows. get_or rows 0 zero_row)
      (reference_checksums-ladder a start count message_bytes (iterations ∷ []) (h, tt))
