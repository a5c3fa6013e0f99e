-- ===== src/Bench/Pool/Verdict.antt =====
-- `pool_run` on the MD5 kernel: every slice agrees with its own reference.
use valubench.Prelude.{
  ℕ, zero, suc, ◌+◌, ◌-◌, ◌*◌, ◌/◌, ◌%◌, ◌≤◌, ltb, ◌==◌, ◌≡◌, refl, sym, ap, ap₂, ◌∙◌, Bool, true,
  false, not, ◌&&◌, if◌then◌else◌, none, some, List, [], ◌∷◌, map, foldl, u32, arith,
}
use mathlib.Core.Path.{subst}
use native.Mathlib.Nat.{div-add-mod}
use valubench.Bench.Validate.{same_row_refl}
use valubench.Bench.{KernelRow, Config, same_row}
use valubench.Bench.Pool.{
  Worker, Pool, PoolMachine, pool_threads, slice_worker, slice_workers, worker_reference,
  worker_references, pool_create, slice_reps, run_slice, all_ok, pool_run, all_created,
}
use valubench.Workload.Corpus.{Corpus}
use valubench.Workload.Reference.{reference_checksum}
use valubench.Workload.Reference.Rows.{zero_row, xor_row}

-- The kernel gives the slice's own reference.
abbrev pub Agrees : KernelRow → ℕ → ℕ → Worker → Type 0
Agrees k blocks iterations w = k.run w.corpus w.groups blocks iterations ≡ w.expected

abbrev pub AllAgree : KernelRow → ℕ → ℕ → List Worker → Type 0
AllAgree k blocks iterations [] = Unit {0}
AllAgree k blocks iterations (w ∷ ws) =
    Agrees k blocks iterations w × AllAgree k blocks iterations ws

module _ (p : Pool) (unsupplied : p.expected ≡ none) where
  -- One repeat.
  pub slice_reps-step :
      (n r : ℕ) (w : Worker)
      → w.ok ≡ true
      → (slice_reps p (suc n) r w).ok
        ≡ (slice_reps p n (r + 1) (record w {
          ok = same_row (p.k.run w.corpus w.groups p.blocks p.iterations) w.expected;
        })).ok
  unfolding slice_reps
  slice_reps-step n r w h =
      let cs = p.k.run w.corpus w.groups p.blocks p.iterations in
      ap₂
        (λ ok e.
          let turn : Worker = elim ok [
            | false ↦ w
            | true ↦ slice_reps p n (r + 1) (elim e [
              | some row ↦
                  if r == 0
                  then record w { checksum = cs }
                  else record w { ok = same_row cs w.checksum }
              | none ↦ record w { ok = same_row cs w.expected }
            ])
          ] in
          turn.ok)
        h unsupplied

  slice_reps-ok :
      (n r : ℕ) (w : Worker)
      → w.ok ≡ true
      → Agrees p.k p.blocks p.iterations w
      → (slice_reps p n r w).ok ≡ true
  unfolding slice_reps
  slice_reps-ok zero r w h agree = h
  slice_reps-ok (suc n) r w h agree =
      let cs = p.k.run w.corpus w.groups p.blocks p.iterations in
      slice_reps-step n r w h
      ∙ slice_reps-ok n (r + 1) (record w { ok = same_row cs w.expected })
          (ap (same_row cs) (sym agree) ∙ same_row_refl cs) agree

  all_ok-run_slice :
      (ws : List Worker)
      → AllAgree p.k p.blocks p.iterations ws
      → all_ok (map (run_slice p) ws) ≡ true
  unfolding run_slice
  all_ok-run_slice [] h = refl
  all_ok-run_slice (w ∷ ws) h =
      ap₂ (λ a b. a && b) (slice_reps-ok p.reps 0 (record w { ok = true }) refl h.0)
        (all_ok-run_slice ws h.1)

suc-times : (n base : ℕ) → suc n * base ≡ n * base + base
suc-times n base = grind arith

share-le :
    (off base n extra i total : ℕ)
    → off + suc n * base + (extra - i) ≡ total
    → off + (base + (if ltb i extra then 1 else 0)) ≤ total
share-le off base n extra i total e = ground (arith, suc-times n base, e)

share-next :
    (off base n extra i total : ℕ)
    → off + suc n * base + (extra - i) ≡ total
    → off + (base + (if ltb i extra then 1 else 0)) + n * base + (extra - (i + 1)) ≡ total
share-next off base n extra i total e = ground (arith, suc-times n base, e)

module _ (k : KernelRow) (cfg : Config) (c : Corpus) where
  -- The kernel on a slice gives the reference checksum of the slice's messages.
  abbrev pub SliceRight : ℕ → ℕ → Type 0
  SliceRight off groups =
      let w = slice_worker k cfg c off groups in
      k.run w.corpus w.groups c.blocks cfg.iterations
      ≡ reference_checksum true w.ref_alg w.ref_start w.ref_count w.ref_message_bytes
          w.ref_iterations

  module _ (base extra total : ℕ) (memory : ℕ → Bool) (allocated : (i : ℕ) → memory i ≡ true)
      (right : (off groups : ℕ) → off + groups ≤ total → SliceRight off groups) where
    references-AllAgree :
        (n i off : ℕ)
        → off + n * base + (extra - i) ≡ total
        → AllAgree k c.blocks cfg.iterations
            (worker_references none memory i (slice_workers k cfg c base extra n i off))
    unfolding slice_workers worker_references worker_reference
    references-AllAgree zero i off e = tt
    references-AllAgree (suc n) i off e =
        let groups = base + (if ltb i extra then 1 else 0) in
        let w = slice_worker k cfg c off groups in
        (
          right off groups (share-le off base n extra i total e)
              ∙ ap
                  (λ m.
                    reference_checksum m w.ref_alg w.ref_start w.ref_count w.ref_message_bytes
                      w.ref_iterations)
                  (sym (allocated i)),
          references-AllAgree n (i + 1) (off + groups) (share-next off base n extra i total e),
        )

all_created-true :
    (created : ℕ → Bool) → ((i : ℕ) → created i ≡ true) → (n i : ℕ) → all_created created n i ≡ true
unfolding all_created
all_created-true created h zero i = refl
all_created-true created h (suc n) i =
    ap₂ (λ a b. a && b) (h i) (all_created-true created h n (i + 1))

-- What `pool_create` returns where everything it asks for is granted.
module _ (machine : PoolMachine) (k : KernelRow) (cfg : Config) (c : Corpus) (threads : ℕ) where
  abbrev total : ℕ
  total = c.n_messages / u32 (k.lanes * k.streams)

  abbrev count : ℕ
  count = pool_threads threads total

  abbrev pub made : Pool
  made = record {
    w =
        worker_references cfg.expected machine.reference_memory 0
          (slice_workers k cfg c (total / count) (total % count) count 0 0);
    k = k;
    blocks = c.blocks;
    iterations = cfg.iterations;
    reps = 0;
    expected = cfg.expected;
  }

  pub pool_create-made :
      machine.calloc_ok ≡ true
      → ((i : ℕ) → machine.created i ≡ true)
      → pool_create machine k cfg c threads ≡ some made
  unfolding pool_create
  pool_create-made memory started =
      ap₂ (λ a b. if not a then none else (if not b then none else some made)) memory
        (all_created-true machine.created started _ 1)

  pub pool_run-right :
      (elapsed reps : ℕ)
      → cfg.expected ≡ none
      → ((i : ℕ) → machine.reference_memory i ≡ true)
      → ((off groups : ℕ) → off + groups ≤ total → SliceRight k cfg c off groups)
      → ((pool_run elapsed reps made).ok ≡ true) × ((pool_run elapsed reps made).elapsed ≡ elapsed)
  unfolding pool_run
  pool_run-right elapsed reps unsupplied allocated right =
      let p : Pool = record made { reps = reps } in
      let agree =
        subst
          (λ e. AllAgree k c.blocks cfg.iterations (
            worker_references e machine.reference_memory 0
              (slice_workers k cfg c (total / count) (total % count) count 0 0)))
          (sym unsupplied)
          (references-AllAgree k cfg c (total / count) (total % count) total
            machine.reference_memory allocated right count 0 0
            (omega (arith, div-add-mod total count))) in
      let verified : (pool_run elapsed reps made).ok ≡ true =
        ap₂
          (λ a e.
            let supplied : Bool = elim e [
              | none ↦ true
              | some row ↦
                  if ltb 0 reps
                  then same_row
                      (foldl (λ agg w. xor_row agg w.checksum) zero_row (map (run_slice p) p.w)) row
                  else true
            ] in
            a && supplied)
          (all_ok-run_slice p unsupplied p.w agree) unsupplied in
      (verified, ap (λ b. if b then elapsed else 0) verified)
