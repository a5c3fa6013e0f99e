-- ===== src/Kernel/Sha1/Steps.antt =====
-- One line of a block on one lane: an expansion moves the window on, and a step is the step of
-- src/reference/sha1.c.
use valubench.Prelude.{
  ℕ, zero, suc, ◌+◌, ◌-◌, ◌/◌, ◌%◌, ◌≤◌, ◌<◌, ◌≡◌, sym, ap, ap₂, ◌∙◌, arith, u32, bit_xor,
}
use valubench.Prelude.{List, get_or, get_or-map, ◌==◌, if◌then◌else◌}
use mathlib.Core.Path.{subst}
use valubench.Hash.Bytes.{rotl32}
use valubench.Hash.Sha1.{sha1_k, round_fn, Regs, sha1_step, schedule}
use valubench.Kernel.Isa.{Simd, IsSimd}
use valubench.Kernel.Sha.{Local}
use valubench.Kernel.Sha.Windows.{lanes_at, Window, set-Window}
use valubench.Prelude.{set, map-set}
use valubench.Kernel.Sha1.{
  Sha1Ops, IsSha1Ops, Fn, Act, Five, apply_fn, wget, step1, expand_word, sha1_act,
}
use valubench.Kernel.Sha1.Schedule.{next, word_at, schedule-next}

abbrev pub fn_of : ℕ → Fn
fn_of g = if g == 0 then Fn.ch else if g == 2 then Fn.maj else Fn.par

abbrev pub step_of : ℕ → Act
step_of i = Act.step (fn_of (i / 20)) (get_or sha1_k (i / 20) 0) i

abbrev pub regs_of : (v : Simd) → ℕ → Five v.Vec → Regs
regs_of v l q = record {
  a = v.store q.a l;
  b = v.store q.b l;
  c = v.store q.c l;
  d = v.store q.d l;
  e = v.store q.e l;
}

module _ (v : Simd) (o : Sha1Ops v) (simd : IsSimd v) (ok : IsSha1Ops v o) (l : ℕ)
    (inside : l < v.lanes) where
  abbrev lanes : List v.Vec → List ℕ
  lanes w = lanes_at v l w

  abbrev regs : Five v.Vec → Regs
  regs q = regs_of v l q

  pub store-wget : (w : List v.Vec) (i : ℕ) → v.store (wget v o w i) l ≡ get_or (lanes w) i 0
  store-wget w i =
      sym (get_or-map (λ x. v.store x l) w i (v.set1 0))
      ∙ ap (get_or (lanes w) i) (simd.on_set1 0 l inside)

  apply_fn-round_fn :
      (g : ℕ) (x y z : v.Vec)
      → g < 4
      → v.store (apply_fn v o (fn_of g) x y z) l
        ≡ round_fn g (v.store x l) (v.store y l) (v.store z l)
  unfolding round_fn
  apply_fn-round_fn zero x y z h = ok.on_ch x y z l inside
  apply_fn-round_fn (suc zero) x y z h =
      simd.on_xor (v.xor x y) z l inside
      ∙ ap (λ t. bit_xor t (v.store z l)) (simd.on_xor x y l inside)
  apply_fn-round_fn (suc (suc zero)) x y z h = ok.on_maj x y z l inside
  apply_fn-round_fn (suc (suc (suc zero))) x y z h =
      simd.on_xor (v.xor x y) z l inside
      ∙ ap (λ t. bit_xor t (v.store z l)) (simd.on_xor x y l inside)
  apply_fn-round_fn (suc (suc (suc (suc g)))) x y z h = absurd (omega arith)

  step1-sha1_step :
      (w : List ℕ) (i : ℕ) (word : v.Vec) (q : Five v.Vec)
      → i < 80
      → v.store word l ≡ get_or w i 0
      → regs (step1 v o (fn_of (i / 20)) (get_or sha1_k (i / 20) 0) word q) ≡ sha1_step w i (regs q)
  unfolding step1 sha1_step
  step1-sha1_step w i word q lt e =
      ap₂ (λ t c. record { a = t; b = v.store q.a l; c = c; d = v.store q.c l; e = v.store q.d l })
        sum (ok.on_rotl q.b 30 l inside (omega arith) (omega arith))
    where
      f : v.Vec
      f = apply_fn v o (fn_of (i / 20)) q.b q.c q.d

      t1 : v.Vec
      t1 = v.add (o.rotl q.a 5) f

      t2 : v.Vec
      t2 = v.add t1 q.e

      k : v.Vec
      k = v.set1 (get_or sha1_k (i / 20) 0)

      t3 : v.Vec
      t3 = v.add t2 k

      sum :
          v.store (v.add t3 word) l
          ≡ u32 (
              rotl32 (v.store q.a l) 5
              + round_fn (i / 20) (v.store q.b l) (v.store q.c l) (v.store q.d l)
              + v.store q.e l
              + get_or sha1_k (i / 20) 0
              + get_or w i 0)
      sum = omega (
        arith,
        simd.on_add t3 word l inside,
        simd.on_add t2 k l inside,
        simd.on_set1 (get_or sha1_k (i / 20) 0) l inside,
        simd.on_add t1 q.e l inside,
        simd.on_add (o.rotl q.a 5) f l inside,
        ok.on_rotl q.a 5 l inside (omega arith) (omega arith),
        apply_fn-round_fn (i / 20) q.b q.c q.d (omega arith),
        e,
      )

  module _ (block : List ℕ) where
    -- A word that the window still has.
    pub Window-word :
        (i j : ℕ) (w : List v.Vec)
        → Window (word_at block) i (lanes w)
        → j < i
        → i ≤ j + 16
        → v.store (wget v o w (j % 16)) l ≡ word_at block j
    Window-word i j w h lt near = store-wget w (j % 16) ∙ h.at j lt near

    expand_word-word_at :
        (i : ℕ) (w : List v.Vec)
        → 16 ≤ i
        → i < 80
        → Window (word_at block) i (lanes w)
        → v.store (expand_word v o i w) l ≡ word_at block i
    unfolding expand_word next
    expand_word-word_at i w long lt h =
        let a = wget v o w ((i - 3) % 16) in
        let b = wget v o w ((i - 8) % 16) in
        let c = wget v o w ((i - 14) % 16) in
        let d = wget v o w ((i - 16) % 16) in
        ok.on_rotl (v.xor (v.xor (v.xor a b) c) d) 1 l inside (omega arith) (omega arith)
        ∙ ap (λ t. rotl32 t 1)
            (simd.on_xor (v.xor (v.xor a b) c) d l inside
              ∙ ap₂ bit_xor
                  (simd.on_xor (v.xor a b) c l inside
                    ∙ ap₂ bit_xor
                        (simd.on_xor a b l inside
                          ∙ ap₂ bit_xor (Window-word i (i - 3) w h (omega arith) (omega arith))
                              (Window-word i (i - 8) w h (omega arith) (omega arith)))
                        (Window-word i (i - 14) w h (omega arith) (omega arith)))
                  (Window-word i (i - 16) w h (omega arith) (omega arith)))
        ∙ sym (schedule-next block i long lt)

    pub expanded-Window :
        (i : ℕ) (w : List v.Vec)
        → 16 ≤ i
        → i < 80
        → Window (word_at block) i (lanes w)
        → Window (word_at block) (i + 1) (lanes (set w (i % 16) (expand_word v o i w)))
    expanded-Window i w long lt h =
        subst (Window (word_at block) (i + 1))
          (ap (λ x. set (lanes w) (i % 16) x) (sym (expand_word-word_at i w long lt h))
            ∙ sym (map-set (λ x. v.store x l) w (i % 16) (expand_word v o i w)))
          (set-Window (word_at block) i (lanes w) h)

    -- A step on a window that has its word.
    pub step-sha1_step :
        (i : ℕ) (x : Local v.Vec (Five v.Vec))
        → i < 80
        → v.store (wget v o x.w (i % 16)) l ≡ word_at block i
        → regs (sha1_act v o (step_of i) x).r ≡ sha1_step (schedule block) i (regs x.r)
    unfolding sha1_act
    step-sha1_step i x lt e = step1-sha1_step (schedule block) i (wget v o x.w (i % 16)) x.r lt e
