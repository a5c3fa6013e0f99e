-- ===== src/Kernel/Sha512/Steps.antt =====
-- One line of a block on one lane: an expansion moves the window on, and a step is the step of
-- src/reference/sha512.c.
use valubench.Prelude.{ℕ, ◌+◌, ◌-◌, ◌%◌, ◌≤◌, ◌<◌, ◌≡◌, sym, ap, ap₂, ◌∙◌, arith, u64, bit_xor}
use valubench.Prelude.{List, get_or, get_or-map}
use mathlib.Core.Path.{subst}
use valubench.Hash.Bytes.{rotr64}
use valubench.Hash.Sha512.{
  sha512_k, ch, maj, bsig0, bsig1, ssig0, ssig1, Regs, sha512_step, schedule,
}
use valubench.Kernel.Isa.{Simd}
use valubench.Kernel.Sha.{Local}
use valubench.Kernel.Sha.Windows.{lanes_at, Window, set-Window}
use valubench.Prelude.{set, map-set}
use valubench.Kernel.Sha512.{
  IsSimd64, Sha512Ops, IsSha512Ops, Act, Eight, xor3, vec_bsig0, vec_bsig1, vec_ssig0, vec_ssig1,
  wget, step1, expand_word, sha512_act,
}
use valubench.Kernel.Sha512.Schedule.{next, word_at, schedule-next}

abbrev pub regs_of : (v : Simd) → ℕ → Eight v.Vec → Regs
regs_of v l q = record {
  a = v.store q.a l;
  b = v.store q.b l;
  c = v.store q.c l;
  d = v.store q.d l;
  e = v.store q.e l;
  f = v.store q.f l;
  g = v.store q.g l;
  h = v.store q.h l;
}

module _ (v : Simd) (o : Sha512Ops v) (simd : IsSimd64 v) (ok : IsSha512Ops v o) (l : ℕ)
    (inside : l < v.lanes) where
  abbrev lanes : List v.Vec → List ℕ
  lanes w = lanes_at v l w

  abbrev regs : Eight v.Vec → Regs
  regs q = regs_of v l q

  pub store-wget : (w : List v.Vec) (i : ℕ) → v.store (wget v o w i) l ≡ get_or (lanes w) i 0
  store-wget w i =
      sym (get_or-map (λ x. v.store x l) w i (v.set1 0))
      ∙ ap (get_or (lanes w) i) (simd.on_set1 0 l inside)

  store-xor3 :
      (x y z : v.Vec)
      → v.store (xor3 v o x y z) l ≡ bit_xor (bit_xor (v.store x l) (v.store y l)) (v.store z l)
  store-xor3 x y z =
      simd.on_xor (v.xor x y) z l inside
      ∙ ap (λ t. bit_xor t (v.store z l)) (simd.on_xor x y l inside)

  rotated : (x : v.Vec) (n : ℕ) → 0 < n → n < 64 → v.store (o.rotr x n) l ≡ rotr64 (v.store x l) n
  rotated x n pos small = ok.on_rotr x n l inside pos small

  store-bsig0 : (x : v.Vec) → v.store (vec_bsig0 v o x) l ≡ bsig0 (v.store x l)
  unfolding vec_bsig0 bsig0
  store-bsig0 x =
      store-xor3 (o.rotr x 28) (o.rotr x 34) (o.rotr x 39)
      ∙ ap₂ bit_xor
          (ap₂ bit_xor (rotated x 28 (omega arith) (omega arith))
            (rotated x 34 (omega arith) (omega arith)))
          (rotated x 39 (omega arith) (omega arith))

  store-bsig1 : (x : v.Vec) → v.store (vec_bsig1 v o x) l ≡ bsig1 (v.store x l)
  unfolding vec_bsig1 bsig1
  store-bsig1 x =
      store-xor3 (o.rotr x 14) (o.rotr x 18) (o.rotr x 41)
      ∙ ap₂ bit_xor
          (ap₂ bit_xor (rotated x 14 (omega arith) (omega arith))
            (rotated x 18 (omega arith) (omega arith)))
          (rotated x 41 (omega arith) (omega arith))

  store-ssig0 : (x : v.Vec) → v.store (vec_ssig0 v o x) l ≡ ssig0 (v.store x l)
  unfolding vec_ssig0 ssig0
  store-ssig0 x =
      store-xor3 (o.rotr x 1) (o.rotr x 8) (o.shr x 7)
      ∙ ap₂ bit_xor
          (ap₂ bit_xor (rotated x 1 (omega arith) (omega arith))
            (rotated x 8 (omega arith) (omega arith)))
          (ok.on_shr x 7 l inside (omega arith))

  store-ssig1 : (x : v.Vec) → v.store (vec_ssig1 v o x) l ≡ ssig1 (v.store x l)
  unfolding vec_ssig1 ssig1
  store-ssig1 x =
      store-xor3 (o.rotr x 19) (o.rotr x 61) (o.shr x 6)
      ∙ ap₂ bit_xor
          (ap₂ bit_xor (rotated x 19 (omega arith) (omega arith))
            (rotated x 61 (omega arith) (omega arith)))
          (ok.on_shr x 6 l inside (omega arith))

  step1-sha512_step :
      (w : List ℕ) (i : ℕ) (word : v.Vec) (q : Eight v.Vec)
      → v.store word l ≡ get_or w i 0
      → regs (step1 v o i word q) ≡ sha512_step w i (regs q)
  unfolding step1 sha512_step
  step1-sha512_step w i word q known =
      ap₂
        (λ a e. record {
          a = a;
          b = v.store q.a l;
          c = v.store q.b l;
          d = v.store q.c l;
          e = e;
          f = v.store q.e l;
          g = v.store q.f l;
          h = v.store q.g l;
        })
        (simd.on_add t4 t5 l inside ∙ ap₂ (λ x y. u64 (x + y)) first second)
        (simd.on_add q.d t4 l inside ∙ ap (λ x. u64 (v.store q.d l + x)) first)
    where
      t1 : v.Vec
      t1 = v.add q.h (vec_bsig1 v o q.e)

      t2 : v.Vec
      t2 = v.add t1 (o.ch q.e q.f q.g)

      k : v.Vec
      k = v.set1 (get_or sha512_k i 0)

      t3 : v.Vec
      t3 = v.add t2 k

      t4 : v.Vec
      t4 = v.add t3 word

      t5 : v.Vec
      t5 = v.add (vec_bsig0 v o q.a) (o.maj q.a q.b q.c)

      first :
          v.store t4 l
          ≡ u64 (
              v.store q.h l
              + bsig1 (v.store q.e l)
              + ch (v.store q.e l) (v.store q.f l) (v.store q.g l)
              + get_or sha512_k i 0
              + get_or w i 0)
      first = omega (
        arith,
        simd.on_add t3 word l inside,
        simd.on_add t2 k l inside,
        simd.on_set1 (get_or sha512_k i 0) l inside,
        simd.on_add t1 (o.ch q.e q.f q.g) l inside,
        ok.on_ch q.e q.f q.g l inside,
        simd.on_add q.h (vec_bsig1 v o q.e) l inside,
        store-bsig1 q.e,
        known,
      )

      second :
          v.store t5 l
          ≡ u64 (bsig0 (v.store q.a l) + maj (v.store q.a l) (v.store q.b l) (v.store q.c l))
      second =
          simd.on_add (vec_bsig0 v o q.a) (o.maj q.a q.b q.c) l inside
          ∙ ap₂ (λ x y. u64 (x + y)) (store-bsig0 q.a) (ok.on_maj q.a q.b q.c l inside)

  module _ (block : List ℕ) where
    -- A word that the window still has.
    pub Window-word :
        (i j : ℕ) (w : List v.Vec)
        → Window (word_at block) i (lanes w)
        → j < i
        → i ≤ j + 16
        → v.store (wget v o w (j % 16)) l ≡ word_at block j
    Window-word i j w h lt near = store-wget w (j % 16) ∙ h.at j lt near

    expand_word-word_at :
        (i : ℕ) (w : List v.Vec)
        → 16 ≤ i
        → i < 80
        → Window (word_at block) i (lanes w)
        → v.store (expand_word v o i w) l ≡ word_at block i
    unfolding expand_word next
    expand_word-word_at i w long lt h =
        omega (
          arith,
          simd.on_add x2 (wget v o w ((i - 16) % 16)) l inside,
          simd.on_add x1 (vec_ssig0 v o (wget v o w ((i - 15) % 16))) l inside,
          simd.on_add (vec_ssig1 v o (wget v o w ((i - 2) % 16))) (wget v o w ((i - 7) % 16)) l
              inside,
          store-ssig1 (wget v o w ((i - 2) % 16))
              ∙ ap ssig1 (Window-word i (i - 2) w h (omega arith) (omega arith)),
          store-ssig0 (wget v o w ((i - 15) % 16))
              ∙ ap ssig0 (Window-word i (i - 15) w h (omega arith) (omega arith)),
          Window-word i (i - 7) w h (omega arith) (omega arith),
          Window-word i (i - 16) w h (omega arith) (omega arith),
        )
        ∙ sym (schedule-next block i long lt)
      where
        x1 : v.Vec
        x1 = v.add (vec_ssig1 v o (wget v o w ((i - 2) % 16))) (wget v o w ((i - 7) % 16))

        x2 : v.Vec
        x2 = v.add x1 (vec_ssig0 v o (wget v o w ((i - 15) % 16)))

    pub expanded-Window :
        (i : ℕ) (w : List v.Vec)
        → 16 ≤ i
        → i < 80
        → Window (word_at block) i (lanes w)
        → Window (word_at block) (i + 1) (lanes (set w (i % 16) (expand_word v o i w)))
    expanded-Window i w long lt h =
        subst (Window (word_at block) (i + 1))
          (ap (λ x. set (lanes w) (i % 16) x) (sym (expand_word-word_at i w long lt h))
            ∙ sym (map-set (λ x. v.store x l) w (i % 16) (expand_word v o i w)))
          (set-Window (word_at block) i (lanes w) h)

    -- A step on a window that has its word.
    pub step-sha512_step :
        (i : ℕ) (x : Local v.Vec (Eight v.Vec))
        → v.store (wget v o x.w (i % 16)) l ≡ word_at block i
        → regs (sha512_act v o (Act.step i) x).r ≡ sha512_step (schedule block) i (regs x.r)
    unfolding sha512_act
    step-sha512_step i x e = step1-sha512_step (schedule block) i (wget v o x.w (i % 16)) x.r e
