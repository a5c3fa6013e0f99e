-- ===== src/Kernel/Md5/Steps.antt =====
-- The 64 steps of the kernel, whose registers stand still while their parts rotate, are the 64 steps
-- of src/reference/md5.c, whose registers move.
use valubench.Prelude.{
  ℕ, zero, suc, ◌+◌, ◌*◌, ◌/◌, ◌%◌, ◌<◌, ◌≡◌, refl, sym, ap, ap₂, ◌∙◌, arith, if◌then◌else◌, ◌==◌,
  u32,
}
use valubench.Prelude.{ltb, ◌&&◌, true, List, [], ◌∷◌, get_or, length, foldl, for_range}
use valubench.Hash.Bytes.{rotl32}
use valubench.Hash.Md5.{
  md5_f, md5_g, md5_h, md5_i, md5_t, md5_s, Regs, round_fn, word_index, md5_step,
}
use valubench.Kernel.Ops.{Ops, IsOps}
use valubench.Kernel.Md5.{Quad, Stream, apply_fn, mix, step1, step_stream, word}
use valubench.Kernel.Md5.Table.{Fn, Turn, Step, step_of, steps}

-- The round function of a kernel step, on words.
abbrev on_words : Fn → ℕ → ℕ → ℕ → ℕ
on_words Fn.f x y z = md5_f x y z
on_words Fn.g x y z = md5_g x y z
on_words Fn.h x y z = md5_h x y z
on_words Fn.i x y z = md5_i x y z

abbrev fn_of : ℕ → Fn
fn_of round =
    if round == 0 then Fn.f else if round == 1 then Fn.g else if round == 2 then Fn.h else Fn.i

abbrev turn_of : ℕ → Turn
turn_of j =
    if j == 0
    then Turn.abcd
    else if j == 1
    then Turn.dabc
    else if j == 2
    then Turn.cdab
    else Turn.bcda

abbrev next : Turn → Turn
next Turn.abcd = Turn.dabc
next Turn.dabc = Turn.cdab
next Turn.cdab = Turn.bcda
next Turn.bcda = Turn.abcd

abbrev shift_of : ℕ → ℕ
shift_of i = get_or (get_or md5_s (i / 16) []) (i % 4) 0

-- What step `i` of the reference asks of the kernel.
unfoldable expected : ℕ → Step
unfolding word_index
expected i = step_of (fn_of (i / 16)) (turn_of (i % 4)) (word_index (i / 16) i) i (shift_of i)

unfoldable expected_from : ℕ → ℕ → List Step
unfolding expected
expected_from zero i = []
expected_from (suc n) i = expected i ∷ expected_from n (i + 1)

-- The kernel's table is the reference's indexing, written out.
steps-expected : steps ≡ expected_from 64 0
unfolding expected_from
steps-expected = refl

fn_of-round_fn : (round x y z : ℕ) → on_words (fn_of round) x y z ≡ round_fn round x y z
unfolding round_fn
fn_of-round_fn round x y z = ground arith

turn_of-next : (i : ℕ) → turn_of ((i + 1) % 4) ≡ next (turn_of (i % 4))
turn_of-next i = ground arith

abbrev AllShifts : List ℕ → Type 0
AllShifts [] = Unit {0}
AllShifts (s ∷ row) = (ltb 0 s && ltb s 32 ≡ true) × AllShifts row

shift-in :
    (row : List ℕ) (j : ℕ)
    → AllShifts row
    → j < length row
    → (0 < get_or row j 0) × (get_or row j 0 < 32)
shift-in [] j all h = absurd (omega arith)
shift-in (s ∷ row) zero all h = (ground (arith, all.0), ground (arith, all.0))
shift-in (s ∷ row) (suc j) all h = shift-in row j all.1 (omega arith)

row-AllShifts :
    (round : ℕ)
    → round < 4
    → AllShifts (get_or md5_s round []) × (length (get_or md5_s round []) ≡ 4)
row-AllShifts zero h = ((refl, (refl, (refl, (refl, tt)))), refl)
row-AllShifts (suc zero) h = ((refl, (refl, (refl, (refl, tt)))), refl)
row-AllShifts (suc (suc zero)) h = ((refl, (refl, (refl, (refl, tt)))), refl)
row-AllShifts (suc (suc (suc zero))) h = ((refl, (refl, (refl, (refl, tt)))), refl)
row-AllShifts (suc (suc (suc (suc round)))) h = absurd (omega arith)

shift-range : (i : ℕ) → i < 64 → (0 < shift_of i) × (shift_of i < 32)
shift-range i h =
    let row = row-AllShifts (i / 16) (omega arith) in
    shift-in (get_or md5_s (i / 16) []) (i % 4) row.0 (omega (arith, row.1))

module _ (o : Ops) (ok : IsOps o) (corpus : ℕ → ℕ) (l : ℕ) (inside : l < o.lanes) where
  -- Lane `l` of the registers, each in the place that the step `t` gives it.
  abbrev pub aligned : Turn → Quad o.Vec → Regs
  aligned Turn.abcd q = record {
    a = o.store q.a l;
    b = o.store q.b l;
    c = o.store q.c l;
    d = o.store q.d l;
  }
  aligned Turn.dabc q = record {
    a = o.store q.d l;
    b = o.store q.a l;
    c = o.store q.b l;
    d = o.store q.c l;
  }
  aligned Turn.cdab q = record {
    a = o.store q.c l;
    b = o.store q.d l;
    c = o.store q.a l;
    d = o.store q.b l;
  }
  aligned Turn.bcda q = record {
    a = o.store q.b l;
    b = o.store q.c l;
    c = o.store q.d l;
    d = o.store q.a l;
  }

  apply_fn-on_words :
      (fn : Fn) (x y z : o.Vec)
      → o.store (apply_fn o fn x y z) l ≡ on_words fn (o.store x l) (o.store y l) (o.store z l)
  apply_fn-on_words Fn.f x y z = ok.on_f x y z l inside
  apply_fn-on_words Fn.g x y z = ok.on_g x y z l inside
  apply_fn-on_words Fn.h x y z = ok.on_h x y z l inside
  apply_fn-on_words Fn.i x y z = ok.on_i x y z l inside

  -- What the reference computes into its register `b`.
  abbrev mixed : Fn → ℕ → ℕ → ℕ → Regs → ℕ
  mixed fn w ti sh r =
      u32 (r.b + rotl32 (u32 (r.a + on_words fn r.b r.c r.d + w + get_or md5_t ti 0)) sh)

  mix-mixed :
      (fn : Fn) (w : o.Vec) (ti sh : ℕ) (a b c d : o.Vec)
      → 0 < sh
      → sh < 32
      → o.store (mix o fn w ti sh a b c d) l
        ≡ mixed fn
            (o.store w l)
            ti
            sh
            (record { a = o.store a l; b = o.store b l; c = o.store c l; d = o.store d l })
  unfolding mix
  mix-mixed fn w ti sh a b c d pos small =
      ok.on_add a4 b l inside
      ∙ ap (λ t. u32 (t + o.store b l))
          (ok.on_rotl a3 sh l inside pos small ∙ ap (λ t. rotl32 t sh) sum)
      ∙ ap u32 (omega arith)
    where
      a1 : o.Vec
      a1 = o.add a (apply_fn o fn b c d)

      a2 : o.Vec
      a2 = o.add a1 w

      a3 : o.Vec
      a3 = o.add a2 (o.set1 (get_or md5_t ti 0))

      a4 : o.Vec
      a4 = o.rotl a3 sh

      sum :
          o.store a3 l
          ≡ u32 (
              o.store a l
              + on_words fn (o.store b l) (o.store c l) (o.store d l)
              + o.store w l
              + get_or md5_t ti 0)
      sum = omega (
        arith,
        ok.on_add a2 (o.set1 (get_or md5_t ti 0)) l inside,
        ok.on_set1 (get_or md5_t ti 0) l inside,
        ok.on_add a1 w l inside,
        ok.on_add a (apply_fn o fn b c d) l inside,
        apply_fn-on_words fn b c d,
      )

  abbrev moved : Fn → ℕ → ℕ → ℕ → Regs → Regs
  moved fn w ti sh r = record { a = r.d; b = mixed fn w ti sh r; c = r.b; d = r.c }

  step1-moved :
      (t : Turn) (fn : Fn) (w : o.Vec) (ti sh : ℕ) (q : Quad o.Vec)
      → 0 < sh
      → sh < 32
      → aligned (next t) (step1 o t fn w ti sh q) ≡ moved fn (o.store w l) ti sh (aligned t q)
  unfolding step1
  step1-moved Turn.abcd fn w ti sh q p s =
      ap (λ b. record { a = o.store q.d l; b = b; c = o.store q.b l; d = o.store q.c l })
        (mix-mixed fn w ti sh q.a q.b q.c q.d p s)
  step1-moved Turn.dabc fn w ti sh q p s =
      ap (λ b. record { a = o.store q.c l; b = b; c = o.store q.a l; d = o.store q.b l })
        (mix-mixed fn w ti sh q.d q.a q.b q.c p s)
  step1-moved Turn.cdab fn w ti sh q p s =
      ap (λ b. record { a = o.store q.b l; b = b; c = o.store q.d l; d = o.store q.a l })
        (mix-mixed fn w ti sh q.c q.d q.a q.b p s)
  step1-moved Turn.bcda fn w ti sh q p s =
      ap (λ b. record { a = o.store q.a l; b = b; c = o.store q.c l; d = o.store q.d l })
        (mix-mixed fn w ti sh q.b q.c q.d q.a p s)

  moved-md5_step :
      (m : List ℕ) (i w : ℕ) (r : Regs)
      → w ≡ get_or m (word_index (i / 16) i) 0
      → moved (fn_of (i / 16)) w i (shift_of i) r ≡ md5_step m i r
  unfolding md5_step
  moved-md5_step m i w r e =
      ap₂
        (λ f x. record {
          a = r.d;
          b = u32 (r.b + rotl32 (u32 (r.a + f + x + get_or md5_t i 0)) (shift_of i));
          c = r.b;
          d = r.c;
        })
        (fn_of-round_fn (i / 16) r.b r.c r.d) e

  -- The stream's words are those of the list.
  abbrev pub Holds : List ℕ → Stream o.Vec → Type 0
  Holds m s = (j : ℕ) → j < 16 → o.store (word o corpus s j) l ≡ get_or m j 0

  word_index-lt : (round i : ℕ) → i < 16 * (round + 1) → word_index round i < 16
  unfolding word_index
  word_index-lt round i h = ground arith

  steps_from :
      (m : List ℕ) (n i : ℕ) (s : Stream o.Vec)
      → i + n ≡ 64
      → Holds m s
      → aligned Turn.abcd (foldl (λ s st. step_stream o corpus st s) s (expected_from n i)).r
        ≡ for_range n i (md5_step m) (aligned (turn_of (i % 4)) s.r)
  unfolding expected_from step_stream word
  steps_from m zero i s e holds =
      let there : i ≡ 64 = omega arith in ap (λ k. aligned (turn_of (k % 4)) s.r) (sym there)
  steps_from m (suc n) i s e holds =
      steps_from m n (i + 1) (step_stream o corpus (expected i) s) (omega arith) holds
      ∙ ap (for_range n (i + 1) (md5_step m)) (
          ap (λ t. aligned t (step_stream o corpus (expected i) s).r) (turn_of-next i)
          ∙ step1-moved (turn_of (i % 4)) (fn_of (i / 16)) (word o corpus s at) i (shift_of i) s.r
              shifts.0 shifts.1
          ∙ moved-md5_step m i (o.store (word o corpus s at) l) (aligned (turn_of (i % 4)) s.r)
              (holds at (word_index-lt (i / 16) i (omega arith))))
    where
      at : ℕ
      at = word_index (i / 16) i

      shifts : (0 < shift_of i) × (shift_of i < 32)
      shifts = shift-range i (omega arith)

  -- All 64 steps.
  pub steps-md5_step :
      (m : List ℕ) (s : Stream o.Vec)
      → Holds m s
      → aligned Turn.abcd (foldl (λ s st. step_stream o corpus st s) s steps).r
        ≡ for_range 64 0 (md5_step m) (aligned Turn.abcd s.r)
  steps-md5_step m s holds =
      ap (λ t. aligned Turn.abcd (foldl (λ s st. step_stream o corpus st s) s t).r) steps-expected
      ∙ steps_from m 64 0 s refl holds
