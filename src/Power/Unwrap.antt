-- ===== src/Power/Unwrap.antt =====
-- vb_power_begin and vb_power_end of src/power.c on a counter that wraps.
use valubench.Prelude.{
  ℕ, zero, suc, ◌+◌, ◌-◌, ◌%◌, ◌^◌, ◌≤◌, ◌<◌, ltb, leb, lt→ltb, le→leb, lt→leb, ltb→lt, ltb→le,
  if◌then◌else◌, ◌≡◌, sym, ap, ap₂, ◌∙◌, ◌⊎◌, inl, inr, Bool, Bool-cases, true, false, Option, some,
  List, [], ◌∷◌, get_elem?, u64, arith,
}
use valubench.Power.{
  Doubles, Source, is_power, begin_source, end_source, end_counter, joules_of, power_begin,
  power_end,
}
use mathlib.Core.Option.{some-injective}
use native.Mathlib.Nat.{mod-add-mod, mod-eq-sub-mod, mod-lt, mod-eq_of_lt}

if-true : {A : Type 0} (b : Bool) (x y : A) → b ≡ true → (if b then x else y) ≡ x
if-true b x y h = ap (λ t. if t then x else y) h

if-false : {A : Type 0} (b : Bool) (x y : A) → b ≡ false → (if b then x else y) ≡ y
if-false b x y h = ap (λ t. if t then x else y) h

mod-step : (x w : ℕ) → w ≤ x → x < w + w → x % w ≡ x - w
mod-step x w h k = mod-eq-sub-mod h ∙ mod-eq_of_lt (omega (arith, h, k))

-- How far a counter that has moved by less than its range seems to have moved.
abbrev Moved : ℕ → ℕ → ℕ → ℕ → Type 0
Moved start now d w = ((start ≤ now) × (now - start ≡ d)) ⊎ ((now < start) × (w - start + now ≡ d))

add-Moved : (r d w n : ℕ) → r < w → d < w → n ≡ (r + d) % w → Moved r n d w
add-Moved r d w n hr hd e = elim (Bool-cases (ltb (r + d) w)) [
  | inl less ↦
      let m : n ≡ r + d = e ∙ mod-eq_of_lt (ltb→lt (r + d) w less) in
      inl (omega (arith, m), omega (arith, m))
  | inr more ↦
      let le : w ≤ r + d = ltb→le (r + d) w more in
      let m : n ≡ r + d - w = e ∙ mod-step (r + d) w le (omega (arith, hr, hd)) in
      inr (omega (arith, m, hd, le), omega (arith, m, hr, le))
]

mod-Moved : (e d w : ℕ) → d < w → Moved (e % w) ((e + d) % w) d w
mod-Moved e d w less =
    add-Moved (e % w) d w ((e + d) % w) (mod-lt e (omega (arith, less))) less
      (sym (mod-add-mod e w d))

u64-difference :
    (w start now d : ℕ)
    → w < 2 ^ 64
    → start < w
    → d < w
    → w - start + now ≡ d
    → u64 (u64 (w + 2 ^ 64 - start) + now) ≡ d
u64-difference w start now d h k l e = omega (arith, h, k, l, e)

module _ {D : Type 0} (dbl : Doubles D) where
  -- What `vb_power_end` leaves of a source that has used `uj`.
  abbrev used : ℕ → Source D → Source D
  used uj s = record s { joules = joules_of dbl uj }

  end_counter-used :
      (s : Source D) (now d : ℕ)
      → s.wrap_uj < 2 ^ 64
      → s.start_uj < s.wrap_uj
      → d < s.wrap_uj
      → Moved s.start_uj now d s.wrap_uj
      → end_counter dbl now s ≡ used d s
  unfolding end_counter
  end_counter-used s now d h k l (inl ahead) =
      if-true (leb s.start_uj now) _ _ (le→leb s.start_uj now ahead.0) ∙ ap (λ n. used n s) ahead.1
  end_counter-used s now d h k l (inr behind) =
      if-false (leb s.start_uj now) _ _ (lt→leb s.start_uj now behind.0)
      ∙ if-true (ltb 0 s.wrap_uj) _ _ (lt→ltb 0 s.wrap_uj (omega (arith, k)))
      ∙ ap (λ n. used n s) (u64-difference s.wrap_uj s.start_uj now d h k l behind.1)

  end_source-used :
      (nvml_energy : Bool) (seconds : D) (s : Source D) (e d : ℕ)
      → is_power nvml_energy s.kind ≡ false
      → s.wrap_uj < 2 ^ 64
      → d < s.wrap_uj
      → end_source dbl nvml_energy seconds
          (some ((e + d) % s.wrap_uj))
          (begin_source dbl (some (e % s.wrap_uj)) s)
        ≡ record s { valid = true; start_uj = e % s.wrap_uj; joules = joules_of dbl d }
  unfolding end_source begin_source
  end_source-used nvml_energy seconds s e d counter h l =
      let t : Source D = record s { valid = true; start_uj = e % s.wrap_uj; joules = dbl.zero } in
      if-false (is_power nvml_energy s.kind) _ _ counter
      ∙ end_counter-used t ((e + d) % s.wrap_uj) d h (mod-lt e (omega (arith, l))) l
          (mod-Moved e d s.wrap_uj l)

  at-power_begin :
      (reads : ℕ → Option ℕ) (src : List (Source D)) (j i : ℕ) (s : Source D)
      → get_elem? src i ≡ some s
      → get_elem? (power_begin dbl reads j src) i ≡ some (begin_source dbl (reads (j + i)) s)
  unfolding power_begin
  at-power_begin reads [] j i s h = ground arith
  at-power_begin reads (x ∷ src) j zero s h =
      ap₂ (λ k y. some (begin_source dbl (reads k) y)) (omega arith) (some-injective _ s h)
  at-power_begin reads (x ∷ src) j (suc i) s h =
      at-power_begin reads src (j + 1) i s h
      ∙ ap (λ k. some (begin_source dbl (reads k) s)) (omega arith)

  at-power_end :
      (nvml_energy : Bool) (seconds : D) (reads : ℕ → Option ℕ) (src : List (Source D)) (j i : ℕ)
      (s : Source D)
      → get_elem? src i ≡ some s
      → get_elem? (power_end dbl nvml_energy seconds reads j src) i
        ≡ some (end_source dbl nvml_energy seconds (reads (j + i)) s)
  unfolding power_end
  at-power_end nvml_energy seconds reads [] j i s h = ground arith
  at-power_end nvml_energy seconds reads (x ∷ src) j zero s h =
      ap₂ (λ k y. some (end_source dbl nvml_energy seconds (reads k) y)) (omega arith)
        (some-injective _ s h)
  at-power_end nvml_energy seconds reads (x ∷ src) j (suc i) s h =
      at-power_end nvml_energy seconds reads src (j + 1) i s h
      ∙ ap (λ k. some (end_source dbl nvml_energy seconds (reads k) s)) (omega arith)

-- Whatever the other sources do: if source `i` counts energy modulo a range below 2 ^ 64, is read at
-- both ends of the region, and uses less than its range in between, then afterwards it is valid and
-- its joules are what it used, wrapped or not.
pub power_end-unwraps :
    {D : Type 0} (dbl : Doubles D) (nvml_energy : Bool) (seconds : D) (first last : ℕ → Option ℕ)
    (src : List (Source D)) (i : ℕ) (s : Source D) (energy used : ℕ)
    → get_elem? src i ≡ some s
    → is_power nvml_energy s.kind ≡ false
    → s.wrap_uj < 2 ^ 64
    → used < s.wrap_uj
    → first i ≡ some (energy % s.wrap_uj)
    → last i ≡ some ((energy + used) % s.wrap_uj)
    → get_elem? (power_end dbl nvml_energy seconds last 0 (power_begin dbl first 0 src)) i
      ≡ some (record s { valid = true; start_uj = energy % s.wrap_uj; joules = joules_of dbl used })
power_end-unwraps dbl nvml_energy seconds first last src i s energy used at counter h l a b =
    let zero_add : 0 + i ≡ i = omega arith in
    at-power_end dbl nvml_energy seconds last (power_begin dbl first 0 src) 0 i
      (begin_source dbl (first (0 + i)) s) (at-power_begin dbl first src 0 i s at)
    ∙ ap₂ (λ x y. some (end_source dbl nvml_energy seconds x (begin_source dbl y s)))
        (ap last zero_add ∙ b) (ap first zero_add ∙ a)
    ∙ ap some (end_source-used dbl nvml_energy seconds s energy used counter h l)
