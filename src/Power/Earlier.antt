-- ===== src/Power/Earlier.antt =====
-- The loop of `duplicate_of_earlier` of src/power.c: it finds a source that comes before.
use valubench.Prelude.{
  ℕ, zero, suc, ◌+◌, ◌<◌, ltb, ◌==◌, if◌then◌else◌, ◌≡◌, ◌≢◌, refl, sym, ◌⊎◌, inl, inr, Bool, true,
  false, not, ◌&&◌, ◌||◌, some, List, [], ◌∷◌, get_elem?, arith,
}
use valubench.Power.{Scope, Source, same_scope, provider_no, is_empty, same_name, earlier_source}
use mathlib.Core.Path.{subst}
use mathlib.Core.Option.{some-injective}

abbrev turn : Bool → Bool → Bool → Bool → Bool
turn skip same before rest =
    if skip then rest else (if not same then rest else (if before then true else rest))

turn-true :
    (skip same before rest : Bool)
    → turn skip same before rest ≡ true
    → (rest ≡ true) ⊎ ((skip ≡ false) × ((same ≡ true) × (before ≡ true)))
turn-true true same before rest h = inl h
turn-true false false before rest h = inl h
turn-true false true true rest h = inr (refl, (refl, refl))
turn-true false true false rest h = inl h

turn-false :
    (skip same before rest : Bool)
    → turn skip same before rest ≡ false
    → (rest ≡ false) × ((skip ≡ false) → (same ≡ true) → (before ≡ true) → ⊥)
turn-false true same before rest h = (h, λ p q r. ground arith)
turn-false false false before rest h = (h, λ p q r. ground arith)
turn-false false true true rest h = ground arith
turn-false false true false rest h = (h, λ p q r. ground arith)

-- The lexicographic order of provider and index.
abbrev pub Before : {D : Type 0} → ℕ → Source D → ℕ → Source D → Type 0
Before j o i s =
    (provider_no o.provider < provider_no s.provider)
    ⊎ ((provider_no o.provider ≡ provider_no s.provider) × (j < i))

-- Source `j` is the one that source `i` duplicates.
pub record Hides (D : Type 0) (i : ℕ) (scope : Scope) (s : Source D) (j : ℕ) (o : Source D)
    : Type 0 where
  pub other : j ≢ i
  pub scoped : same_scope o.scope scope ≡ true
  pub valid : o.valid ≡ true
  pub named : is_empty o.dev_id ≡ false
  pub same : same_name o.dev_id s.dev_id ≡ true
  pub before : Before j o i s

skip-parts :
    (a b c d : Bool)
    → (a || (not b || (not c || d))) ≡ false
    → (a ≡ false) × ((b ≡ true) × ((c ≡ true) × (d ≡ false)))
skip-parts false true true false h = (refl, (refl, (refl, refl)))
skip-parts true b c d h = ground arith
skip-parts false false c d h = ground arith
skip-parts false true false d h = ground arith
skip-parts false true true true h = ground arith

parts-skip :
    (a b c d : Bool)
    → a ≡ false
    → b ≡ true
    → c ≡ true
    → d ≡ false
    → (a || (not b || (not c || d))) ≡ false
parts-skip a b c d p q r s = ground arith

pub ==-false : (a b : ℕ) → (a == b) ≡ false → a ≢ b
==-false a b h e = ground arith

false-== : (a b : ℕ) → a ≢ b → (a == b) ≡ false
false-== a b h = ground arith

before-Before :
    (p q j i : ℕ) → (ltb p q || ((p == q) && ltb j i)) ≡ true → (p < q) ⊎ ((p ≡ q) × (j < i))
before-Before p q j i h = ground arith

Before-before :
    (p q j i : ℕ) → (p < q) ⊎ ((p ≡ q) × (j < i)) → (ltb p q || ((p == q) && ltb j i)) ≡ true
Before-before p q j i h = ground arith

step-index : (j k : ℕ) → j + 1 + k ≡ j + suc k
step-index j k = omega arith

add-zero : (j : ℕ) → j + 0 ≡ j
add-zero j = omega arith

module _ {D : Type 0} (i : ℕ) (scope : Scope) (s : Source D) where
  pub earlier_source-finds :
      (src : List (Source D)) (j : ℕ)
      → earlier_source i scope s src j ≡ true
      → (k : ℕ) × ((o : Source D) × ((get_elem? src k ≡ some o) × Hides D i scope s (j + k) o))
  unfolding earlier_source
  earlier_source-finds [] j h = ground arith
  earlier_source-finds (o ∷ src) j h =
      let skip =
        (j == i) || (not (same_scope o.scope scope) || (not o.valid || is_empty o.dev_id)) in
      let before =
        ltb (provider_no o.provider) (provider_no s.provider)
        || ((provider_no o.provider == provider_no s.provider) && ltb j i) in
      elim (turn-true skip (same_name o.dev_id s.dev_id) before
        (earlier_source i scope s src (j + 1)) h) [
          | inl more ↦
              let later = earlier_source-finds src (j + 1) more in
              (
                suc later.0,
                (
                  later.1.0,
                  (
                    later.1.1.0,
                    subst (λ m. Hides D i scope s m later.1.0) (step-index j later.0) later.1.1.1,
                  ),
                ),
              )
          | inr here ↦
              let parts =
                skip-parts (j == i) (same_scope o.scope scope) o.valid (is_empty o.dev_id) here.0 in
              (
                0,
                (
                  o,
                  (
                    refl,
                    record {
                      other = λ e. ==-false j i parts.0 (omega (arith, e));
                      scoped = parts.1.0;
                      valid = parts.1.1.0;
                      named = parts.1.1.1;
                      same = here.1.0;
                      before =
                          subst (λ m. Before m o i s) (sym (add-zero j))
                            (before-Before (provider_no o.provider) (provider_no s.provider) j i
                              here.1.1);
                    },
                  ),
                ),
              )
        ]

  pub earlier_source-misses :
      (src : List (Source D)) (j k : ℕ) (o : Source D)
      → earlier_source i scope s src j ≡ false
      → get_elem? src k ≡ some o
      → Hides D i scope s (j + k) o
      → ⊥
  unfolding earlier_source
  earlier_source-misses [] j k o h at hides = ground arith
  earlier_source-misses (x ∷ src) j zero o h at hides =
      let same : x ≡ o = some-injective _ o at in
      let hid : Hides D i scope s j x =
        subst (λ y. Hides D i scope s j y) (sym same)
          (subst (λ m. Hides D i scope s m o) (add-zero j) hides) in
      let skip =
        (j == i) || (not (same_scope x.scope scope) || (not x.valid || is_empty x.dev_id)) in
      let before =
        ltb (provider_no x.provider) (provider_no s.provider)
        || ((provider_no x.provider == provider_no s.provider) && ltb j i) in
      (turn-false skip (same_name x.dev_id s.dev_id) before (earlier_source i scope s src (j + 1))
          h).1
        (parts-skip (j == i) (same_scope x.scope scope) x.valid (is_empty x.dev_id)
          (false-== j i hid.other) hid.scoped hid.valid hid.named)
        hid.same (Before-before (provider_no x.provider) (provider_no s.provider) j i hid.before)
  earlier_source-misses (x ∷ src) j (suc k) o h at hides =
      let skip =
        (j == i) || (not (same_scope x.scope scope) || (not x.valid || is_empty x.dev_id)) in
      let before =
        ltb (provider_no x.provider) (provider_no s.provider)
        || ((provider_no x.provider == provider_no s.provider) && ltb j i) in
      earlier_source-misses src (j + 1) k o
        (turn-false skip (same_name x.dev_id s.dev_id) before (earlier_source i scope s src (j + 1))
          h).0
        at (subst (λ m. Hides D i scope s m o) (sym (step-index j k)) hides)
