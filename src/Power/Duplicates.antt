-- ===== src/Power/Duplicates.antt =====
-- `duplicate_of_earlier` of src/power.c: of the sources that name one device, one is taken.
use valubench.Prelude.{
  ℕ, zero, suc, ◌+◌, ◌<◌, ◌==◌, ==_iff, if◌then◌else◌, ◌≡◌, ◌≢◌, sym, ap, ◌∙◌, ◌⊎◌, inl, inr,
  Bool-cases, true, false, some, List, get_elem?, arith,
}
use valubench.Power.{
  Scope, Provider, Source, same_scope, provider_no, is_empty, same_name, earlier_source,
  duplicate_of_earlier,
}
use valubench.Power.Names.{same_name_refl, same_name_sym, same_name_trans}
use mathlib.Core.Path.{subst}
use valubench.Power.Earlier.{Before, Hides, ==-false, earlier_source-finds, earlier_source-misses}

-- Source `i` of the list is `s`, which is valid, in the scope, and names its device.
pub record Identified (D : Type 0) (src : List (Source D)) (scope : Scope) (i : ℕ) (s : Source D)
    : Type 0 where
  pub at : get_elem? src i ≡ some s
  pub scoped : same_scope s.scope scope ≡ true
  pub valid : s.valid ≡ true
  pub named : is_empty s.dev_id ≡ false

provider-lt : (p : Provider) → provider_no p < 3
provider-lt Provider.rapl = omega arith
provider-lt Provider.drm = omega arith
provider-lt Provider.nvml = omega arith

zero-add : (j : ℕ) → j ≡ 0 + j
zero-add j = omega arith

order-cases :
    (p q j i : ℕ) → (j ≡ i) ⊎ (((p < q) ⊎ ((p ≡ q) × (j < i))) ⊎ ((q < p) ⊎ ((q ≡ p) × (i < j))))
order-cases p q j i = ground arith

module _ {D : Type 0} (src : List (Source D)) (scope : Scope) where
  duplicate-earlier :
      (i : ℕ) (s : Source D)
      → is_empty s.dev_id ≡ false
      → duplicate_of_earlier src i s scope ≡ earlier_source i scope s src 0
  unfolding duplicate_of_earlier
  duplicate-earlier i s h = ap (λ e. if e then false else earlier_source i scope s src 0) h

  not-hidden :
      (i : ℕ) (s : Source D) (j : ℕ) (o : Source D)
      → Identified D src scope i s
      → Identified D src scope j o
      → same_name o.dev_id s.dev_id ≡ true
      → duplicate_of_earlier src i s scope ≡ false
      → j ≢ i
      → Before j o i s
      → ⊥
  not-hidden i s j o is js same kept other before =
      earlier_source-misses i scope s src 0 j o (sym (duplicate-earlier i s is.named) ∙ kept) js.at
        (subst (λ m. Hides D i scope s m o) (zero-add j)
          (record {
            other = other;
            scoped = js.scoped;
            valid = js.valid;
            named = js.named;
            same = same;
            before = before;
          }))

-- Of the valid sources of a scope that name one device, at most one is not a duplicate: two that
-- are not are the same source.
pub duplicate_of_earlier_unique :
    {D : Type 0} (src : List (Source D)) (scope : Scope) (i j : ℕ) (s o : Source D)
    → Identified D src scope i s
    → Identified D src scope j o
    → same_name o.dev_id s.dev_id ≡ true
    → duplicate_of_earlier src i s scope ≡ false
    → duplicate_of_earlier src j o scope ≡ false
    → j ≡ i
duplicate_of_earlier_unique src scope i j s o is js same kept_i kept_j =
    elim (Bool-cases (j == i)) [
      | inl e ↦ (==_iff j i).0 e
      | inr e ↦ elim (order-cases (provider_no o.provider) (provider_no s.provider) j i) [
        | inl eq ↦ eq
        | inr (inl before) ↦
            absurd (not-hidden src scope i s j o is js same kept_i (==-false j i e) before)
        | inr (inr before) ↦ absurd (
            not-hidden src scope j o i s js is (same_name_sym o.dev_id s.dev_id same) kept_j
              (λ q. ==-false j i e (sym q)) before)
      ]
    ]

-- A source that is taken for the device of `s`.
pub record Taken (D : Type 0) (src : List (Source D)) (scope : Scope) (s : Source D) : Type 0 where
  pub index : ℕ
  pub source : Source D
  pub identified : Identified D src scope index source
  pub same : same_name source.dev_id s.dev_id ≡ true
  pub kept : duplicate_of_earlier src index source scope ≡ false

module _ {D : Type 0} (src : List (Source D)) (scope : Scope) where
  hidden-Identified :
      (i k : ℕ) (s o : Source D)
      → get_elem? src k ≡ some o
      → Hides D i scope s (0 + k) o
      → Identified D src scope k o
  hidden-Identified i k s o at h = record {
    at = at;
    scoped = h.scoped;
    valid = h.valid;
    named = h.named;
  }

  by_same :
      (s o : Source D)
      → same_name o.dev_id s.dev_id ≡ true
      → Taken D src scope o
      → Taken D src scope s
  by_same s o same t = record {
    index = t.index;
    source = t.source;
    identified = t.identified;
    same = same_name_trans t.source.dev_id o.dev_id s.dev_id t.same same;
    kept = t.kept;
  }

  -- By the provider, then by the index.
  Taken-below :
      (p m i : ℕ) (s : Source D)
      → provider_no s.provider < p
      → i < m
      → Identified D src scope i s
      → Taken D src scope s
  Taken-below zero m i s below under is = absurd (omega (arith, below))
  Taken-below (suc p) zero i s below under is = absurd (omega (arith, under))
  Taken-below (suc p) (suc m) i s below under is =
      elim (Bool-cases (duplicate_of_earlier src i s scope)) [
        | inr kept ↦ record {
          index = i;
          source = s;
          identified = is;
          same = same_name_refl s.dev_id;
          kept = kept;
        }
        | inl dup ↦
            let found =
              earlier_source-finds i scope s src 0
                (sym (duplicate-earlier src scope i s is.named) ∙ dup) in
            let k = found.0 in
            let o = found.1.0 in
            let h = found.1.1.1 in
            let ko = hidden-Identified i k s o found.1.1.0 h in
            by_same s o h.same (elim h.before [
              | inl less ↦ Taken-below p (suc k) k o (omega (arith, less, below)) (omega arith) ko
              | inr later ↦
                  Taken-below (suc p) m k o (omega (arith, later.0, below))
                    (omega (arith, later.1, under)) ko
            ])
      ]

-- Every valid source of a scope that names its device has a source of the same device in the
-- scope, valid too, that is not a duplicate.
pub duplicate_of_earlier-Taken :
    {D : Type 0} (src : List (Source D)) (scope : Scope) (i : ℕ) (s : Source D)
    → Identified D src scope i s
    → Taken D src scope s
duplicate_of_earlier-Taken src scope i s is =
    Taken-below src scope 3 (suc i) i s (provider-lt s.provider) (omega arith) is
