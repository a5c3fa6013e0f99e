-- ===== src/Power/Attribute.antt =====
-- vb_power_attribute and vb_power_hashing_joules of src/power.c: what the sum does not depend on.
use valubench.Prelude.{
  ℕ, ◌+◌, ltb, ◌==◌, if◌then◌else◌, ◌≡◌, refl, sym, ap, ap₂, ◌∙◌, ◌⊎◌, inl, inr, Bool, Bool-cases,
  true, false, not, ◌&&◌, ◌||◌, Option, List, [], ◌∷◌, map, arith,
}
use valubench.Power.{
  Scope, Doubles, Source, Sum, same_scope, provider_no, is_empty, same_name, earlier_source,
  duplicate_of_earlier, add_source, sum_value, hashing_sum, hashing_joules, any_card,
  unmatched_cards, counted_of, count_all, power_attribute,
}

-- The source measures hardware that did not hash, or energy that another source contains: the CPU's
-- domains where only devices hashed, contained domains where the CPU did, its cores, and identified
-- cards that the run did not use.
unfoldable pub bystander : {D : Type 0} → Bool → List (Option (List ℕ)) → Source D → Scope → Bool
bystander cpu_hashed cards s Scope.cpu_package = not cpu_hashed || s.contained
bystander cpu_hashed cards s Scope.cpu_cores = true
bystander cpu_hashed cards s Scope.gpu =
    (cpu_hashed && s.contained) || (not (is_empty s.dev_id) && not (any_card s.dev_id cards))
bystander cpu_hashed cards s Scope.other = not cpu_hashed || s.contained

gpu-uncounted :
    (contained c nameless used x : Bool)
    → ((c && contained) || (not nameless && not used)) ≡ true
    → (if contained && c then false else (if not nameless then used else x)) ≡ false
gpu-uncounted true true nameless used x h = refl
gpu-uncounted true false false true x h = ground arith
gpu-uncounted true false false false x h = refl
gpu-uncounted true false true used x h = ground arith
gpu-uncounted false true false true x h = ground arith
gpu-uncounted false true false false x h = refl
gpu-uncounted false true true used x h = ground arith
gpu-uncounted false false false true x h = ground arith
gpu-uncounted false false false false x h = refl
gpu-uncounted false false true used x h = ground arith

bystander-uncounted :
    {D : Type 0} (c u : Bool) (cards : List (Option (List ℕ))) (s : Source D) (scope : Scope)
    → bystander c cards s scope ≡ true
    → (counted_of c u cards s scope ≡ false)
      ⊎ ((same_scope scope Scope.cpu_cores || (s.contained && not (same_scope scope Scope.gpu)))
          ≡ true)
unfolding bystander counted_of
bystander-uncounted true u cards s Scope.cpu_package h = inr (ap (λ b. b && true) h)
bystander-uncounted false u cards s Scope.cpu_package h = inl refl
bystander-uncounted c u cards s Scope.cpu_cores h = inr refl
bystander-uncounted c u cards s Scope.gpu h =
    inl (gpu-uncounted s.contained c (is_empty s.dev_id) (any_card s.dev_id cards) _ h)
bystander-uncounted true u cards s Scope.other h = inr (ap (λ b. b && true) h)
bystander-uncounted false u cards s Scope.other h = inl refl

-- One turn of the sum.
abbrev turn : {D : Type 0} → Bool → Bool → Bool → Bool → Sum D → Sum D → Sum D
turn valid counted inside duplicate t more =
    if not valid || not counted then t else (if inside then t else (if duplicate then t else more))

turn-skips :
    {D : Type 0} (valid counted inside duplicate : Bool) (t more : Sum D)
    → (counted ≡ false) ⊎ (inside ≡ true)
    → turn valid counted inside duplicate t more ≡ t
turn-skips false counted inside duplicate t more h = refl
turn-skips true false inside duplicate t more h = refl
turn-skips true true true duplicate t more h = refl
turn-skips true true false duplicate t more (inl h) = ground arith
turn-skips true true false duplicate t more (inr h) = ground arith

module _ {D : Type 0} (c : Bool) (cards : List (Option (List ℕ))) (dbl : Doubles D)
    (f : Source D → D) where
  -- Other readings of the sources that the sum must not depend on.
  abbrev pub reread : Source D → Source D
  reread s = record s { joules = if bystander c cards s s.scope then f s else s.joules }

  earlier_source-reread :
      (i : ℕ) (scope : Scope) (s : Source D) (src : List (Source D)) (j : ℕ)
      → earlier_source i scope (reread s) (map reread src) j ≡ earlier_source i scope s src j
  unfolding earlier_source
  earlier_source-reread i scope s [] j = refl
  earlier_source-reread i scope s (o ∷ src) j =
      ap
        (λ rest.
          if (j == i) || (not (same_scope o.scope scope) || (not o.valid || is_empty o.dev_id))
          then rest
          else (if not (same_name o.dev_id s.dev_id)
              then rest
              else (if ltb (provider_no o.provider) (provider_no s.provider)
                    || ((provider_no o.provider == provider_no s.provider) && ltb j i)
                  then true
                  else rest)))
        (earlier_source-reread i scope s src (j + 1))

  duplicate-reread :
      (all : List (Source D)) (i : ℕ) (s : Source D) (scope : Scope)
      → duplicate_of_earlier (map reread all) i (reread s) scope
        ≡ duplicate_of_earlier all i s scope
  unfolding duplicate_of_earlier
  duplicate-reread all i s scope =
      ap (λ e. if is_empty s.dev_id then false else e) (earlier_source-reread i scope s all 0)

  bystander-counted :
      (b : Bool) (s : Source D) (scope : Scope)
      → bystander c cards (record s { counted = b }) scope ≡ bystander c cards s scope
  unfolding bystander
  bystander-counted b s Scope.cpu_package = refl
  bystander-counted b s Scope.cpu_cores = refl
  bystander-counted b s Scope.gpu = refl
  bystander-counted b s Scope.other = refl

  -- What a source adds.
  abbrev source_turn : List (Source D) → ℕ → Source D → Sum D → Sum D
  source_turn all i y t =
      turn y.valid y.counted
        (same_scope y.scope Scope.cpu_cores || (y.contained && not (same_scope y.scope Scope.gpu)))
        (duplicate_of_earlier all i y y.scope) t (add_source dbl t y)

  abbrev counted_source : Bool → Source D → Source D
  counted_source u x = record x { counted = counted_of c u cards x x.scope }

  turn-reread :
      (u : Bool) (all : List (Source D)) (i : ℕ) (x : Source D) (t : Sum D)
      → source_turn (map reread all) i (reread (counted_source u x)) t
        ≡ source_turn all i (counted_source u x) t
  turn-reread u all i x t =
      let y = counted_source u x in
      let inside =
        same_scope y.scope Scope.cpu_cores || (y.contained && not (same_scope y.scope Scope.gpu)) in
      elim (Bool-cases (bystander c cards y y.scope)) [
        | inl by ↦
            let out =
              bystander-uncounted c u cards x x.scope
                (sym (bystander-counted y.counted x x.scope) ∙ by) in
            turn-skips y.valid y.counted inside
              (duplicate_of_earlier (map reread all) i (reread y) y.scope) t
              (add_source dbl t (reread y)) out
            ∙ sym (
                turn-skips y.valid y.counted inside (duplicate_of_earlier all i y y.scope) t
                  (add_source dbl t y) out)
        | inr not_by ↦
            ap₂
              (λ dup e.
                turn y.valid y.counted inside dup t
                  (record { total = dbl.add t.total (if e then f y else y.joules); any = true }))
              (duplicate-reread all i y y.scope) not_by
      ]

  hashing_sum-reread :
      (u : Bool) (all : List (Source D)) (i : ℕ) (src : List (Source D)) (t : Sum D)
      → hashing_sum dbl (map reread all) i (map reread (count_all c u cards src)) t
        ≡ hashing_sum dbl all i (count_all c u cards src) t
  unfolding hashing_sum count_all
  hashing_sum-reread u all i [] t = refl
  hashing_sum-reread u all i (x ∷ src) t =
      hashing_sum-reread u all (i + 1) src
        (source_turn (map reread all) i (reread (counted_source u x)) t)
      ∙ ap (hashing_sum dbl all (i + 1) (count_all c u cards src)) (turn-reread u all i x t)

-- After `vb_power_attribute`, whatever the sources read: the energy of `vb_power_hashing_joules`
-- does not depend on the joules of the CPU's domains where only devices hashed, of contained domains
-- where the CPU did, of the CPU's cores, or of an identified card that the run did not use.
pub hashing_joules-reread :
    {D : Type 0} (dbl : Doubles D) (cpu_hashed : Bool) (cards : List (Option (List ℕ)))
    (src : List (Source D)) (other : Source D → D)
    → hashing_joules dbl
        (map (reread cpu_hashed cards dbl other) (power_attribute cpu_hashed cards src))
      ≡ hashing_joules dbl (power_attribute cpu_hashed cards src)
unfolding hashing_joules power_attribute
hashing_joules-reread dbl cpu_hashed cards src other =
    let u = unmatched_cards src cards in
    ap (sum_value dbl) (
      hashing_sum-reread cpu_hashed cards dbl other u (count_all cpu_hashed u cards src) 0 src
        (record { total = dbl.zero; any = false }))
