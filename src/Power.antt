-- ===== src/Power.antt =====
-- src/power.c and include/power.h: the end of a measured region, sources that name one device, the
-- sums, and which sources measured the hardware that hashed.
pub mod Names
pub mod Earlier
pub mod Duplicates
pub mod Unwrap
pub mod Attribute
pub mod Tests
use valubench.Prelude.{
  ℕ, zero, suc, ◌+◌, ◌-◌, ◌%◌, ◌^◌, ltb, leb, ◌==◌, if◌then◌else◌, Bool, true, false, not, ◌&&◌,
  ◌||◌, Option, none, some, List, [], ◌∷◌, u64,
}

-- vb_power_scope.
pub data Scope : Type 0 where
  cpu_package cpu_cores gpu other : Scope

-- vb_power_provider.
pub data Provider : Type 0 where
  rapl drm nvml : Provider

-- SRC_*.
pub data Kind : Type 0 where
  powercap hwmon_energy hwmon_power nvml : Kind

-- What the C type `double` gives, as far as power.c uses it.
pub record Doubles (D : Type 0) : Type 0 where
  pub of_u64 : ℕ → D
  pub add : D → D → D
  pub mul : D → D → D
  pub div : D → D → D
  -- 0.0, -1.0, 2.0 and 1e6.
  pub zero : D
  pub minus_one : D
  pub two : D
  pub million : D

-- vb_power_src. `dev_id` is the characters before its NUL.
pub record Source (D : Type 0) : Type 0 where
  pub scope : Scope
  pub provider : Provider
  pub contained : Bool
  pub dev_id : List ℕ
  pub kind : Kind
  pub wrap_uj : ℕ
  pub start_uj : ℕ
  pub joules : D
  pub valid : Bool
  pub counted : Bool

abbrev pub scope_no : Scope → ℕ
scope_no Scope.cpu_package = 0
scope_no Scope.cpu_cores = 1
scope_no Scope.gpu = 2
scope_no Scope.other = 3

abbrev pub provider_no : Provider → ℕ
provider_no Provider.rapl = 0
provider_no Provider.drm = 1
provider_no Provider.nvml = 2

-- `a == b` on scopes.
abbrev pub same_scope : Scope → Scope → Bool
same_scope a b = scope_no a == scope_no b

-- `!s[0]`.
abbrev pub is_empty : List ℕ → Bool
is_empty [] = true
is_empty (x ∷ xs) = false

-- `tolower` in the C locale.
unfoldable pub to_lower : ℕ → ℕ
to_lower c = if leb 65 c && leb c 90 then c + 32 else c

-- `!strcasecmp(a, b)`.
unfoldable pub same_name : List ℕ → List ℕ → Bool
unfolding to_lower
same_name [] [] = true
same_name [] (y ∷ ys) = false
same_name (x ∷ xs) [] = false
same_name (x ∷ xs) (y ∷ ys) = (to_lower x == to_lower y) && same_name xs ys

-- Whether the source's reading is a power. `nvml_energy` is `g_nvml.Energy`.
abbrev pub is_power : Bool → Kind → Bool
is_power nvml_energy Kind.powercap = false
is_power nvml_energy Kind.hwmon_energy = false
is_power nvml_energy Kind.hwmon_power = true
is_power nvml_energy Kind.nvml = not nvml_energy

module _ {D : Type 0} (d : Doubles D) where
  -- One turn of `vb_power_begin`, with what the sample reads.
  unfoldable pub begin_source : Option ℕ → Source D → Source D
  begin_source none s = record s { valid = false; joules = d.zero }
  begin_source (some start) s = record s { valid = true; start_uj = start; joules = d.zero }

  -- `(double) uj / 1e6`.
  abbrev pub joules_of : ℕ → D
  joules_of uj = d.div (d.of_u64 uj) d.million

  -- The branch of a counter.
  unfoldable pub end_counter : ℕ → Source D → Source D
  end_counter now s =
      if leb s.start_uj now
      then record s { joules = joules_of (now - s.start_uj) }
      else (if ltb 0 s.wrap_uj
          then record s { joules = joules_of (u64 (u64 (s.wrap_uj + 2 ^ 64 - s.start_uj) + now)) }
          else record s { valid = false; joules = d.zero })

  -- The branch of a power.
  unfoldable pub end_power : D → ℕ → Source D → Source D
  end_power seconds now s =
      let w = d.div (d.div (d.add (d.of_u64 s.start_uj) (d.of_u64 now)) d.two) d.million in
      record s { joules = d.mul w seconds }

  -- One turn of `vb_power_end`.
  unfoldable pub end_source : Bool → D → Option ℕ → Source D → Source D
  unfolding end_counter end_power
  end_source nvml_energy seconds none s = record s { valid = false }
  end_source nvml_energy seconds (some now) s =
      if not s.valid
      then record s { valid = false }
      else (if is_power nvml_energy s.kind then end_power seconds now s else end_counter now s)

  -- The loops over sources, from source `i` on. `reads i` is what source `i` is read as.
  unfoldable pub power_begin : (ℕ → Option ℕ) → ℕ → List (Source D) → List (Source D)
  unfolding begin_source
  power_begin reads i [] = []
  power_begin reads i (s ∷ src) = begin_source (reads i) s ∷ power_begin reads (i + 1) src

  unfoldable pub power_end : Bool → D → (ℕ → Option ℕ) → ℕ → List (Source D) → List (Source D)
  unfolding end_source
  power_end nvml_energy seconds reads i [] = []
  power_end nvml_energy seconds reads i (s ∷ src) =
      end_source nvml_energy seconds (reads i) s ∷ power_end nvml_energy seconds reads (i + 1) src

-- The loop of `duplicate_of_earlier`, from source `j` on.
unfoldable pub earlier_source : {D : Type 0} → ℕ → Scope → Source D → List (Source D) → ℕ → Bool
unfolding same_name
earlier_source i scope s [] j = false
earlier_source i scope s (o ∷ src) j =
    let rest = earlier_source i scope s src (j + 1) in
    if (j == i) || (not (same_scope o.scope scope) || (not o.valid || is_empty o.dev_id))
    then rest
    else (if not (same_name o.dev_id s.dev_id)
        then rest
        else (if ltb (provider_no o.provider) (provider_no s.provider)
              || ((provider_no o.provider == provider_no s.provider) && ltb j i)
            then true
            else rest))

unfoldable pub duplicate_of_earlier : {D : Type 0} → List (Source D) → ℕ → Source D → Scope → Bool
unfolding earlier_source
duplicate_of_earlier src i s scope =
    if is_empty s.dev_id then false else earlier_source i scope s src 0

-- A sum and whether anything was added.
pub record Sum (D : Type 0) : Type 0 where
  pub total : D
  pub any : Bool

module _ {D : Type 0} (d : Doubles D) where
  abbrev pub sum_value : Sum D → D
  sum_value t = if t.any then t.total else d.minus_one

  abbrev pub add_source : Sum D → Source D → Sum D
  add_source t s = record { total = d.add t.total s.joules; any = true }

  -- The loop of `vb_power_scope_joules`, from source `i` on.
  unfoldable pub scope_sum : List (Source D) → Scope → ℕ → List (Source D) → Sum D → Sum D
  unfolding duplicate_of_earlier
  scope_sum all scope i [] t = t
  scope_sum all scope i (s ∷ src) t = scope_sum all scope (i + 1) src (
      if not (same_scope s.scope scope) || not s.valid
      then t
      else (if duplicate_of_earlier all i s scope then t else add_source t s))

  unfoldable pub scope_joules : List (Source D) → Scope → D
  unfolding scope_sum
  scope_joules src scope =
      sum_value (scope_sum src scope 0 src (record { total = d.zero; any = false }))

  -- The inner loop of `vb_power_total_joules`.
  unfoldable pub total_sum : List (Source D) → Scope → ℕ → List (Source D) → Sum D → Sum D
  unfolding duplicate_of_earlier
  total_sum all scope i [] t = t
  total_sum all scope i (s ∷ src) t = total_sum all scope (i + 1) src (
      if not (same_scope s.scope scope)
        || (not s.valid || (s.contained || same_scope scope Scope.cpu_cores))
      then t
      else (if duplicate_of_earlier all i s scope then t else add_source t s))

  unfoldable pub total_joules : List (Source D) → D
  unfolding total_sum
  total_joules src =
      let t = total_sum src Scope.cpu_package 0 src (record { total = d.zero; any = false }) in
      let t = total_sum src Scope.cpu_cores 0 src t in
      let t = total_sum src Scope.gpu 0 src t in sum_value (total_sum src Scope.other 0 src t)

  -- The loop of `vb_power_hashing_joules`.
  unfoldable pub hashing_sum : List (Source D) → ℕ → List (Source D) → Sum D → Sum D
  unfolding duplicate_of_earlier
  hashing_sum all i [] t = t
  hashing_sum all i (s ∷ src) t = hashing_sum all (i + 1) src (
      if not s.valid || not s.counted
      then t
      else (if same_scope s.scope Scope.cpu_cores
            || (s.contained && not (same_scope s.scope Scope.gpu))
          then t
          else (if duplicate_of_earlier all i s s.scope then t else add_source t s)))

  unfoldable pub hashing_joules : List (Source D) → D
  unfolding hashing_sum
  hashing_joules src = sum_value (hashing_sum src 0 src (record { total = d.zero; any = false }))

-- `same_device`. A card whose pointer is NULL is `none`.
unfoldable pub same_device : List ℕ → Option (List ℕ) → Bool
unfolding same_name
same_device a none = false
same_device a (some b) = not (is_empty a) && (not (is_empty b) && same_name a b)

-- Whether some card of the run is the device.
unfoldable pub any_card : List ℕ → List (Option (List ℕ)) → Bool
unfolding same_device
any_card dev [] = false
any_card dev (g ∷ cards) = same_device dev g || any_card dev cards

-- Whether the card has an identified source.
unfoldable pub card_hit : {D : Type 0} → List (Source D) → Option (List ℕ) → Bool
unfolding same_device
card_hit [] g = false
card_hit (s ∷ src) g = (same_scope s.scope Scope.gpu && same_device s.dev_id g) || card_hit src g

unfoldable pub unmatched_cards : {D : Type 0} → List (Source D) → List (Option (List ℕ)) → Bool
unfolding card_hit
unmatched_cards src [] = false
unmatched_cards src (g ∷ cards) = not (card_hit src g) || unmatched_cards src cards

-- One turn of the loop of `vb_power_attribute`.
unfoldable pub counted_of :
    {D : Type 0} → Bool → Bool → List (Option (List ℕ)) → Source D → Scope → Bool
unfolding any_card
counted_of cpu_hashed unmatched cards s Scope.cpu_package = cpu_hashed
counted_of cpu_hashed unmatched cards s Scope.cpu_cores = cpu_hashed
counted_of cpu_hashed unmatched cards s Scope.gpu =
    let named =
      if not (is_empty s.dev_id)
      then any_card s.dev_id cards
      else (elim cards [ [] ↦ false | g ∷ gs ↦ unmatched ]) in
    if s.contained && cpu_hashed then false else named
counted_of cpu_hashed unmatched cards s Scope.other = cpu_hashed && not s.contained

unfoldable pub count_all :
    {D : Type 0} → Bool → Bool → List (Option (List ℕ)) → List (Source D) → List (Source D)
unfolding counted_of
count_all cpu_hashed unmatched cards [] = []
count_all cpu_hashed unmatched cards (s ∷ src) =
    record s { counted = counted_of cpu_hashed unmatched cards s s.scope }
    ∷ count_all cpu_hashed unmatched cards src

unfoldable pub power_attribute :
    {D : Type 0} → Bool → List (Option (List ℕ)) → List (Source D) → List (Source D)
unfolding count_all unmatched_cards
power_attribute cpu_hashed cards src = count_all cpu_hashed (unmatched_cards src cards) cards src
