-- ===== src/Power/Tests.antt =====
-- The energy sources at concrete inputs, with whole numbers in place of `double`.
use valubench.Prelude.{
  ℕ, ◌+◌, ◌*◌, ◌/◌, ◌%◌, ◌≡◌, refl, true, false, List, [], ◌∷◌, map, some, get_elem?, arith,
}
use valubench.Power.{
  Scope, Provider, Kind, Doubles, Source, duplicate_of_earlier, scope_joules, total_joules,
  hashing_joules, power_begin, power_end, power_attribute,
}
use valubench.Power.Duplicates.{
  Identified, Taken, duplicate_of_earlier_unique, duplicate_of_earlier-Taken,
}
use valubench.Power.Unwrap.{power_end-unwraps}
use valubench.Power.Attribute.{reread, hashing_joules-reread}

abbrev whole : Doubles ℕ
whole = record {
  of_u64 = λ n. n;
  add = λ a b. a + b;
  mul = λ a b. a * b;
  div = λ a b. a / b;
  zero = 0;
  minus_one = 999_999;
  two = 2;
  million = 1_000_000;
}

-- "0:A" and "0:a".
abbrev upper : List ℕ
upper = 48 ∷ 58 ∷ 65 ∷ []

abbrev lower : List ℕ
lower = 48 ∷ 58 ∷ 97 ∷ []

abbrev card : Provider → List ℕ → ℕ → Source ℕ
card provider dev joules = record {
  scope = Scope.gpu;
  provider = provider;
  contained = false;
  dev_id = dev;
  kind = Kind.nvml;
  wrap_uj = 0;
  start_uj = 0;
  joules = joules;
  valid = true;
  counted = true;
}

-- The package, its graphics domain, and one card through two providers.
abbrev socket : Source ℕ
socket = record (card Provider.rapl [] 40) {
  scope = Scope.cpu_package;
  kind = Kind.powercap;
  wrap_uj = 5_000_000;
}

abbrev uncore : Source ℕ
uncore = record (card Provider.rapl [] 5) { contained = true }

abbrev sources : List (Source ℕ)
sources = socket ∷ uncore ∷ card Provider.nvml upper 250 ∷ card Provider.drm lower 240 ∷ []

gpu_sum : scope_joules whole sources Scope.gpu ≡ 245
unfolding scope_joules
gpu_sum = refl

whole_sum : total_joules whole sources ≡ 280
unfolding total_joules
whole_sum = refl

-- A run on the card alone.
card_run : hashing_joules whole (power_attribute false (some upper ∷ []) sources) ≡ 240
unfolding hashing_joules power_attribute
card_run = refl

-- A run on the CPU alone.
cpu_run : hashing_joules whole (power_attribute true [] sources) ≡ 40
unfolding hashing_joules power_attribute
cpu_run = refl

nvml_Identified : Identified ℕ sources Scope.gpu 2 (card Provider.nvml upper 250)
nvml_Identified = record { at = refl; scoped = refl; valid = refl; named = refl }

drm_Identified : Identified ℕ sources Scope.gpu 3 (card Provider.drm lower 240)
drm_Identified = record { at = refl; scoped = refl; valid = refl; named = refl }

duplicate_of_earlier_unique_example : ◌≡◌ {A = ℕ} 3 3
unfolding duplicate_of_earlier
duplicate_of_earlier_unique_example =
    duplicate_of_earlier_unique sources Scope.gpu 3 3 (card Provider.drm lower 240)
      (card Provider.drm lower 240) drm_Identified drm_Identified refl refl refl

duplicate_of_earlier-Taken_example : Taken ℕ sources Scope.gpu (card Provider.nvml upper 250)
duplicate_of_earlier-Taken_example =
    duplicate_of_earlier-Taken sources Scope.gpu 2 (card Provider.nvml upper 250) nvml_Identified

power_end-unwraps_example :
    get_elem?
      (power_end whole true 2
        (λ i. some ((4_000_000 + 3_000_000) % 5_000_000))
        0
        (power_begin whole (λ i. some (4_000_000 % 5_000_000)) 0 sources))
      0
    ≡ some (record socket { valid = true; start_uj = 4_000_000 % 5_000_000; joules = 3 })
power_end-unwraps_example =
    power_end-unwraps whole true 2 (λ i. some (4_000_000 % 5_000_000))
      (λ i. some ((4_000_000 + 3_000_000) % 5_000_000)) sources 0 socket 4_000_000 3_000_000 refl
      refl (omega arith) (omega arith) refl refl

hashing_joules-reread_example :
    hashing_joules whole
      (map (reread true [] whole (λ s. s.joules + 7)) (power_attribute true [] sources))
    ≡ hashing_joules whole (power_attribute true [] sources)
hashing_joules-reread_example = hashing_joules-reread whole true [] sources (λ s. s.joules + 7)
