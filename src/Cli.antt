-- ===== src/Cli.antt =====
-- src/main.c: the ladder of iteration counts on the command line. A string is its characters.
pub mod Strtoul
pub mod Ladder
pub mod Tests
use valubench.Prelude.{
  ℕ, zero, suc, ◌+◌, ◌-◌, ◌*◌, ◌^◌, Bool, true, false, ◌&&◌, ◌||◌, not, ltb, leb, ◌==◌,
  if◌then◌else◌, Option, none, some, List, [], ◌∷◌, ◌++◌, length, u64,
}

-- `isspace`, in the C locale.
abbrev pub is_space : ℕ → Bool
is_space c = (c == 32) || (leb 9 c && leb c 13)

abbrev pub is_digit : ℕ → Bool
is_digit c = leb 48 c && leb c 57

unfoldable pub skip_space : List ℕ → List ℕ
skip_space [] = []
skip_space (c ∷ s) = let rest = skip_space s in if is_space c then rest else c ∷ s

-- The characters after a sign.
unfoldable pub skip_sign : List ℕ → List ℕ
skip_sign [] = []
skip_sign (c ∷ s) = if (c == 43) || (c == 45) then s else c ∷ s

abbrev pub is_negative : List ℕ → Bool
is_negative [] = false
is_negative (c ∷ s) = c == 45

-- The number that the leading digits add to `n`, and what stands after them.
unfoldable pub digits : ℕ → List ℕ → ℕ × List ℕ
digits n [] = (n, [])
digits n (c ∷ s) =
    let rest = digits (n * 10 + (c - 48)) s in if is_digit c then rest else (n, c ∷ s)

-- What `strtoul` returns, whether it set ERANGE, and the end of the number.
pub record Number : Type 0 where
  pub value : ℕ
  pub out_of_range : Bool
  pub end : List ℕ

abbrev pub number : Bool → ℕ × List ℕ → Number
number negative (n, end) =
    if leb (2 ^ 64) n
    then record { value = 2 ^ 64 - 1; out_of_range = true; end = end }
    else record {
      value = if negative then u64 (2 ^ 64 - n) else n;
      out_of_range = false;
      end = end;
    }

-- `strtoul (s, &end, 10)`; `none` where `end == s`.
unfoldable pub strtoul : List ℕ → Option Number
unfolding skip_space skip_sign digits
strtoul s =
    let at = skip_space s in
    elim (skip_sign at) [
      | [] ↦ none
      | c ∷ rest ↦
          if is_digit c then some (number (is_negative at) (digits (c - 48) rest)) else none
    ]

abbrev pub iters_limit : ℕ
iters_limit = 1_000_000

-- `out[n - 1]`, or `d` if there is none.
abbrev pub last_or : List ℕ → ℕ → ℕ
last_or [] d = d
last_or (x ∷ out) d = last_or out x

-- How the parse ends. The last is a loop that was not given enough turns.
pub data Outcome : Type 0 where
  accepted : List ℕ → Outcome
  rejected unfinished : Outcome

-- The tests on a number of the ladder.
unfoldable pub rung_ok : ℕ → List ℕ → Number → Bool
rung_ok max out v =
    not (v.out_of_range || (ltb v.value 1 || ltb iters_limit v.value))
    && (not (length out == max) && not (ltb 0 (length out) && leb v.value (last_or out 0)))

-- The loop of `parse_ladder`.
unfoldable pub ladder_loop : ℕ → ℕ → List ℕ → List ℕ → Outcome
unfolding strtoul rung_ok
ladder_loop max fuel [] out = accepted out
ladder_loop max zero (c ∷ p) out = Outcome.unfinished
ladder_loop max (suc fuel) (c ∷ p) out = elim (strtoul (c ∷ p)) [
  | none ↦ Outcome.rejected
  | some v ↦ elim (rung_ok max out v) [
    | false ↦ Outcome.rejected
    | true ↦ elim v.end [
      | [] ↦ ladder_loop max fuel [] (out ++ (v.value ∷ []))
      | e ∷ rest ↦ elim (e == 44) [
        | true ↦ ladder_loop max fuel rest (out ++ (v.value ∷ []))
        | false ↦ Outcome.rejected
      ]
    ]
  ]
]

-- `parse_ladder`. Every turn takes a character, so a turn for each is enough.
unfoldable pub parse_ladder : List ℕ → ℕ → Outcome
unfolding ladder_loop
parse_ladder arg max = elim (ladder_loop max (length arg) arg []) [
  | accepted out ↦ if length out == 0 then Outcome.rejected else Outcome.accepted out
  | rejected ↦ Outcome.rejected
  | unfinished ↦ Outcome.unfinished
]
