-- ===== src/Cli/Tests.antt =====
-- The ladder's parser at concrete arguments.
use valubench.Prelude.{ℕ, ◌≡◌, refl, List, [], ◌∷◌}
use valubench.Cli.{Outcome, parse_ladder}
use valubench.Cli.Ladder.{Parsed, parse_ladder-Parsed}

-- "1,5,64"
abbrev rising : List ℕ
rising = 49 ∷ 44 ∷ 53 ∷ 44 ∷ 54 ∷ 52 ∷ []

-- "5, 1"
abbrev falling : List ℕ
falling = 53 ∷ 44 ∷ 32 ∷ 49 ∷ []

-- "-1"
abbrev negative : List ℕ
negative = 45 ∷ 49 ∷ []

runs :
    (parse_ladder rising 64 ≡ Outcome.accepted (1 ∷ 5 ∷ 64 ∷ []))
    × (parse_ladder rising 2 ≡ Outcome.rejected)
    × (parse_ladder falling 64 ≡ Outcome.rejected)
    × (parse_ladder negative 64 ≡ Outcome.rejected)
    × (parse_ladder [] 64 ≡ Outcome.rejected)
unfolding parse_ladder
runs = (refl, refl, refl, refl, refl)

parse_ladder-Parsed_example : Parsed 64 (parse_ladder rising 64)
parse_ladder-Parsed_example = parse_ladder-Parsed rising 64
