-- ===== src/Kernel/Sha512/Schedule.antt =====
-- The message schedule of src/reference/sha512.c: each word from words before it.
use valubench.Prelude.{ℕ, ◌+◌, ◌-◌, ◌*◌, ◌≤◌, ◌<◌, ◌≡◌, refl, sym, ap, ◌∙◌, arith, u64}
use valubench.Prelude.{List, [], ◌∷◌, ◌++◌, length, get_or, for_range, length-for_range}
use valubench.Hash.Bytes.{load_be64}
use valubench.Hash.Sha512.{schedule, ssig0, ssig1}
use valubench.Kernel.Sha.Windows.{grow, grow-next, grow-first}

-- The schedule's next word.
unfoldable pub next : ℕ → (ℕ → ℕ) → ℕ
next i w = u64 (ssig1 (w (i - 2)) + w (i - 7) + ssig0 (w (i - 15)) + w (i - 16))

unfoldable pub first_words : List ℕ → List ℕ
first_words block = for_range 16 0 (λ i w. w ++ (load_be64 block (i * 8) ∷ [])) []

pub length-first_words : (block : List ℕ) → length (first_words block) ≡ 16
unfolding first_words
length-first_words block = length-for_range (λ i. load_be64 block (i * 8)) 16 0

schedule-grow : (block : List ℕ) → schedule block ≡ for_range 64 16 (grow next) (first_words block)
unfolding schedule first_words next
schedule-grow block = refl

pub schedule-first :
    (block : List ℕ) (j : ℕ) → j < 16 → get_or (schedule block) j 0 ≡ get_or (first_words block) j 0
schedule-first block j h =
    ap (λ w. get_or w j 0) (schedule-grow block)
    ∙ grow-first next 64 16 j (first_words block) (length-first_words block) h

next-LooksBack :
    (i : ℕ) (f g : ℕ → ℕ) → ((j : ℕ) → j < i → f j ≡ g j) → 16 ≤ i → next i f ≡ next i g
unfolding next
next-LooksBack i f g same long = rw (
  same (i - 2) (omega arith),
  same (i - 7) (omega arith),
  same (i - 15) (omega arith),
  same (i - 16) (omega arith),
)

pub schedule-next :
    (block : List ℕ) (i : ℕ)
    → 16 ≤ i
    → i < 80
    → get_or (schedule block) i 0 ≡ next i (λ j. get_or (schedule block) j 0)
schedule-next block i h lt =
    ap (λ w. get_or w i 0) (schedule-grow block)
    ∙ grow-next next 64 16 i (first_words block) next-LooksBack (omega arith)
        (length-first_words block) h lt
    ∙ sym (ap (λ w. next i (λ j. get_or w j 0)) (schedule-grow block))

abbrev pub word_at : List ℕ → ℕ → ℕ
word_at block i = get_or (schedule block) i 0
