-- ===== src/Kernel/Md5/Table.antt =====
-- The 64 lines of steps in src/kernels/cpu/md5_kernel_impl.h.
use valubench.Prelude.{ℕ, List, [], ◌∷◌, ◌++◌}

-- MD5K_F to MD5K_I.
pub data Fn : Type 0 where
  f g h i : Fn

-- Which registers stand in the places A, B, C and D of the step.
pub data Turn : Type 0 where
  abcd dabc cdab bcda : Turn

-- The arguments F, the registers, WI, TI and SH of one MD5K_STEP.
pub record Step : Type 0 where
  pub fn : Fn
  pub turn : Turn
  pub wi : ℕ
  pub ti : ℕ
  pub sh : ℕ

abbrev pub step_of : Fn → Turn → ℕ → ℕ → ℕ → Step
step_of fn turn wi ti sh = record { fn = fn; turn = turn; wi = wi; ti = ti; sh = sh }

abbrev pub round_1 : List Step
round_1 =
    step_of Fn.f Turn.abcd 0 0 7
    ∷ step_of Fn.f Turn.dabc 1 1 12
    ∷ step_of Fn.f Turn.cdab 2 2 17
    ∷ step_of Fn.f Turn.bcda 3 3 22
    ∷ step_of Fn.f Turn.abcd 4 4 7
    ∷ step_of Fn.f Turn.dabc 5 5 12
    ∷ step_of Fn.f Turn.cdab 6 6 17
    ∷ step_of Fn.f Turn.bcda 7 7 22
    ∷ step_of Fn.f Turn.abcd 8 8 7
    ∷ step_of Fn.f Turn.dabc 9 9 12
    ∷ step_of Fn.f Turn.cdab 10 10 17
    ∷ step_of Fn.f Turn.bcda 11 11 22
    ∷ step_of Fn.f Turn.abcd 12 12 7
    ∷ step_of Fn.f Turn.dabc 13 13 12
    ∷ step_of Fn.f Turn.cdab 14 14 17
    ∷ step_of Fn.f Turn.bcda 15 15 22
    ∷ []

abbrev pub round_2 : List Step
round_2 =
    step_of Fn.g Turn.abcd 1 16 5
    ∷ step_of Fn.g Turn.dabc 6 17 9
    ∷ step_of Fn.g Turn.cdab 11 18 14
    ∷ step_of Fn.g Turn.bcda 0 19 20
    ∷ step_of Fn.g Turn.abcd 5 20 5
    ∷ step_of Fn.g Turn.dabc 10 21 9
    ∷ step_of Fn.g Turn.cdab 15 22 14
    ∷ step_of Fn.g Turn.bcda 4 23 20
    ∷ step_of Fn.g Turn.abcd 9 24 5
    ∷ step_of Fn.g Turn.dabc 14 25 9
    ∷ step_of Fn.g Turn.cdab 3 26 14
    ∷ step_of Fn.g Turn.bcda 8 27 20
    ∷ step_of Fn.g Turn.abcd 13 28 5
    ∷ step_of Fn.g Turn.dabc 2 29 9
    ∷ step_of Fn.g Turn.cdab 7 30 14
    ∷ step_of Fn.g Turn.bcda 12 31 20
    ∷ []

abbrev pub round_3 : List Step
round_3 =
    step_of Fn.h Turn.abcd 5 32 4
    ∷ step_of Fn.h Turn.dabc 8 33 11
    ∷ step_of Fn.h Turn.cdab 11 34 16
    ∷ step_of Fn.h Turn.bcda 14 35 23
    ∷ step_of Fn.h Turn.abcd 1 36 4
    ∷ step_of Fn.h Turn.dabc 4 37 11
    ∷ step_of Fn.h Turn.cdab 7 38 16
    ∷ step_of Fn.h Turn.bcda 10 39 23
    ∷ step_of Fn.h Turn.abcd 13 40 4
    ∷ step_of Fn.h Turn.dabc 0 41 11
    ∷ step_of Fn.h Turn.cdab 3 42 16
    ∷ step_of Fn.h Turn.bcda 6 43 23
    ∷ step_of Fn.h Turn.abcd 9 44 4
    ∷ step_of Fn.h Turn.dabc 12 45 11
    ∷ step_of Fn.h Turn.cdab 15 46 16
    ∷ step_of Fn.h Turn.bcda 2 47 23
    ∷ []

abbrev pub round_4 : List Step
round_4 =
    step_of Fn.i Turn.abcd 0 48 6
    ∷ step_of Fn.i Turn.dabc 7 49 10
    ∷ step_of Fn.i Turn.cdab 14 50 15
    ∷ step_of Fn.i Turn.bcda 5 51 21
    ∷ step_of Fn.i Turn.abcd 12 52 6
    ∷ step_of Fn.i Turn.dabc 3 53 10
    ∷ step_of Fn.i Turn.cdab 10 54 15
    ∷ step_of Fn.i Turn.bcda 1 55 21
    ∷ step_of Fn.i Turn.abcd 8 56 6
    ∷ step_of Fn.i Turn.dabc 15 57 10
    ∷ step_of Fn.i Turn.cdab 6 58 15
    ∷ step_of Fn.i Turn.bcda 13 59 21
    ∷ step_of Fn.i Turn.abcd 4 60 6
    ∷ step_of Fn.i Turn.dabc 11 61 10
    ∷ step_of Fn.i Turn.cdab 2 62 15
    ∷ step_of Fn.i Turn.bcda 9 63 21
    ∷ []

abbrev pub steps : List Step
steps = round_1 ++ (round_2 ++ (round_3 ++ round_4))
