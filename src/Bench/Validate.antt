-- ===== src/Bench/Validate.antt =====
-- src/bench.c, `vb_validate_kernel`: the check of the MD5 kernel against the reference.
use valubench.Prelude.{ℕ, ◌*◌, ◌%◌, ◌≡◌, refl, sym, ap, ◌∙◌, arith}
use valubench.Prelude.{true, some, none, not, ◌||◌, ◌==◌, u64, for_range, inl, inr, Bool-cases}
use valubench.Prelude.{[], ◌∷◌, if◌then◌else◌}
use mathlib.Core.Option.{some-injective, none-ne-some}
use valubench.Algorithm.{Algorithm, md5_alg, blocks_for}
use valubench.Workload.Corpus.{Corpus, Memory, corpus_build, scatter_message, padded_message}
use valubench.Workload.Reference.Rows.{Row}
use valubench.Kernel.Ops.{Ops}
use valubench.Kernel.Md5.{Quad, md5_kernel}
use valubench.Bench.{KernelRow, Config}
use valubench.Bench.{same_row}

pub same_row_refl : (r : Row) → same_row r r ≡ true
same_row_refl [] = refl
same_row_refl (x ∷ r) = let h = same_row_refl r in ground (arith, h)

-- The fields that the build copies.
pub corpus_build-fields :
    (mem : Memory) (a : Algorithm) (lanes start n bytes : ℕ) (c : Corpus)
    → corpus_build true mem a lanes start n bytes ≡ some c
    → (c.n_messages ≡ n) × (c.start_index ≡ start) × (c.lanes ≡ lanes)
unfolding corpus_build
corpus_build-fields mem a lanes start n bytes c built =
    elim (Bool-cases (lanes == 0 || n == 0 || not (n % lanes == 0) || not true)) [
      | inl bad ↦
          absurd (none-ne-some c (ap (λ b. if b then none else some made) (sym bad) ∙ built))
      | inr good ↦
          let same : made ≡ c =
            some-injective made c (ap (λ b. if b then none else some made) (sym good) ∙ built) in
          (
            ap (λ d. d.n_messages) (sym same),
            ap (λ d. d.start_index) (sym same),
            ap (λ d. d.lanes) (sym same),
          )
    ]
  where
    made : Corpus
    made =
        let blocks = blocks_for a bytes in
        record {
          words =
              for_range n 0
                (λ m mem.
                  scatter_message a lanes blocks (padded_message a start bytes blocks m) m mem)
                mem;
          n_words = u64 (n * blocks * 16);
          alg = a;
          lanes = lanes;
          blocks = blocks;
          message_bytes = bytes;
          n_messages = n;
          start_index = start;
        }

-- The row of the MD5 kernel over the operations `o`.
abbrev pub md5_row : (o : Ops) → Quad o.Vec → ℕ → KernelRow
md5_row o unset streams = record {
  lanes = o.lanes;
  streams = streams;
  run = λ words n_groups blocks iterations.
      md5_kernel o words unset streams n_groups blocks iterations;
}

abbrev pub md5_config : ℕ → ℕ → ℕ → Config
md5_config bytes kb t = record {
  alg = md5_alg;
  message_bytes = bytes;
  working_set_kb = kb;
  iterations = t;
  expected = none;
}
