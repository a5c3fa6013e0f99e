-- ===== src/Workload/Message/Distinct.antt =====
-- Which indices give the same message: the count that `vb_distinct_messages` reports.
use valubench.Prelude.{
  ℕ, zero, suc, ◌+◌, ◌-◌, ◌*◌, ◌%◌, ◌^◌, ◌≤◌, ◌≡◌, refl, sym, ap, ◌∙◌, ◌↔◌, arith,
}
use valubench.Prelude.{List, [], ◌∷◌, ◌++◌, length, take, append-nil, append_assoc}
use valubench.Prelude.{take-append}
use valubench.Workload.Message.{
  pattern_byte, index_bytes, write_index, write_pattern, build_message,
}
use valubench.Workload.Message.{distinct_messages}

-- The pattern goes behind what is there already.
write_pattern-append :
    (count n : ℕ) (out : List ℕ) → write_pattern count n out ≡ out ++ write_pattern count n []
unfolding write_pattern
write_pattern-append zero n out = sym (append-nil out)
write_pattern-append (suc count) n out =
    write_pattern-append count (n + 1) (out ++ (pattern_byte n ∷ []))
    ∙ append_assoc out (pattern_byte n ∷ []) (write_pattern count (n + 1) [])
    ∙ ap (λ t. out ++ t) (sym (write_pattern-append count (n + 1) (pattern_byte n ∷ [])))

length-write_index : (i n : ℕ) → n ≤ 4 → length (write_index i n) ≡ n
unfolding write_index
length-write_index i zero h = refl
length-write_index i (suc zero) h = refl
length-write_index i (suc (suc zero)) h = refl
length-write_index i (suc (suc (suc zero))) h = refl
length-write_index i (suc (suc (suc (suc zero)))) h = refl
length-write_index i (suc (suc (suc (suc (suc n))))) h = absurd (omega arith)

module _ (i j : ℕ) where
  -- The index bytes agree exactly when the indices agree to that many bytes.
  write_index_iff :
      (n : ℕ) → n ≤ 4 → (write_index i n ≡ write_index j n) ↔ (i % 2 ^ (8 * n) ≡ j % 2 ^ (8 * n))
  unfolding write_index
  write_index_iff zero h = (λ e. omega arith, λ e. refl)
  write_index_iff (suc zero) h = ground arith
  write_index_iff (suc (suc zero)) h = ground arith
  write_index_iff (suc (suc (suc zero))) h = ground arith
  write_index_iff (suc (suc (suc (suc zero)))) h = ground arith
  write_index_iff (suc (suc (suc (suc (suc n))))) h = absurd (omega arith)

-- Two indices give the same message exactly when they agree modulo the count that
-- `vb_distinct_messages` reports: below that count every message is another one, and from there on
-- they repeat.
pub build_message_iff :
    (i j bytes : ℕ)
    → (build_message i bytes ≡ build_message j bytes)
      ↔ (i % distinct_messages bytes ≡ j % distinct_messages bytes)
unfolding build_message distinct_messages
build_message_iff i j bytes = (
  λ e. head.0 (sym (cut i) ∙ ap (take n) e ∙ cut j),
  λ e. split i ∙ ap (λ t. t ++ write_pattern (bytes - n) n []) (head.1 e) ∙ sym (split j),
)
  where
    n : ℕ
    n = index_bytes bytes

    low : n ≤ 4
    low = unfold index_bytes in ground arith

    head : (write_index i n ≡ write_index j n) ↔ (i % 2 ^ (8 * n) ≡ j % 2 ^ (8 * n))
    head = write_index_iff i j n low

    split :
        (k : ℕ)
        → write_pattern (bytes - n) n (write_index k n)
          ≡ write_index k n ++ write_pattern (bytes - n) n []
    split k = write_pattern-append (bytes - n) n (write_index k n)

    cut : (k : ℕ) → take n (write_pattern (bytes - n) n (write_index k n)) ≡ write_index k n
    cut k =
        ap (take n) (split k)
        ∙ take-append n (write_index k n) (write_pattern (bytes - n) n [])
            (length-write_index k n low)
