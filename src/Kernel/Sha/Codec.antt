-- ===== src/Kernel/Sha/Codec.antt =====
-- Words as the bytes of a message: what a load finds where the words of a state were stored.
use valubench.Prelude.{ℕ, zero, suc, ◌+◌, ◌*◌, ◌%◌, ◌^◌, ◌≤◌, ◌<◌, ◌≡◌, sym, ap, ◌∙◌, arith}
use valubench.Prelude.{List, [], ◌∷◌, ◌++◌, length, get_or, map, take, drop, concat, write_at}
use valubench.Prelude.{
  append_assoc, append-nil, length-append, get_or-left, get_or-right, get_or-take, get_or-drop,
  get_or-write_head, get_or-for_range, length-for_range, list_ext,
}
use valubench.Hash.Bytes.{byte_at}
use valubench.Hash.Big.{ReadsOnly}
use valubench.Algorithm.{Algorithm}
use valubench.Workload.Message.{load_word}
use valubench.Workload.Corpus.{cast_word}
use valubench.Workload.Bytes.{AllBytes, append-AllBytes}
use valubench.Workload.Reference.{digest_row}
use valubench.Kernel.Sha.Streams.{IsState}

-- The reference's load and store of one word, and the corpus builder's load, agree.
pub record IsCodec (g : Algorithm) (wb w : ℕ) (load : List ℕ → ℕ → ℕ) (store : ℕ → List ℕ)
    : Type 0 where
  pub reads : ReadsOnly wb load
  pub length_store : (x : ℕ) → length (store x) ≡ wb
  pub store_bytes : (x : ℕ) → AllBytes (store x)
  pub load_store : (x : ℕ) → x < 2 ^ w → load (store x) 0 ≡ x
  pub joins : (p : List ℕ) (off : ℕ) → AllBytes p → load_word g p off ≡ load p off
  pub cast : (p : List ℕ) (off : ℕ) → AllBytes p → cast_word g (load p off) % 2 ^ w ≡ load p off

module _ {g : Algorithm} {wb w : ℕ} {load : List ℕ → ℕ → ℕ} {store : ℕ → List ℕ}
    (c : IsCodec g wb w load store) where
  abbrev stored : List ℕ → List ℕ
  stored st = concat (map store st)

  pub load-block :
      (p : List ℕ) (b j : ℕ)
      → j < 16
      → load (take (16 * wb) (drop (b * (16 * wb)) p)) (j * wb) ≡ load p (b * (16 * wb) + j * wb)
  load-block p b j h =
      c.reads (take (16 * wb) (drop (b * (16 * wb)) p)) p (j * wb) (b * (16 * wb) + j * wb) λ k lt.
        get_or-take (16 * wb) (drop (b * (16 * wb)) p) (j * wb + k) 0 (grind (arith, h, lt))
        ∙ get_or-drop (b * (16 * wb)) p (j * wb + k) 0
        ∙ ap (byte_at p) (omega arith)

  pub load-past :
      (bytes p : List ℕ) (off : ℕ) → length bytes ≤ off → load (write_at 0 bytes p) off ≡ load p off
  load-past bytes p off h =
      c.reads (write_at 0 bytes p) p off off
        λ k lt. get_or-write_head bytes p (off + k) 0 (omega arith)

  pub length-stored : (st : List ℕ) → length (stored st) ≡ length st * wb
  length-stored [] = omega arith
  length-stored (x ∷ st) =
      omega (arith, length-append (store x) (stored st), c.length_store x, length-stored st)

  pub stored-AllBytes : (st : List ℕ) → AllBytes (stored st)
  stored-AllBytes [] = tt
  stored-AllBytes (x ∷ st) =
      append-AllBytes (store x) (stored st) (c.store_bytes x) (stored-AllBytes st)

  -- Word `j` of the bytes of a state.
  pub load-stored :
      (st rest : List ℕ) (j : ℕ)
      → ((i : ℕ) → get_or st i 0 < 2 ^ w)
      → j < length st
      → load (stored st ++ rest) (j * wb) ≡ get_or st j 0
  load-stored [] rest j small h = absurd (omega arith)
  load-stored (x ∷ st) rest zero small h =
      c.reads ((store x ++ stored st) ++ rest) (store x) (0 * wb) 0 (λ k lt.
        ap (λ q. byte_at q (0 * wb + k)) (append_assoc (store x) (stored st) rest)
        ∙ ap (byte_at (store x ++ (stored st ++ rest))) {y = 0 + k} (omega arith)
        ∙ get_or-left (store x) (stored st ++ rest) (0 + k) 0 (omega (arith, lt, c.length_store x)))
      ∙ c.load_store x (small 0)
  load-stored (x ∷ st) rest (suc j) small h =
      c.reads ((store x ++ stored st) ++ rest) (stored st ++ rest) (suc j * wb) (j * wb) (λ k lt.
        ap (λ q. byte_at q (suc j * wb + k)) (append_assoc (store x) (stored st) rest)
        ∙ get_or-right (store x) (stored st ++ rest) (suc j * wb + k) 0
            (omega (arith, c.length_store x))
        ∙ ap (byte_at (stored st ++ rest)) (omega (arith, c.length_store x)))
      ∙ load-stored st rest j (λ i. small (suc i)) (omega arith)

  -- The words of a digest are the state that it stores.
  pub digest_row-stored :
      (n : ℕ) (st : List ℕ)
      → g.digest_words ≡ n
      → g.word_bytes ≡ wb
      → IsState n w st
      → digest_row g (stored st) ≡ st
  unfolding digest_row
  digest_row-stored n st words bytes h =
      let word = λ (j : ℕ). load_word g (stored st) (j * g.word_bytes) in
      let size : length (digest_row g (stored st)) ≡ n =
        length-for_range word g.digest_words 0 ∙ words in
      list_ext (digest_row g (stored st)) st 0 (size ∙ sym h.size) λ j lt.
        get_or-for_range word g.digest_words j 0 (omega (arith, lt, size, words))
        ∙ c.joins (stored st) (j * g.word_bytes) (stored-AllBytes st)
        ∙ ap (λ k. load (stored st) (j * k)) bytes
        ∙ ap (λ q. load q (j * wb)) (sym (append-nil (stored st)))
        ∙ load-stored st [] j h.small (omega (arith, lt, size, h.size))
