-- ===== src/Kernel/Md5/Digest.antt =====
-- What the reference walk of src/workload.c computes for MD5, in terms of the padded message that the
-- kernel works on.
use valubench.Prelude.{
  ℕ, zero, suc, ◌+◌, ◌-◌, ◌*◌, ◌^◌, ◌≤◌, ◌<◌, ◌≡◌, refl, sym, ap, ap₂, ◌∙◌, arith,
}
use valubench.Prelude.{
  List, [], ◌∷◌, ◌++◌, length, drop, write_at, foldl, chunks, for_range, u32, u64, replicate,
}
use valubench.Prelude.{append_assoc, get_or, length-write_at}
use valubench.Bits.Sum.{or-bytes}
use valubench.Hash.Bytes.{load_le32, store_le32, store_le64}
use valubench.Hash.Md5.{Regs, md5_engine, md5_step, load_words, md5_compress}
use valubench.Hash.Stream.Spec.{pad, block_count}
use valubench.Algorithm.{md5_alg, blocks_for}
use valubench.Algorithm.Blocks.{is_md5}
use valubench.Workload.Message.{pad_message}
use valubench.Workload.Padding.{pad_message-pad, hash-pad_message}
use valubench.Workload.Bytes.{words-AllBytes, load_word-load_le32}
use valubench.Workload.Reference.{digest_row}
use valubench.Workload.Reference.Spec.{chain, digest_at}
use valubench.Kernel.Md5.Iterations.{state_after, fed}

-- Four words of 32 bits.
pub record IsState (st : List ℕ) : Type 0 where
  pub a : ℕ
  pub b : ℕ
  pub c : ℕ
  pub d : ℕ
  pub a_lt : a < 2 ^ 32
  pub b_lt : b < 2 ^ 32
  pub c_lt : c < 2 ^ 32
  pub d_lt : d < 2 ^ 32
  pub words : st ≡ a ∷ b ∷ c ∷ d ∷ []

cut-IsState : (x y z w : ℕ) → IsState (u32 x ∷ u32 y ∷ u32 z ∷ u32 w ∷ [])
cut-IsState x y z w = record {
  a = u32 x;
  b = u32 y;
  c = u32 z;
  d = u32 w;
  a_lt = omega arith;
  b_lt = omega arith;
  c_lt = omega arith;
  d_lt = omega arith;
  words = refl;
}

md5_compress-IsState : (st block : List ℕ) → IsState (md5_compress st block)
unfolding md5_compress
md5_compress-IsState st block =
    let q : Regs = record {
      a = get_or st 0 0;
      b = get_or st 1 0;
      c = get_or st 2 0;
      d = get_or st 3 0;
    } in
    let r = for_range 64 0 (md5_step (load_words block)) q in
    cut-IsState (q.a + r.a) (q.b + r.b) (q.c + r.c) (q.d + r.d)

foldl-IsState : (st : List ℕ) (bs : List (List ℕ)) → IsState st → IsState (foldl md5_compress st bs)
foldl-IsState st [] h = h
foldl-IsState st (b ∷ bs) h = foldl-IsState (md5_compress st b) bs (md5_compress-IsState st b)

pub state_after-IsState : (blocks : ℕ) (p : List ℕ) → IsState (state_after blocks p)
state_after-IsState blocks p = foldl-IsState md5_engine.iv (chunks 64 blocks p) (record {
  a = 0x67452301;
  b = 0xefcdab89;
  c = 0x98badcfe;
  d = 0x10325476;
  a_lt = omega arith;
  b_lt = omega arith;
  c_lt = omega arith;
  d_lt = omega arith;
  words = refl;
})

length-store_state : (st : List ℕ) → IsState st → length (md5_engine.store_state st) ≡ 16
unfolding store_le32
length-store_state st h = ap (λ t. length (md5_engine.store_state t)) h.words

row_of_words :
    (a b c d : ℕ)
    → a < 2 ^ 32
    → b < 2 ^ 32
    → c < 2 ^ 32
    → d < 2 ^ 32
    → digest_row md5_alg (md5_engine.store_state (a ∷ b ∷ c ∷ d ∷ [])) ≡ a ∷ b ∷ c ∷ d ∷ []
unfolding digest_row load_le32 store_le32
row_of_words a b c d ha hb hc hd =
    let q = md5_engine.store_state (a ∷ b ∷ c ∷ d ∷ []) in
    let all = words-AllBytes a b c d in
    ap₂ ◌∷◌ (load_word-load_le32 q 0 all ∙ or-bytes a ha) (
      ap₂ ◌∷◌ (load_word-load_le32 q 4 all ∙ or-bytes b hb) (
        ap₂ ◌∷◌ (load_word-load_le32 q 8 all ∙ or-bytes c hc)
          (ap (λ t. t ∷ []) (load_word-load_le32 q 12 all ∙ or-bytes d hd))))

-- The words of a digest are the state that it stores.
digest_row-state : (st : List ℕ) → IsState st → digest_row md5_alg (md5_engine.store_state st) ≡ st
digest_row-state st h =
    ap (λ t. digest_row md5_alg (md5_engine.store_state t)) h.words
    ∙ row_of_words h.a h.b h.c h.d h.a_lt h.b_lt h.c_lt h.d_lt
    ∙ sym h.words

drop-append_le : (n : ℕ) (xs ys : List ℕ) → n ≤ length xs → drop n (xs ++ ys) ≡ drop n xs ++ ys
drop-append_le zero xs ys h = refl
drop-append_le (suc n) [] ys h = absurd (omega arith)
drop-append_le (suc n) (x ∷ xs) ys h = drop-append_le n xs ys (omega arith)

-- The padding depends on the message's length only.
pad_tail : ℕ → List ℕ
pad_tail n =
    0x80 ∷ (replicate (block_count md5_engine n * 64 - n - 1 - 8) 0 ++ store_le64 (u64 (n * 8)))

pad-write_head :
    (d msg : List ℕ)
    → length d ≤ length msg
    → pad md5_engine (write_at 0 d msg) ≡ write_at 0 d (pad md5_engine msg)
unfolding pad_tail
pad-write_head d msg h =
    ap (λ n. write_at 0 d msg ++ pad_tail n) (length-write_at 0 d msg (omega arith))
    ∙ append_assoc d (drop (0 + length d) msg) (pad_tail (length msg))
    ∙ ap (λ t. d ++ t)
        (sym (drop-append_le (0 + length d) msg (pad_tail (length msg)) (omega arith)))

module _ (msg : List ℕ) (long : 16 ≤ length msg) (short : length msg < 2 ^ 32 - 256) where
  abbrev blocks : ℕ
  blocks = blocks_for md5_alg (length msg)

  -- Where the walk stands after `t` iterations: the length is kept, and the padded message is the
  -- one that the kernel has.
  record Stands (t : ℕ) : Type 0 where
    size : length (chain md5_alg t msg) ≡ length msg
    padded : pad md5_engine (chain md5_alg t msg) ≡ fed blocks t (pad_message md5_alg msg blocks)

  hash-state_after :
      (t : ℕ)
      → Stands t
      → md5_alg.hash (chain md5_alg t msg)
        ≡ md5_engine.store_state
            (state_after blocks (fed blocks t (pad_message md5_alg msg blocks)))
  hash-state_after t h =
      let c = chain md5_alg t msg in
      let short' : length c < 2 ^ 32 - 256 = omega (arith, h.size) in
      hash-pad_message md5_alg c is_md5 short'
      ∙ ap₂ (λ n p. md5_engine.store_state (state_after n p)) (ap (blocks_for md5_alg) h.size)
          (pad_message-pad md5_alg c is_md5 short' ∙ h.padded)

  length-hash : (t : ℕ) → Stands t → length (md5_alg.hash (chain md5_alg t msg)) ≡ 16
  length-hash t h =
      ap length (hash-state_after t h)
      ∙ length-store_state (state_after blocks (fed blocks t (pad_message md5_alg msg blocks)))
          (state_after-IsState blocks (fed blocks t (pad_message md5_alg msg blocks)))

  chain-Stands : (t : ℕ) → Stands t
  chain-Stands zero = record {
    size = refl;
    padded = sym (pad_message-pad md5_alg msg is_md5 short);
  }
  chain-Stands (suc t) =
      let h = chain-Stands t in
      let c = chain md5_alg t msg in
      let d = md5_alg.hash c in
      let fits : length d ≤ length c = omega (arith, length-hash t h, h.size) in
      record {
        size = length-write_at 0 d c (omega (arith, fits)) ∙ h.size;
        padded =
            pad-write_head d c fits ∙ ap₂ (λ d p. write_at 0 d p) (hash-state_after t h) h.padded;
      }

  -- The row that the walk adds for a message is the kernel's state after as many iterations.
  pub digest_at-state_after :
      (t : ℕ)
      → digest_at md5_alg t msg
        ≡ state_after blocks (fed blocks (t - 1) (pad_message md5_alg msg blocks))
  digest_at-state_after t =
      ap (digest_row md5_alg) (hash-state_after (t - 1) (chain-Stands (t - 1)))
      ∙ digest_row-state (state_after blocks (fed blocks (t - 1) (pad_message md5_alg msg blocks)))
          (state_after-IsState blocks (fed blocks (t - 1) (pad_message md5_alg msg blocks)))
