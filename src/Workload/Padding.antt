-- ===== src/Workload/Padding.antt =====
-- The corpus pads a message as the algorithm's own `final` does, so a kernel that hashes the padded
-- blocks computes the reference's digest.
use valubench.Prelude.{ℕ, ◌+◌, ◌-◌, ◌*◌, ◌^◌, ◌≤◌, ◌<◌, ◌≡◌, refl, sym, ap, ap₂, ◌∙◌, arith}
use valubench.Prelude.{u64, List, ◌∷◌, ◌++◌, length, replicate, write_at}
use valubench.Prelude.{
  append-nil, append_assoc, length-append, length-replicate, replicate-append, take-append,
  drop_all,
}
use valubench.Prelude.{foldl, chunks}
use valubench.Hash.Stream.{Engine}
use valubench.Hash.Stream.Spec.{pad, block_count, digest}
use valubench.Hash.Stream.Final.{hash-digest}
use valubench.Hash.Md5.{md5, md5_engine}
use valubench.Hash.Sha1.{sha1, sha1_engine}
use valubench.Hash.Sha512.{sha512, sha512_engine}
use valubench.Hash.Md5.Law.{md5-IsEngine}
use valubench.Hash.Sha1.Law.{sha1-IsEngine}
use valubench.Hash.Sha512.Law.{sha512-IsEngine}
use valubench.Hash.Bytes.{store_le64, store_be64_words, store_be64}
use valubench.Algorithm.{AlgId, Algorithm, md5_alg, sha1_alg, sha512_alg, blocks_for}
use valubench.Algorithm.{md5_thunk, sha1_thunk, sha512_thunk, local_ctx}
use valubench.Algorithm.Blocks.{IsAlgorithm, is_md5, is_sha1, is_sha512, blocks_for_least}
use valubench.Workload.Message.{pad_message, length_field}

-- The engine behind each descriptor.
abbrev pub engine_of : AlgId → Engine
engine_of AlgId.md5 = md5_engine
engine_of AlgId.sha1 = sha1_engine
engine_of AlgId.sha512 = sha512_engine

-- The zeroed block with the length written into its last eight bytes.
write_length :
    (msg lf : List ℕ) (total : ℕ)
    → length lf ≡ 8
    → length msg + 9 ≤ total
    → write_at (total - 8) lf (msg ++ (0x80 ∷ replicate (total - length msg - 1) 0))
      ≡ msg ++ (0x80 ∷ (replicate (total - length msg - 9) 0 ++ lf))
write_length msg lf total size fits =
    ap (write_at (total - 8) lf) split
    ∙ ap₂ (λ t d. t ++ (lf ++ d)) (take-append (total - 8) front (replicate 8 0) length-front)
        (drop_all (total - 8 + length lf) (front ++ replicate 8 0)
          (omega (arith, length-append front (replicate 8 0), length-front, size)))
    ∙ ap (λ t. front ++ t) (append-nil lf)
    ∙ append_assoc msg (0x80 ∷ replicate k 0) lf
  where
    k : ℕ
    k = total - length msg - 9

    front : List ℕ
    front = msg ++ (0x80 ∷ replicate k 0)

    length-front : length front ≡ total - 8
    length-front =
        omega (arith, length-append msg (0x80 ∷ replicate k 0), length-replicate {A = ℕ} k 0)

    split : msg ++ (0x80 ∷ replicate (total - length msg - 1) 0) ≡ front ++ replicate 8 0
    split =
        let e : total - length msg - 1 ≡ k + 8 = omega arith in
        ap (λ n. msg ++ (0x80 ∷ replicate n 0)) e
        ∙ ap (λ t. msg ++ (0x80 ∷ t)) (sym (replicate-append 0 k 8))
        ∙ sym (append_assoc msg (0x80 ∷ replicate k 0) (replicate 8 0))

field_md5 : (n : ℕ) → n < 2 ^ 64 → length_field md5_alg n ≡ store_le64 n
unfolding length_field store_le64
field_md5 n h = ground arith

field_sha1 : (n : ℕ) → n < 2 ^ 64 → length_field sha1_alg n ≡ store_be64_words n
unfolding length_field store_be64_words
field_sha1 n h = ground arith

field_sha512 : (n : ℕ) → length_field sha512_alg n ≡ store_be64 n
unfolding length_field store_be64
field_sha512 n = refl

-- The count of the descriptor is that of the specification, for every message length in range.
blocks_for-block_count :
    (a : Algorithm) (n : ℕ)
    → IsAlgorithm a
    → n < 2 ^ 32 - 256
    → blocks_for a n ≡ block_count (engine_of a.id) n
unfolding blocks_for
blocks_for-block_count a n is_md5 h = omega arith
blocks_for-block_count a n is_sha1 h = omega arith
blocks_for-block_count a n is_sha512 h = omega arith

length-length_field : (a : Algorithm) (n : ℕ) → length (length_field a n) ≡ 8
unfolding length_field
length-length_field a n = refl

-- The zeros and the field of an algorithm whose length field has eight bytes.
short_field :
    (msg lf lf' : List ℕ) (total total' : ℕ)
    → length lf ≡ 8
    → length msg + 9 ≤ total
    → total ≡ total'
    → lf ≡ lf'
    → write_at (total - 8) lf (msg ++ (0x80 ∷ replicate (total - length msg - 1) 0))
      ≡ msg ++ (0x80 ∷ (replicate (total' - length msg - 1 - 8) 0 ++ lf'))
short_field msg lf lf' total total' size fits same_total same_field =
    let e : total - length msg - 9 ≡ total' - length msg - 1 - 8 = omega arith in
    write_length msg lf total size fits
    ∙ ap₂ (λ k f. msg ++ (0x80 ∷ (replicate k 0 ++ f))) e same_field

-- The same for SHA-512, whose length field has sixteen bytes, of which the first eight are zero.
long_field :
    (msg lf lf' : List ℕ) (total total' : ℕ)
    → length lf ≡ 8
    → length msg + 17 ≤ total
    → total ≡ total'
    → lf ≡ lf'
    → write_at (total - 8) lf (msg ++ (0x80 ∷ replicate (total - length msg - 1) 0))
      ≡ msg ++ (0x80 ∷ (replicate (total' - length msg - 1 - 16) 0 ++ (replicate 8 0 ++ lf')))
long_field msg lf lf' total total' size fits same_total same_field =
    let k = total' - length msg - 1 - 16 in
    let e : total - length msg - 9 ≡ k + 8 = omega arith in
    write_length msg lf total size (omega arith)
    ∙ ap₂ (λ n f. msg ++ (0x80 ∷ (replicate n 0 ++ f))) e same_field
    ∙ ap (λ t. msg ++ (0x80 ∷ (t ++ lf'))) (sym (replicate-append 0 k 8))
    ∙ ap (λ t. msg ++ (0x80 ∷ t)) (append_assoc (replicate k 0) (replicate 8 0) lf')

pub pad_message-pad :
    (a : Algorithm) (msg : List ℕ)
    → IsAlgorithm a
    → length msg < 2 ^ 32 - 256
    → pad_message a msg (blocks_for a (length msg)) ≡ pad (engine_of a.id) msg
unfolding pad_message store_be64
pad_message-pad a msg is_md5 h =
    let bits = u64 (length msg * 8) in
    short_field msg (length_field md5_alg bits) (store_le64 bits)
      (blocks_for md5_alg (length msg) * 64) (block_count md5_engine (length msg) * 64)
      (length-length_field md5_alg bits)
      (omega (arith, blocks_for_least md5_alg (length msg) is_md5 h))
      (ap (λ k. k * 64) (blocks_for-block_count md5_alg (length msg) is_md5 h))
      (field_md5 bits (omega arith))
pad_message-pad a msg is_sha1 h =
    let bits = u64 (length msg * 8) in
    short_field msg (length_field sha1_alg bits) (store_be64_words bits)
      (blocks_for sha1_alg (length msg) * 64) (block_count sha1_engine (length msg) * 64)
      (length-length_field sha1_alg bits)
      (omega (arith, blocks_for_least sha1_alg (length msg) is_sha1 h))
      (ap (λ k. k * 64) (blocks_for-block_count sha1_alg (length msg) is_sha1 h))
      (field_sha1 bits (omega arith))
pad_message-pad a msg is_sha512 h =
    let bits = u64 (length msg * 8) in
    long_field msg (length_field sha512_alg bits) (store_be64 bits)
      (blocks_for sha512_alg (length msg) * 128) (block_count sha512_engine (length msg) * 128)
      (length-length_field sha512_alg bits)
      (omega (arith, blocks_for_least sha512_alg (length msg) is_sha512 h))
      (ap (λ k. k * 128) (blocks_for-block_count sha512_alg (length msg) is_sha512 h))
      (field_sha512 bits)

respell :
    (a : Algorithm) (msg : List ℕ)
    → IsAlgorithm a
    → length msg < 2 ^ 32 - 256
    → let e = engine_of a.id in
      let blocks = blocks_for a (length msg) in
      e.store_state (foldl e.compress e.iv (chunks e.block_len blocks (pad_message a msg blocks)))
      ≡ digest e msg
respell a msg alg h =
    let e = engine_of a.id in
    ap₂ (λ n p. e.store_state (foldl e.compress e.iv (chunks e.block_len n p)))
      (blocks_for-block_count a (length msg) alg h) (pad_message-pad a msg alg h)

-- The digest that each descriptor's `hash` gives is the compression, from the initial state, of
-- the blocks that the corpus builder cuts from the padded message.
pub hash-pad_message :
    (a : Algorithm) (msg : List ℕ)
    → IsAlgorithm a
    → length msg < 2 ^ 32 - 256
    → let e = engine_of a.id in
      let blocks = blocks_for a (length msg) in
      a.hash msg
      ≡ e.store_state
          (foldl e.compress e.iv (chunks a.block_bytes blocks (pad_message a msg blocks)))
unfolding md5_thunk sha1_thunk sha512_thunk md5 sha1 sha512
hash-pad_message a msg is_md5 h =
    hash-digest md5_engine md5-IsEngine (local_ctx 64) msg refl ∙ sym (respell md5_alg msg is_md5 h)
hash-pad_message a msg is_sha1 h =
    hash-digest sha1_engine sha1-IsEngine (local_ctx 64) msg refl
    ∙ sym (respell sha1_alg msg is_sha1 h)
hash-pad_message a msg is_sha512 h =
    hash-digest sha512_engine sha512-IsEngine (local_ctx 128) msg refl
    ∙ sym (respell sha512_alg msg is_sha512 h)
