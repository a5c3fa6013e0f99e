-- ===== src/Workload/Bytes.antt =====
-- Every element of a message, padded or not, is a byte; so its little-endian words are those that
-- src/reference/md5.c loads.
use valubench.Prelude.{ℕ, zero, suc, ◌+◌, ◌-◌, ◌*◌, ◌^◌, ◌<◌, ◌≡◌, refl, ap, ap₂, ◌∙◌, arith}
use mathlib.Core.Path.{subst}
use valubench.Prelude.{
  append-nil, length-append, u32, bit_or, u8, u64, ◌<<<◌, ◌>>>◌, List, [], ◌∷◌, ◌++◌, length,
  replicate, for_range, for_range_inv,
}
use valubench.Bits.Sum.{or-sum, zero-or}
use valubench.Hash.Bytes.{byte_at, load_le32, store_le32, store_le64}
use valubench.Hash.Md5.{md5_engine}
use valubench.Hash.Stream.Spec.{pad, block_count}
use valubench.Algorithm.{md5_alg}
use valubench.Workload.Message.{
  index_bytes, build_message, write_index, write_pattern, pattern_byte, load_word,
}

abbrev pub AllBytes : List ℕ → Type 0
AllBytes [] = Unit {0}
AllBytes (x ∷ xs) = (x < 2 ^ 8) × AllBytes xs

pub byte_at-lt : (p : List ℕ) (i : ℕ) → AllBytes p → byte_at p i < 2 ^ 8
byte_at-lt [] i all = omega arith
byte_at-lt (x ∷ p) zero all = all.0
byte_at-lt (x ∷ p) (suc i) all = byte_at-lt p i all.1

pub append-AllBytes : (p q : List ℕ) → AllBytes p → AllBytes q → AllBytes (p ++ q)
append-AllBytes [] q all all' = all'
append-AllBytes (x ∷ p) q all all' = (all.0, append-AllBytes p q all.1 all')

pub zeros-AllBytes : (n : ℕ) → AllBytes (replicate n 0)
zeros-AllBytes zero = tt
zeros-AllBytes (suc n) = (omega arith, zeros-AllBytes n)

pushed-AllBytes :
    (f : ℕ → ℕ) (n k stop : ℕ) (out : List ℕ)
    → k + n ≡ stop
    → ((i : ℕ) → f i < 2 ^ 8)
    → AllBytes out
    → AllBytes (for_range n k (λ i out. out ++ (f i ∷ [])) out)
pushed-AllBytes f n k stop out e small all =
    for_range_inv (λ i out. AllBytes out) (λ i out. out ++ (f i ∷ []))
      (λ i out h. append-AllBytes out (f i ∷ []) h (small i, tt)) n k stop out e all

pub build_message-AllBytes : (index bytes : ℕ) → AllBytes (build_message index bytes)
unfolding build_message write_index write_pattern pattern_byte
build_message-AllBytes index bytes =
    let n = index_bytes bytes in
    pushed-AllBytes pattern_byte (bytes - n) n (n + (bytes - n)) (write_index index n) refl
      (λ i. omega arith)
      (pushed-AllBytes (λ i. u8 (index >>> (8 * i))) n 0 (0 + n) [] refl (λ i. omega arith) tt)

store_le32-AllBytes : (v : ℕ) (q : List ℕ) → AllBytes q → AllBytes (store_le32 v ++ q)
unfolding store_le32
store_le32-AllBytes v q all = (omega arith, (omega arith, (omega arith, (omega arith, all))))

store_le64-AllBytes : (v : ℕ) → AllBytes (store_le64 v)
unfolding store_le64
store_le64-AllBytes v = store_le32-AllBytes (u32 v) (store_le32 (u32 (v >>> 32))) (
    subst AllBytes (append-nil (store_le32 (u32 (v >>> 32))))
      (store_le32-AllBytes (u32 (v >>> 32)) [] tt))

pub pad-AllBytes : (msg : List ℕ) → AllBytes msg → AllBytes (pad md5_engine msg)
pad-AllBytes msg all =
    let n = length msg in
    let zeros = block_count md5_engine n * 64 - n - 1 - 8 in
    append-AllBytes msg (0x80 ∷ (replicate zeros 0 ++ store_le64 (u64 (n * 8)))) all (
      omega arith,
      append-AllBytes (replicate zeros 0) (store_le64 (u64 (n * 8))) (zeros-AllBytes zeros)
          (store_le64-AllBytes (u64 (n * 8))),
    )

pub words-AllBytes : (a b c d : ℕ) → AllBytes (md5_engine.store_state (a ∷ b ∷ c ∷ d ∷ []))
words-AllBytes a b c d =
    store_le32-AllBytes a _
      (store_le32-AllBytes b _ (store_le32-AllBytes c _ (store_le32-AllBytes d [] tt)))

-- Four bytes, as the loop of the corpus builder joins them and as the reference does.
module _ (a b c d : ℕ) (ha : a < 2 ^ 8) (hb : b < 2 ^ 8) (hc : c < 2 ^ 8) (hd : d < 2 ^ 8) where
  abbrev joined : ℕ
  joined = bit_or (bit_or (bit_or a (b <<< 8)) (c <<< 16)) (d <<< 24)

  loop-joined :
      bit_or
        (bit_or (bit_or (bit_or 0 (u64 (a <<< 0))) (u64 (b <<< 8))) (u64 (c <<< 16)))
        (u64 (d <<< 24))
      ≡ joined
  loop-joined =
      let ea : bit_or 0 (u64 (a <<< 0)) ≡ a = zero-or (u64 (a <<< 0)) ∙ omega arith in
      let eb : u64 (b <<< 8) ≡ b <<< 8 = omega arith in
      let ec : u64 (c <<< 16) ≡ c <<< 16 = omega arith in
      let ed : u64 (d <<< 24) ≡ d <<< 24 = omega arith in
      ap₂ bit_or (ap₂ bit_or (ap₂ bit_or ea eb) ec) ed

  joined-lt : joined < 2 ^ 32
  joined-lt =
      let one = or-sum 8 a b ha in
      let two = or-sum 16 (a + b * 2 ^ 8) c (omega arith) in
      let three = or-sum 24 (a + b * 2 ^ 8 + c * 2 ^ 16) d (omega arith) in
      let all : joined ≡ a + b * 2 ^ 8 + c * 2 ^ 16 + d * 2 ^ 24 =
        ap (λ t. bit_or (bit_or t (c <<< 16)) (d <<< 24)) one
        ∙ ap (λ t. bit_or t (d <<< 24)) two
        ∙ three in
      omega (arith, all)

-- The corpus builder's load is the reference's.
pub load_word-load_le32 :
    (p : List ℕ) (off : ℕ) → AllBytes p → load_word md5_alg p off ≡ load_le32 p off
unfolding load_word load_le32
load_word-load_le32 p off all =
    let here : off + 0 ≡ off = omega arith in
    loop-joined (byte_at p (off + 0)) (byte_at p (off + 1)) (byte_at p (off + 2))
      (byte_at p (off + 3)) (byte_at-lt p (off + 0) all) (byte_at-lt p (off + 1) all)
      (byte_at-lt p (off + 2) all) (byte_at-lt p (off + 3) all)
    ∙ ap
        (λ k.
          bit_or
            (bit_or (bit_or (byte_at p k) (byte_at p (off + 1) <<< 8)) (byte_at p (off + 2) <<< 16))
            (byte_at p (off + 3) <<< 24))
        here

pub load_le32-lt : (p : List ℕ) (off : ℕ) → AllBytes p → load_le32 p off < 2 ^ 32
unfolding load_le32
load_le32-lt p off all =
    joined-lt (byte_at p off) (byte_at p (off + 1)) (byte_at p (off + 2)) (byte_at p (off + 3))
      (byte_at-lt p off all) (byte_at-lt p (off + 1) all) (byte_at-lt p (off + 2) all)
      (byte_at-lt p (off + 3) all)

pushed-length :
    (f : ℕ → ℕ) (n k stop : ℕ) (out : List ℕ)
    → k + n ≡ stop
    → length out ≡ k
    → length (for_range n k (λ i out. out ++ (f i ∷ [])) out) ≡ stop
pushed-length f n k stop out e h =
    for_range_inv (λ i out. length out ≡ i) (λ i out. out ++ (f i ∷ []))
      (λ i out p. omega (arith, length-append out (f i ∷ []), p)) n k stop out e h

pub length-build_message : (index bytes : ℕ) → length (build_message index bytes) ≡ bytes
unfolding build_message write_index write_pattern index_bytes
length-build_message index bytes =
    let n = index_bytes bytes in
    pushed-length pattern_byte (bytes - n) n bytes (write_index index n) (ground arith)
      (pushed-length (λ i. u8 (index >>> (8 * i))) n 0 n [] (omega arith) refl)
