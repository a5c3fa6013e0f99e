-- ===== src/Hash/Big.antt =====
-- The big-endian loads and stores of src/reference: what a store writes, the load reads back.
use valubench.Prelude.{ℕ, ◌+◌, ◌*◌, ◌^◌, ◌<◌, ◌≡◌, refl, ap, ◌∙◌, arith, bit_or}
use valubench.Prelude.{u8, u64, ◌<<<◌, ◌>>>◌, List, for_range, for_range_inv}
use valubench.Bits.Big.{big_sum, join_byte}
use valubench.Bits.Bound.{or-lt}
use valubench.Hash.Bytes.{byte_at, load_be32, store_be32, load_be64, store_be64}

-- A load reads `n` bytes from its offset on and nothing else.
abbrev pub ReadsOnly : ℕ → (List ℕ → ℕ → ℕ) → Type 0
ReadsOnly n load =
    (p q : List ℕ) (i j : ℕ)
    → ((k : ℕ) → k < n → byte_at p (i + k) ≡ byte_at q (j + k))
    → load p i ≡ load q j

pub load_be32-ReadsOnly : ReadsOnly 4 load_be32
unfolding load_be32
load_be32-ReadsOnly p q i j same =
    let here : byte_at p i ≡ byte_at q j =
      ap (byte_at p) {x = i} {y = i + 0} (omega arith)
      ∙ same 0 (omega arith)
      ∙ ap (byte_at q) {x = j + 0} {y = j} (omega arith) in
    rw (here, same 1 (omega arith), same 2 (omega arith), same 3 (omega arith)) refl

pub load_be64-ReadsOnly : ReadsOnly 8 load_be64
unfolding load_be64
load_be64-ReadsOnly p q i j same =
    rw
      (
        same 0 (omega arith),
        same 1 (omega arith),
        same 2 (omega arith),
        same 3 (omega arith),
        same 4 (omega arith),
        same 5 (omega arith),
        same 6 (omega arith),
        same 7 (omega arith),
      )
      refl

pub load_be32-store_be32 : (v : ℕ) → v < 2 ^ 32 → load_be32 (store_be32 v) 0 ≡ v
unfolding load_be32 store_be32
load_be32-store_be32 v h =
    big_sum (u8 (v >>> 24)) (u8 (v >>> 16)) (u8 (v >>> 8)) (u8 v) (omega arith) (omega arith)
      (omega arith)
    ∙ omega arith

-- A turn of the load's loop, from what the turns before it have made.
turn :
    (t u x y : ℕ)
    → t ≡ u
    → u < 2 ^ 56
    → x < 2 ^ 8
    → u * 2 ^ 8 + x ≡ y
    → bit_or (u64 (t <<< 8)) x ≡ y
turn t u x y e hu hx sum = ap (λ t. bit_or (u64 (t <<< 8)) x) e ∙ join_byte u x hu hx ∙ sum

pub load_be64-store_be64 : (v : ℕ) → v < 2 ^ 64 → load_be64 (store_be64 v) 0 ≡ v
unfolding load_be64 store_be64
load_be64-store_be64 v h =
    let e0 = turn 0 0 (u8 (v >>> 56)) (v >>> 56) refl (omega arith) (omega arith) (omega arith) in
    let e1 =
      turn _ (v >>> 56) (u8 (v >>> 48)) (v >>> 48) e0 (omega arith) (omega arith) (omega arith) in
    let e2 =
      turn _ (v >>> 48) (u8 (v >>> 40)) (v >>> 40) e1 (omega arith) (omega arith) (omega arith) in
    let e3 =
      turn _ (v >>> 40) (u8 (v >>> 32)) (v >>> 32) e2 (omega arith) (omega arith) (omega arith) in
    let e4 =
      turn _ (v >>> 32) (u8 (v >>> 24)) (v >>> 24) e3 (omega arith) (omega arith) (omega arith) in
    let e5 =
      turn _ (v >>> 24) (u8 (v >>> 16)) (v >>> 16) e4 (omega arith) (omega arith) (omega arith) in
    let e6 =
      turn _ (v >>> 16) (u8 (v >>> 8)) (v >>> 8) e5 (omega arith) (omega arith) (omega arith) in
    turn _ (v >>> 8) (u8 (v >>> 0)) v e6 (omega arith) (omega arith) (omega arith)

-- A loaded word has as many bits as its type.
pub load_be64-lt :
    (p : List ℕ) (off : ℕ) → ((i : ℕ) → byte_at p i < 2 ^ 8) → load_be64 p off < 2 ^ 64
unfolding load_be64
load_be64-lt p off small =
    for_range_inv (λ i v. v < 2 ^ 64) (λ i v. bit_or (u64 (v <<< 8)) (byte_at p (off + i)))
      (λ i v h.
        or-lt 64 (u64 (v <<< 8)) (byte_at p (off + i)) (omega arith)
          (omega (arith, small (off + i))))
      8 0 8 0 refl (omega arith)

pub load_be32-sum :
    (p : List ℕ) (off : ℕ)
    → ((i : ℕ) → byte_at p i < 2 ^ 8)
    → load_be32 p off
      ≡ byte_at p off * 2 ^ 24
        + byte_at p (off + 1) * 2 ^ 16
        + byte_at p (off + 2) * 2 ^ 8
        + byte_at p (off + 3)
unfolding load_be32
load_be32-sum p off small =
    big_sum (byte_at p off) (byte_at p (off + 1)) (byte_at p (off + 2)) (byte_at p (off + 3))
      (small (off + 1)) (small (off + 2)) (small (off + 3))

pub load_be32-lt :
    (p : List ℕ) (off : ℕ) → ((i : ℕ) → byte_at p i < 2 ^ 8) → load_be32 p off < 2 ^ 32
load_be32-lt p off small =
    omega (
      arith,
      load_be32-sum p off small,
      small off,
      small (off + 1),
      small (off + 2),
      small (off + 3),
    )

-- The corpus builder's loop loads the same word.
pub loop-load_be32 :
    (p : List ℕ) (off : ℕ)
    → ((i : ℕ) → byte_at p i < 2 ^ 8)
    → for_range 4 0 (λ i v. bit_or (u64 (v <<< 8)) (byte_at p (off + i))) 0 ≡ load_be32 p off
loop-load_be32 p off small =
    let a = byte_at p (off + 0) in
    let b = byte_at p (off + 1) in
    let c = byte_at p (off + 2) in
    let d = byte_at p (off + 3) in
    let e0 = turn 0 0 a a refl (omega arith) (small (off + 0)) (omega arith) in
    let e1 =
      turn _ a b (a * 2 ^ 8 + b) e0 (omega (arith, small (off + 0))) (small (off + 1)) refl in
    let e2 =
      turn _ (a * 2 ^ 8 + b) c ((a * 2 ^ 8 + b) * 2 ^ 8 + c) e1
        (omega (arith, small (off + 0), small (off + 1))) (small (off + 2)) refl in
    turn _ ((a * 2 ^ 8 + b) * 2 ^ 8 + c) d (((a * 2 ^ 8 + b) * 2 ^ 8 + c) * 2 ^ 8 + d) e2
      (omega (arith, small (off + 0), small (off + 1), small (off + 2))) (small (off + 3)) refl
    ∙ omega (arith, load_be32-sum p off small, ap (byte_at p) {x = off + 0} {y = off} (omega arith))
