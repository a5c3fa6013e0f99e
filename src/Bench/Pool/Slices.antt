-- ===== src/Bench/Pool/Slices.antt =====
-- What the MD5 kernel gives on a slice of a corpus.
use valubench.Prelude.{
  ℕ, ◌+◌, ◌-◌, ◌*◌, ◌/◌, ◌%◌, ◌^◌, ◌≤◌, ◌<◌, ◌≡◌, sym, ap, ◌∙◌, arith, u32, true,
}
use mathlib.Core.Path.{subst}
use native.Mathlib.Nat.{div-lt_iff_lt-mul, div-add-mod', mod-lt, mul-le-mul_right}
use valubench.Algorithm.{md5_alg, blocks_for}
use valubench.Workload.Corpus.{Corpus, Memory, padded_message, word_at}
use valubench.Workload.Corpus.Index.{mix_lt}
use valubench.Workload.Message.{build_message, pad_message}
use valubench.Workload.Corpus.Layout.{word_of}
use valubench.Workload.Reference.{reference_checksum}
use valubench.Workload.Reference.Ladder.{reference_checksum-checksum}
use valubench.Kernel.Ops.{Ops, IsOps}
use valubench.Kernel.Md5.{Quad, md5_kernel}
use valubench.Kernel.Md5.Exact.{address, Stored, kernel-xor_words}
use valubench.Kernel.Md5.Reference.{checksum-xor_words}

-- A message of the slice is one of the corpus.
slice-padded_message :
    (start bytes blocks first k : ℕ)
    → padded_message md5_alg start bytes blocks (first + k)
      ≡ padded_message md5_alg (u32 (start + u32 first)) bytes blocks k
unfolding padded_message
slice-padded_message start bytes blocks first k =
    ap (λ i. pad_message md5_alg (build_message i bytes) blocks) (omega arith)

message-split : (s m n l : ℕ) → (s + m) * n + l ≡ s * n + (m * n + l)
message-split s m n l = grind arith

fits-slice : (g n s l b : ℕ) → g ≤ n → n * s * l * b * 16 < 2 ^ 64 → g * s * l * b * 16 < 2 ^ 64
fits-slice g n s l b h k =
    let a = mul-le-mul_right s h in
    let c = mul-le-mul_right l a in
    let d = mul-le-mul_right b c in let e = mul-le-mul_right 16 d in omega (arith, e, k)

sum-split : (a b s : ℕ) → (a + b) * s ≡ a * s + b * s
sum-split a b s = grind arith

module _ (o : Ops) (ok : IsOps o) (narrow : o.lanes < 2 ^ 32) (unset : Quad o.Vec)
    (streams n_groups start bytes t : ℕ) (long : 16 ≤ bytes) (short : bytes < 2 ^ 32 - 256)
    (some_iterations : 0 < t) (c : Corpus) (sized : c.blocks ≡ blocks_for md5_alg bytes)
    (stored : Stored o ok narrow unset streams n_groups start bytes t long short some_iterations c
      sized)
    (fits : n_groups * streams * o.lanes * blocks_for md5_alg bytes * 16 < 2 ^ 64) (off groups : ℕ)
    (inside : off + groups ≤ n_groups) where
  abbrev n_blocks : ℕ
  n_blocks = blocks_for md5_alg bytes

  -- The slots before the slice.
  abbrev before : ℕ
  before = off * streams

  abbrev slice : Memory
  slice p = c.words (before * (n_blocks * 16 * o.lanes) + p)

  abbrev slice_start : ℕ
  slice_start = u32 (start + u32 (before * o.lanes))

  slot-below : (m : ℕ) → m < groups * streams → before + m < n_groups * streams
  slot-below m h = omega (arith, h, mul-le-mul_right streams inside, sum-split off groups streams)

  fits_slice : groups * streams * o.lanes * n_blocks * 16 < 2 ^ 64
  fits_slice = fits-slice groups n_groups streams o.lanes n_blocks (omega (arith, inside)) fits

  stored-at :
      (m l b j : ℕ)
      → m < groups * streams
      → l < o.lanes
      → b < n_blocks
      → j < 16
      → slice (word_at o.lanes n_blocks (m * o.lanes + l) b j)
        ≡ word_of md5_alg (padded_message md5_alg slice_start bytes n_blocks (m * o.lanes + l)) b j
  stored-at m l b j hm hl hb hj =
      let a = n_blocks * 16 * o.lanes in
      let rest = b * (16 * o.lanes) + j * o.lanes + l in
      let here =
        address o.lanes n_blocks (groups * streams) m l b j hl narrow fits_slice hm hb hj in
      let there =
        address o.lanes n_blocks (n_groups * streams) (before + m) l b j hl narrow fits
          (slot-below m hm) hb hj in
      let split = sum-split before m a in
      let same : before * a + word_at o.lanes n_blocks (m * o.lanes + l) b j
          ≡ word_at o.lanes n_blocks ((before + m) * o.lanes + l) b j =
        omega (arith, here, there, split) in
      ap c.words same
      ∙ stored ((before + m) * o.lanes + l) b j
          (mix_lt (before + m) l (n_groups * streams) o.lanes (slot-below m hm) hl) hb hj
      ∙ ap (λ p. word_of md5_alg p b j)
          (ap (padded_message md5_alg start bytes n_blocks) (message-split before m o.lanes l)
            ∙ slice-padded_message start bytes n_blocks (before * o.lanes) (m * o.lanes + l))

  abbrev slice_corpus : Corpus
  slice_corpus = record c { words = slice }

  slice-Stored :
      Stored o ok narrow unset streams groups slice_start bytes t long short some_iterations
        slice_corpus sized
  slice-Stored k b j hk hb hj =
      let e : k / o.lanes * o.lanes + k % o.lanes ≡ k = div-add-mod' k o.lanes in
      subst
        (λ k.
          slice (word_at o.lanes n_blocks k b j)
          ≡ word_of md5_alg (padded_message md5_alg slice_start bytes n_blocks k) b j)
        e
        (stored-at (k / o.lanes) (k % o.lanes) b j ((div-lt_iff_lt-mul ok.some_lanes).1 hk)
          (mod-lt k ok.some_lanes) hb hj)

  pub md5_kernel-slice :
      md5_kernel o slice unset streams groups n_blocks t
      ≡ reference_checksum true md5_alg slice_start (groups * streams * o.lanes) bytes t
  md5_kernel-slice =
      kernel-xor_words o ok narrow unset streams groups slice_start bytes t long short
        some_iterations slice_corpus sized slice-Stored fits_slice
      ∙ sym (
          reference_checksum-checksum md5_alg slice_start (groups * streams * o.lanes) bytes t
            some_iterations
          ∙ checksum-xor_words slice_start bytes t long short (groups * streams * o.lanes))
