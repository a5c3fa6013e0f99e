-- ===== src/Kernel/Sha/Streams.antt =====
-- One stream of the frame: the kernel chains its blocks as the reference's compression function does.
use valubench.Prelude.{
  ℕ, zero, suc, ◌+◌, ◌*◌, ◌%◌, ◌^◌, ◌≤◌, ◌<◌, ◌≡◌, refl, sym, ap, ap₂, ◌∙◌, arith, bit_xor, ◌⊎◌,
  inl, inr,
}
use valubench.Prelude.{
  List, [], ◌∷◌, ◌++◌, length, get_or, map, take, drop, foldl, chunks, for_range, write_at, ◌==◌,
  false, if◌then◌else◌,
}
use valubench.Prelude.{
  length-map, length-for_range, length-write_at, get_or-map, get_or-for_range, get_or-left,
  get_or-write_head, drop-drop, list_ext,
}
use valubench.Hash.Stream.{Engine}
use valubench.Kernel.Isa.{Simd}
use valubench.Kernel.Sha.{Rounds, S, act_stream, chain_block, load_words, start_block}
use valubench.Kernel.Sha.Windows.{lanes_at}

abbrev pub AllBelow : ℕ → List ℕ → Type 0
AllBelow bound [] = Unit {0}
AllBelow bound (x ∷ xs) = (x < bound) × AllBelow bound xs

pub AllBelow-at :
    (bound : ℕ) (xs : List ℕ) (j : ℕ) → 0 < bound → AllBelow bound xs → get_or xs j 0 < bound
AllBelow-at bound [] j pos all = pos
AllBelow-at bound (x ∷ xs) zero pos all = all.0
AllBelow-at bound (x ∷ xs) (suc j) pos all = AllBelow-at bound xs j pos all.1

-- `n` words of `w` bits.
pub record IsState (n w : ℕ) (st : List ℕ) : Type 0 where
  pub size : length st ≡ n
  pub small : (j : ℕ) → get_or st j 0 < 2 ^ w

-- The words of a block of sixteen, of `wb` bytes each.
abbrev pub block_words : (List ℕ → ℕ → ℕ) → ℕ → List ℕ → List ℕ
block_words load wb block = for_range 16 0 (λ i w. w ++ (load block (i * wb) ∷ [])) []

-- The lines that the template adds compute the engine's compression function on every lane, and its
-- words are those that the engine loads and stores.
pub record Computes (v : Simd) (r : Rounds v.Vec) (e : Engine) (n wb w : ℕ) (load : List ℕ → ℕ → ℕ)
    : Type 0 where
  pub some_lanes : 0 < v.lanes
  pub bounded : (x : v.Vec) (l : ℕ) → l < v.lanes → v.store x l < 2 ^ w
  pub on_zero : (l : ℕ) → l < v.lanes → v.store (v.set1 0) l ≡ 0
  pub on_xor :
      (x y : v.Vec) (l : ℕ)
      → l < v.lanes
      → v.store (v.xor x y) l ≡ bit_xor (v.store x l) (v.store y l)
  pub on_load :
      (mem : ℕ → ℕ) (p l : ℕ) → l < v.lanes → v.store (v.load mem p) l ≡ mem (p + l) % 2 ^ w
  pub few : n ≤ 8
  pub length_iv : length r.iv ≡ n
  pub initial : (l : ℕ) → l < v.lanes → lanes_at v l (map v.set1 r.iv) ≡ e.iv
  pub iv_state : IsState n w e.iv
  pub compress_state : (st block : List ℕ) → IsState n w (e.compress st block)
  pub on_block :
      (l : ℕ) (block : List ℕ) (h x : List v.Vec)
      → l < v.lanes
      → lanes_at v l x ≡ block_words load wb block
      → lanes_at v l
          (r.chain h (foldl (λ x t. r.act t x) (record { w = x; r = r.set_regs h }) r.acts).r)
        ≡ e.compress (lanes_at v l h) block
  pub block_size : e.block_len ≡ 16 * wb
  pub load_block :
      (p : List ℕ) (b j : ℕ)
      → j < 16
      → load (take e.block_len (drop (b * e.block_len) p)) (j * wb)
        ≡ load p (b * e.block_len + j * wb)
  pub load_past :
      (bytes p : List ℕ) (off : ℕ) → length bytes ≤ off → load (write_at 0 bytes p) off ≡ load p off
  pub length_stored : (st : List ℕ) → IsState n w st → length (e.store_state st) ≡ n * wb
  pub load_stored :
      (st p : List ℕ) (j : ℕ)
      → IsState n w st
      → j < n
      → load (write_at 0 (e.store_state st) p) (j * wb) ≡ get_or st j 0

suc-ne_zero : (b : ℕ) → (suc b == 0) ≡ false
suc-ne_zero b = ground arith

module _ (v : Simd) (r : Rounds v.Vec) (corpus : ℕ → ℕ) where
  -- What the loop over blocks does to one stream.
  unfoldable pub stream_block : ℕ → S v r → S v r
  stream_block b s =
      chain_block v r (foldl (λ s t. act_stream v r t s) (start_block v r corpus b s) r.acts)

  abbrev run_acts : List r.Act → S v r → S v r
  run_acts ts s = foldl (λ s t. act_stream v r t s) s ts

  -- The lines change the window and the registers only.
  run_acts-x :
      (ts : List r.Act) (s : S v r)
      → run_acts ts s ≡ record s { x = foldl (λ x t. r.act t x) s.x ts }
  unfolding act_stream
  run_acts-x [] s = refl
  run_acts-x (t ∷ ts) s = run_acts-x ts (act_stream v r t s)

  pub stream_block-slot : (b : ℕ) (s : S v r) → (stream_block b s).slot ≡ s.slot
  unfolding stream_block chain_block start_block
  stream_block-slot b s = ap (λ t. t.slot) (run_acts-x r.acts (start_block v r corpus b s))

  module _ (e : Engine) (n wb w : ℕ) (load : List ℕ → ℕ → ℕ) (c : Computes v r e n wb w load)
      (l : ℕ) (inside : l < v.lanes) where
    abbrev lanes : List v.Vec → List ℕ
    lanes x = lanes_at v l x

    lane_at : (x : List v.Vec) (j : ℕ) → get_or (lanes x) j 0 ≡ v.store (get_or x j (v.set1 0)) l
    lane_at x j =
        ap (get_or (lanes x) j) (sym (c.on_zero l inside))
        ∙ get_or-map (λ x. v.store x l) x j (v.set1 0)

    -- The digest words that are fed in, and all words but those, are the words of the message `q`.
    pub record Head (q : List ℕ) (fb : List v.Vec) : Type 0 where
      pub size : length fb ≡ n
      pub at : (j : ℕ) → j < n → v.store (get_or fb j (v.set1 0)) l ≡ load q (j * wb)

    abbrev pub Rest : List ℕ → ℕ → ℕ → Type 0
    Rest q slot blocks =
        (b j : ℕ)
        → b < blocks
        → j < 16
        → (0 < b) ⊎ (n ≤ j)
        → v.store (v.load corpus (slot + b * (16 * v.lanes) + j * v.lanes)) l
          ≡ load q (b * e.block_len + j * wb)

    module _ (q : List ℕ) (slot blocks : ℕ) (rest : Rest q slot blocks) where
      loaded : ℕ → List v.Vec
      loaded b = load_words v r corpus 16 (slot + b * (16 * v.lanes))

      length-loaded : (b : ℕ) → length (loaded b) ≡ 16
      unfolding loaded load_words
      length-loaded b =
          length-for_range (λ j. v.load corpus (slot + b * (16 * v.lanes) + j * v.lanes)) 16
            (v.set1 0)

      loaded-at :
          (b j : ℕ)
          → b < blocks
          → j < 16
          → (0 < b) ⊎ (n ≤ j)
          → v.store (get_or (loaded b) j (v.set1 0)) l ≡ load q (b * e.block_len + j * wb)
      unfolding loaded load_words
      loaded-at b j hb hj which =
          ap (λ x. v.store x l)
            (get_or-for_range (λ j. v.load corpus (slot + b * (16 * v.lanes) + j * v.lanes)) 16 j
              (v.set1 0) hj)
          ∙ rest b j hb hj which

      -- A window with the right word in every slot.
      window-block_words :
          (b : ℕ) (x : List v.Vec)
          → length x ≡ 16
          → ((j : ℕ)
              → j < 16
              → v.store (get_or x j (v.set1 0)) l ≡ load q (b * e.block_len + j * wb))
          → lanes x ≡ block_words load wb (take e.block_len (drop (b * e.block_len) q))
      window-block_words b x size at =
          let block = take e.block_len (drop (b * e.block_len) q) in
          list_ext (lanes x) (block_words load wb block) 0
            (length-map (λ x. v.store x l) x
              ∙ size
              ∙ sym (length-for_range (λ i. load block (i * wb)) 16 0))
            (λ j h.
              let lt : j < 16 = omega (arith, h, length-map (λ x. v.store x l) x, size) in
              lane_at x j
              ∙ at j lt
              ∙ sym (c.load_block q b j lt)
              ∙ sym (get_or-for_range (λ i. load block (i * wb)) 16 j 0 lt))

      overwritten :
          (fb : List v.Vec) (j : ℕ)
          → 0 < blocks
          → Head q fb
          → j < 16
          → v.store (get_or (write_at 0 fb (loaded 0)) j (v.set1 0)) l ≡ load q (j * wb)
      overwritten fb j some_blocks head hj = elim (near_or_far j) [
        | inl near ↦
            ap (λ x. v.store x l)
              (get_or-left fb (drop (0 + length fb) (loaded 0)) j (v.set1 0)
                (omega (arith, near, head.size)))
            ∙ head.at j near
        | inr far ↦
            ap (λ x. v.store x l)
              (get_or-write_head fb (loaded 0) j (v.set1 0) (omega (arith, far, head.size)))
            ∙ loaded-at 0 j some_blocks hj (inr far)
            ∙ ap (load q) (omega arith)
      ]
        where
          near_or_far : (j : ℕ) → (j < n) ⊎ (n ≤ j)
          near_or_far j = omega arith

      length-overwritten :
          (fb : List v.Vec) → length fb ≡ n → length (write_at 0 fb (loaded 0)) ≡ 16
      length-overwritten fb size =
          length-write_at 0 fb (loaded 0) (omega (arith, size, length-loaded 0, c.few))
          ∙ length-loaded 0

      -- The window that block `b` starts with.
      start_window :
          (b : ℕ) (fb : List v.Vec)
          → b < blocks
          → (b ≡ 0 → Head q fb)
          → lanes (if b == 0 then write_at 0 fb (loaded b) else loaded b)
            ≡ block_words load wb (take e.block_len (drop (b * e.block_len) q))
      start_window zero fb hb head =
          window-block_words 0 (write_at 0 fb (loaded 0)) (length-overwritten fb (head refl).size)
            (λ j hj. overwritten fb j hb (head refl) hj ∙ ap (load q) (omega arith))
      start_window (suc b) fb hb head = rw (suc-ne_zero b) (
          window-block_words (suc b) (loaded (suc b)) (length-loaded (suc b))
            (λ j hj. loaded-at (suc b) j hb hj (inl (omega arith))))

      stream_block-compress :
          (b : ℕ) (s : S v r)
          → s.slot ≡ slot
          → b < blocks
          → (b ≡ 0 → Head q s.fb)
          → lanes (stream_block b s).h
            ≡ e.compress (lanes s.h) (take e.block_len (drop (b * e.block_len) q))
      unfolding stream_block chain_block start_block loaded
      stream_block-compress b s place hb head =
          let at : load_words v r corpus 16 (s.slot + b * (16 * v.lanes)) ≡ loaded b =
            ap (λ t. load_words v r corpus 16 (t + b * (16 * v.lanes))) place in
          ap (λ t. lanes (chain_block v r t).h) (run_acts-x r.acts (start_block v r corpus b s))
          ∙ c.on_block l (take e.block_len (drop (b * e.block_len) q)) s.h
              (start_block v r corpus b s).x.w inside
              (ap (λ x. lanes (if b == 0 then write_at 0 s.fb x else x)) at
                ∙ start_window b s.fb hb head)

      -- From block `b` on, the chaining state folds the rest of the message.
      pub blocks-foldl :
          (m b : ℕ) (s : S v r)
          → b + m ≡ blocks
          → s.slot ≡ slot
          → (b ≡ 0 → Head q s.fb)
          → lanes (for_range m b stream_block s).h
            ≡ foldl e.compress (lanes s.h) (chunks e.block_len m (drop (b * e.block_len) q))
      blocks-foldl zero b s e' place head = refl
      blocks-foldl (suc m) b s e' place head =
          blocks-foldl m (b + 1) (stream_block b s) (omega arith) (stream_block-slot b s ∙ place)
            (λ z. absurd (omega arith))
          ∙ ap₂ (λ st cs. foldl e.compress st cs)
              (stream_block-compress b s place (omega arith) head)
              (ap (λ k. chunks e.block_len m (drop k q)) {x = (b + 1) * e.block_len} (omega arith)
                ∙ ap (chunks e.block_len m) (sym (drop-drop e.block_len (b * e.block_len) q)))
