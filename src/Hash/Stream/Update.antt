-- ===== src/Hash/Stream/Update.antt =====
-- `update` appends to the message that a context stands for, however the message is cut up.
use valubench.Prelude.{ℕ, zero, suc, ◌+◌, ◌≤◌, ◌<◌, ◌≡◌, refl, sym, ap, ◌∙◌, ◌≡⟨◌⟩◌, ◌∎, arith}
use valubench.Prelude.{false, inl, inr, ltb, leb, Bool-cases, leb→le, leb→lt, ltb→lt, ltb→le, u64}
use valubench.Prelude.{List, [], ◌∷◌, ◌++◌, length, take, drop, concat, AllSize, foldl, write_at}
use valubench.Prelude.{append-nil, append_assoc, length-append, length-take, length-drop}
use valubench.Prelude.{take-append-drop, length-write_at, take-write_at, take_all}
use valubench.Prelude.{concat-append, AllSize-append, eq-nil_of_length}
use mathlib.Core.List.{foldl-append}
use valubench.Hash.Stream.{Engine, Ctx, init, compress_blocks, absorb, take_len, top_up, update}
use valubench.Hash.Stream.Spec.{IsEngine, Represents, fold_blocks}

-- What the loop over whole blocks made of its input.
record Consumed (e : Engine) (state p : List ℕ) (result : List ℕ × List ℕ) : Type 0 where
  blocks : List (List ℕ)
  sized : AllSize e.block_len blocks
  split : p ≡ concat blocks ++ result.1
  folded : result.0 ≡ foldl e.compress state blocks
  short : length result.1 < e.block_len

module _ (e : Engine) (law : IsEngine e) where
  length-drop-lt :
      (n : ℕ) (p : List ℕ)
      → e.block_len ≤ length p
      → length p ≤ suc n
      → length (drop e.block_len p) ≤ n
  length-drop-lt n p big h = omega (arith, length-drop e.block_len p, law.length_fits)

  compress_blocks-Consumed :
      (fuel : ℕ) (state p : List ℕ)
      → length p ≤ fuel
      → Consumed e state p (compress_blocks e fuel state p)
  unfolding compress_blocks
  compress_blocks-Consumed zero state p h = record {
    blocks = [];
    sized = tt;
    split = refl;
    folded = refl;
    short = omega (arith, law.length_fits);
  }
  compress_blocks-Consumed (suc fuel) state p h = elim (Bool-cases (leb e.block_len (length p))) [
    | inl big ↦
        let fits = leb→le e.block_len (length p) big in
        let rest =
          compress_blocks-Consumed fuel (e.compress state (take e.block_len p)) (drop e.block_len p)
            (length-drop-lt fuel p fits h) in
        rw (big, compress_blocks)
          (record {
            blocks = take e.block_len p ∷ rest.blocks;
            sized = (omega (arith, length-take e.block_len p), rest.sized);
            split =
                sym (take-append-drop e.block_len p)
                ∙ ap (λ t. take e.block_len p ++ t) rest.split
                ∙ sym (append_assoc (take e.block_len p) (concat rest.blocks) _);
            folded = rest.folded;
            short = rest.short;
          })
    | inr small ↦
        rw (small, compress_blocks)
          (record {
            blocks = [];
            sized = tt;
            split = refl;
            folded = refl;
            short = leb→lt e.block_len (length p) small;
          })
  ]

  -- From an empty buffer, with the blocks `done` in the state.
  absorb-Represents :
      (done : List (List ℕ)) (ctx : Ctx) (p : List ℕ)
      → AllSize e.block_len done
      → ctx.state ≡ fold_blocks e done
      → ctx.total_len ≡ u64 (length (concat done ++ p))
      → length ctx.buf ≡ e.block_len
      → ctx.buf_len ≡ 0
      → Represents e (concat done ++ p) (absorb e ctx p)
  unfolding absorb
  absorb-Represents done ctx p sized folded total room empty =
      elim (Bool-cases (ltb 0 (length rest))) [
        | inl more ↦ rw more (record {
          blocks = done ++ c.blocks;
          tail = rest;
          sized = all_sized;
          split = split;
          state_of = state_of;
          total = total;
          room = length-write_at 0 rest ctx.buf (omega (arith, c.short)) ∙ room;
          count = refl;
          short = c.short;
          held = take-write_at 0 (length rest) rest ctx.buf (omega arith) (omega arith);
        })
        | inr none_left ↦ rw none_left (record {
          blocks = done ++ c.blocks;
          tail = rest;
          sized = all_sized;
          split = split;
          state_of = state_of;
          total = total;
          room = room;
          count = omega (arith, ltb→le 0 (length rest) none_left);
          short = c.short;
          held =
              rw (empty, eq-nil_of_length rest (omega (arith, ltb→le 0 (length rest) none_left)));
        })
      ]
    where
      c : Consumed e ctx.state p (compress_blocks e (length p) ctx.state p)
      c = compress_blocks-Consumed (length p) ctx.state p (omega arith)

      rest : List ℕ
      rest = (compress_blocks e (length p) ctx.state p).1

      all_sized : AllSize e.block_len (done ++ c.blocks)
      all_sized = AllSize-append e.block_len done c.blocks sized c.sized

      split : concat done ++ p ≡ concat (done ++ c.blocks) ++ rest
      split =
          ap (λ t. concat done ++ t) c.split
          ∙ sym (append_assoc (concat done) (concat c.blocks) rest)
          ∙ ap (λ t. t ++ rest) (sym (concat-append done c.blocks))

      state_of : (compress_blocks e (length p) ctx.state p).0 ≡ fold_blocks e (done ++ c.blocks)
      state_of =
          c.folded
          ∙ ap (λ s. foldl e.compress s c.blocks) folded
          ∙ sym (foldl-append e.compress e.iv done c.blocks)

  module _ (msg p : List ℕ) (ctx : Ctx) (r : Represents e msg ctx) where
    abbrev piece : List ℕ
    piece = take (take_len e ctx.buf_len p) p

    abbrev filled : List ℕ
    filled = write_at ctx.buf_len piece ctx.buf

    length-piece : length piece ≡ take_len e ctx.buf_len p
    unfolding take_len
    length-piece = ground (arith, length-take (take_len e ctx.buf_len p) p)

    fits : ctx.buf_len + length piece ≤ length ctx.buf
    unfolding take_len
    fits = ground (arith, length-piece, r.room, r.count, r.short)

    room-filled : length filled ≡ e.block_len
    room-filled = length-write_at ctx.buf_len piece ctx.buf fits ∙ r.room

    held-filled : take (ctx.buf_len + take_len e ctx.buf_len p) filled ≡ r.tail ++ piece
    held-filled =
        take-write_at ctx.buf_len (ctx.buf_len + take_len e ctx.buf_len p) piece ctx.buf
          (omega (arith, fits)) (omega (arith, length-piece))
        ∙ ap (λ t. t ++ piece) r.held

    -- The input did not fill the block: all of it stands in the buffer.
    whole_piece : ctx.buf_len + take_len e ctx.buf_len p < e.block_len → piece ≡ p
    unfolding take_len
    whole_piece h = take_all (take_len e ctx.buf_len p) p (ground arith)

    -- The input filled the block, which is the tail and the piece.
    full_block : e.block_len ≤ ctx.buf_len + take_len e ctx.buf_len p → filled ≡ r.tail ++ piece
    full_block h =
        sym (take_all (ctx.buf_len + take_len e ctx.buf_len p) filled (omega (arith, room-filled)))
        ∙ held-filled

    regroup :
        e.block_len ≤ ctx.buf_len + take_len e ctx.buf_len p
        → msg ++ p ≡ concat (r.blocks ++ filled ∷ []) ++ drop (take_len e ctx.buf_len p) p
    regroup h =
        msg ++ p
        ≡⟨ ap (λ t. t ++ p) r.split ⟩ (concat r.blocks ++ r.tail) ++ p
        ≡⟨ ap (λ t. (concat r.blocks ++ r.tail) ++ t)
            (sym (take-append-drop (take_len e ctx.buf_len p) p)) ⟩
          (concat r.blocks ++ r.tail) ++ (piece ++ drop (take_len e ctx.buf_len p) p)
        ≡⟨ (simp (append_assoc, append-nil, concat-append, full_block h)) ⟩
          concat (r.blocks ++ filled ∷ []) ++ drop (take_len e ctx.buf_len p) p ∎

    crossed : ℕ → Ctx
    crossed t = record ctx {
      state = e.compress ctx.state filled;
      total_len = t;
      buf = filled;
      buf_len = 0;
    }

    crossing :
        (t : ℕ)
        → t ≡ u64 (length (msg ++ p))
        → e.block_len ≤ ctx.buf_len + take_len e ctx.buf_len p
        → Represents e (msg ++ p) (absorb e (crossed t) (drop (take_len e ctx.buf_len p) p))
    unfolding crossed
    crossing t total h = rw (regroup h) (
        absorb-Represents (r.blocks ++ filled ∷ []) (crossed t) (drop (take_len e ctx.buf_len p) p)
          (AllSize-append e.block_len r.blocks (filled ∷ []) r.sized (room-filled, tt))
          (ap (λ s. e.compress s filled) r.state_of
            ∙ sym (foldl-append e.compress e.iv r.blocks (filled ∷ [])))
          (rw (← regroup h) total) room-filled refl)

    top_up-Represents :
        (t : ℕ)
        → t ≡ u64 (length (msg ++ p))
        → Represents e (msg ++ p) (top_up e (record ctx { total_len = t }) p)
    unfolding top_up crossed
    top_up-Represents t total =
        elim (Bool-cases (ltb (ctx.buf_len + take_len e ctx.buf_len p) e.block_len)) [
          | inl partly ↦ rw partly (record {
            blocks = r.blocks;
            tail = r.tail ++ p;
            sized = r.sized;
            split = ap (λ t. t ++ p) r.split ∙ append_assoc (concat r.blocks) r.tail p;
            state_of = r.state_of;
            total = total;
            room = room-filled;
            count = omega (
              arith,
              length-append r.tail p,
              r.count,
              ap length (whole_piece (ltb→lt _ _ partly)),
              length-piece,
            );
            short = omega (
              arith,
              length-append r.tail p,
              r.count,
              ltb→lt _ _ partly,
              ap length (whole_piece (ltb→lt _ _ partly)),
              length-piece,
            );
            held = held-filled ∙ ap (λ t. r.tail ++ t) (whole_piece (ltb→lt _ _ partly));
          })
          | inr full ↦ rw full (crossing t total (ltb→le _ _ full))
        ]

  -- `init` stands for the empty message, whatever the buffer holds.
  pub init-Represents : (ctx : Ctx) → length ctx.buf ≡ e.block_len → Represents e [] (init e ctx)
  unfolding init
  init-Represents ctx room = record {
    blocks = [];
    tail = [];
    sized = tt;
    split = refl;
    state_of = refl;
    total = refl;
    room = room;
    count = refl;
    short = omega (arith, law.length_fits);
    held = refl;
  }

  u64_count :
      (t : ℕ) (msg p : List ℕ) → t ≡ u64 (length msg) → u64 (t + length p) ≡ u64 (length (msg ++ p))
  u64_count t msg p h = omega (arith, length-append msg p)

  -- `update` appends to the message that a context stands for.
  pub update-Represents :
      (msg p : List ℕ) (ctx : Ctx) → Represents e msg ctx → Represents e (msg ++ p) (update e ctx p)
  unfolding update
  update-Represents msg p ctx r = elim (Bool-cases (ltb 0 ctx.buf_len)) [
    | inl partial ↦ rw partial (
        top_up-Represents msg p ctx r (u64 (ctx.total_len + length p))
          (u64_count ctx.total_len msg p r.total))
    | inr empty ↦
        rw (empty, whole empty)
          (absorb-Represents r.blocks (record ctx { total_len = u64 (ctx.total_len + length p) }) p
            r.sized r.state_of (rw (← whole empty) (u64_count ctx.total_len msg p r.total)) r.room
            (omega (arith, ltb→le _ _ empty)))
  ]
    where
      whole : ltb 0 ctx.buf_len ≡ false → msg ≡ concat r.blocks
      whole empty =
          r.split
          ∙ ap (λ t. concat r.blocks ++ t)
              (eq-nil_of_length r.tail (omega (arith, r.count, ltb→le _ _ empty)))
          ∙ append-nil (concat r.blocks)
