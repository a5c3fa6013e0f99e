-- ===== src/Hash/Stream/Final.antt =====
-- `final` gives the digest of the padded message, and so does the one-shot call.
use valubench.Prelude.{ℕ, ◌+◌, ◌-◌, ◌*◌, ◌≤◌, ◌<◌, ◌≡◌, refl, sym, ap, ap₂, ◌∙◌, arith}
use valubench.Prelude.{inl, inr, ltb, Bool-cases, ltb→lt, ltb→le, u64}
use valubench.Prelude.{List, [], ◌∷◌, ◌++◌, length, take, replicate, concat, chunks, AllSize}
use valubench.Prelude.{append-nil, append_assoc, length-append, length-replicate, foldl}
use valubench.Prelude.{length-write_at, write_at}
use valubench.Prelude.{
  replicate-append, concat-append, AllSize-append, chunks-concat, length-concat,
}
use mathlib.Core.List.{foldl-append}
use valubench.Hash.Stream.{Engine, Ctx, init, update, terminate, spill, finish, final, hash}
use valubench.Hash.Stream.Spec.{IsEngine, Represents, fold_blocks, block_count, pad, digest}
use valubench.Hash.Stream.Update.{init-Represents, update-Represents}
use valubench.Hash.Stream.Padding.{append_assoc_sym, div_eq, filled, gap, finish_lem, spill_lem}

module _ (e : Engine) (law : IsEngine e) where
  -- The blocks of the padded message, whatever list of whole blocks spells it.
  digest_of_blocks :
      (msg : List ℕ) (bs : List (List ℕ))
      → AllSize e.block_len bs
      → concat bs ≡ pad e msg
      → block_count e (length msg) ≡ length bs
      → e.store_state (fold_blocks e bs) ≡ digest e msg
  digest_of_blocks msg bs sized spell count = ap (λ t. e.store_state (fold_blocks e t)) (sym cut)
    where
      cut : chunks e.block_len (block_count e (length msg)) (pad e msg) ≡ bs
      cut =
          ap₂ (λ n p. chunks e.block_len n p) count (sym spell) ∙ chunks-concat e.block_len bs sized

  module _ (msg : List ℕ) (ctx : Ctx) (r : Represents e msg ctx) where
    abbrev bits : ℕ
    bits = u64 (length msg * 8)

    abbrev closed : List ℕ
    closed = r.tail ++ (0x80 ∷ [])

    length-msg : length msg ≡ length r.blocks * e.block_len + length r.tail
    length-msg =
        ap length r.split
        ∙ length-append (concat r.blocks) r.tail
        ∙ ap (λ k. k + length r.tail) (length-concat e.block_len r.blocks r.sized)

    length-closed : length closed ≡ ctx.buf_len + 1
    length-closed = omega (arith, length-append r.tail (0x80 ∷ []), r.count)

    held-terminate : take (ctx.buf_len + 1) (terminate ctx).buf ≡ closed
    unfolding terminate
    held-terminate =
        filled ctx r.tail r.held (ctx.buf_len + 1) (0x80 ∷ [])
          (omega (arith, r.room, r.count, r.short)) refl

    room-terminate : length (terminate ctx).buf ≡ e.block_len
    unfolding terminate
    room-terminate =
        length-write_at ctx.buf_len (0x80 ∷ []) ctx.buf (omega (arith, r.room, r.count, r.short))
        ∙ r.room

    spell_pad :
        (k : ℕ)
        → k ≡ block_count e (length msg) * e.block_len - length msg - 1 - e.length_len
        → concat r.blocks ++ (closed ++ (replicate k 0 ++ e.store_length bits)) ≡ pad e msg
    spell_pad k h =
        (simp append_assoc)
        ∙ append_assoc_sym (concat r.blocks) r.tail (0x80 ∷ (replicate k 0 ++ e.store_length bits))
        ∙ ap (λ t. t ++ (0x80 ∷ (replicate k 0 ++ e.store_length bits))) (sym r.split)
        ∙ ap (λ j. msg ++ (0x80 ∷ (replicate j 0 ++ e.store_length bits))) h

    -- The context before the last block is filled in, when the length field fits.
    one_block :
        ctx.buf_len + 1 ≤ e.block_len - e.length_len
        → e.store_state (finish e bits (terminate ctx)).state ≡ digest e msg
    unfolding terminate
    one_block low =
        ap e.store_state (rw last (ap (λ s. e.compress s block) state_of ∙ sym grown))
        ∙ digest_of_blocks msg (r.blocks ++ block ∷ [])
            (AllSize-append e.block_len r.blocks (block ∷ []) r.sized (sized, tt)) spell count
      where
        block : List ℕ
        block = closed ++ (replicate (gap e (ctx.buf_len + 1)) 0 ++ e.store_length bits)

        state_of : (terminate ctx).state ≡ fold_blocks e r.blocks
        state_of = r.state_of

        last : (finish e bits (terminate ctx)).state ≡ e.compress (terminate ctx).state block
        last =
            finish_lem e law (terminate ctx) closed bits held-terminate length-closed room-terminate
              low

        grown : fold_blocks e (r.blocks ++ block ∷ []) ≡ e.compress (fold_blocks e r.blocks) block
        grown = foldl-append e.compress e.iv r.blocks (block ∷ [])

        sized : length block ≡ e.block_len
        sized = omega (
          arith,
          length-append closed (replicate (gap e (ctx.buf_len + 1)) 0 ++ e.store_length bits),
          length-append (replicate {A = ℕ} (gap e (ctx.buf_len + 1)) 0) (e.store_length bits),
          length-replicate {A = ℕ} (gap e (ctx.buf_len + 1)) 0,
          law.length-store_length bits,
          length-closed,
        )

        blocks_full : block_count e (length msg) ≡ length r.blocks + 1
        blocks_full =
            div_eq e.block_len (length r.blocks + 1)
              (length msg + (1 + e.length_len) + e.block_len - 1)
              (omega (arith, length-msg, law.length_pos)) (omega (arith, length-msg, low, r.count))

        zeros :
            gap e (ctx.buf_len + 1)
            ≡ block_count e (length msg) * e.block_len - length msg - 1 - e.length_len
        zeros = rw blocks_full (omega (arith, length-msg, low, r.count))

        spell : concat (r.blocks ++ block ∷ []) ≡ pad e msg
        spell =
            concat-append r.blocks (block ∷ [])
            ∙ ap (λ t. concat r.blocks ++ t) (append-nil block)
            ∙ spell_pad (gap e (ctx.buf_len + 1)) zeros

        count : block_count e (length msg) ≡ length (r.blocks ++ block ∷ [])
        count = blocks_full ∙ omega (arith, length-append r.blocks (block ∷ []))

    abbrev full : List ℕ
    full =
        write_at (ctx.buf_len + 1) (replicate (e.block_len - (ctx.buf_len + 1)) 0)
          (terminate ctx).buf

    abbrev spilled : Ctx
    spilled = record (terminate ctx) {
      state = e.compress (terminate ctx).state full;
      buf = full;
      buf_len = 0;
    }

    -- The length field goes into a block of its own.
    two_blocks :
        e.block_len - e.length_len < ctx.buf_len + 1
        → e.store_state (finish e bits spilled).state ≡ digest e msg
    unfolding terminate
    two_blocks high =
        ap e.store_state (
          last
          ∙ ap (λ s. e.compress s second)
              (ap (λ b. e.compress ctx.state b) filled_up.0
                ∙ ap (λ s. e.compress s first) r.state_of)
          ∙ sym grown)
        ∙ digest_of_blocks msg (r.blocks ++ first ∷ second ∷ [])
            (AllSize-append e.block_len r.blocks (first ∷ second ∷ []) r.sized
              (length-first, (length-second, tt)))
            spell count
      where
        zeros : List ℕ
        zeros = replicate (e.block_len - (ctx.buf_len + 1)) 0

        first : List ℕ
        first = closed ++ zeros

        second : List ℕ
        second = replicate (gap e 0) 0 ++ e.store_length bits

        filled_up : (full ≡ first) × (length full ≡ e.block_len)
        filled_up =
            spill_lem e law (terminate ctx) closed held-terminate length-closed room-terminate
              (omega (arith, r.count, r.short))

        last : (finish e bits spilled).state ≡ e.compress (e.compress ctx.state full) second
        last = finish_lem e law spilled [] bits refl refl filled_up.1 (omega arith)

        grown :
            fold_blocks e (r.blocks ++ first ∷ second ∷ [])
            ≡ e.compress (e.compress (fold_blocks e r.blocks) first) second
        grown = foldl-append e.compress e.iv r.blocks (first ∷ second ∷ [])

        length-first : length first ≡ e.block_len
        length-first = ap length (sym filled_up.0) ∙ filled_up.1

        length-second : length second ≡ e.block_len
        length-second = omega (
          arith,
          length-append (replicate {A = ℕ} (gap e 0) 0) (e.store_length bits),
          length-replicate {A = ℕ} (gap e 0) 0,
          law.length-store_length bits,
          law.length_fits,
        )

        blocks_full : block_count e (length msg) ≡ length r.blocks + 2
        blocks_full =
            div_eq e.block_len (length r.blocks + 2)
              (length msg + (1 + e.length_len) + e.block_len - 1)
              (omega (arith, length-msg, high, r.count))
              (omega (arith, length-msg, r.count, r.short, law.length_fits))

        count : block_count e (length msg) ≡ length (r.blocks ++ first ∷ second ∷ [])
        count = blocks_full ∙ omega (arith, length-append r.blocks (first ∷ second ∷ []))

        joined :
            (e.block_len - (ctx.buf_len + 1)) + gap e 0
            ≡ block_count e (length msg) * e.block_len - length msg - 1 - e.length_len
        joined = rw blocks_full (omega (arith, length-msg, r.count, r.short, law.length_fits))

        spell : concat (r.blocks ++ first ∷ second ∷ []) ≡ pad e msg
        spell =
            concat-append r.blocks (first ∷ second ∷ [])
            ∙ ap (λ t. concat r.blocks ++ (first ++ t)) (append-nil second)
            ∙ ap (λ t. concat r.blocks ++ t)
                (append_assoc closed zeros second
                  ∙ ap (λ t. closed ++ t)
                      (append_assoc_sym zeros (replicate (gap e 0) 0) (e.store_length bits)
                        ∙ ap (λ t. t ++ e.store_length bits)
                            (replicate-append 0 (e.block_len - (ctx.buf_len + 1)) (gap e 0))))
            ∙ spell_pad ((e.block_len - (ctx.buf_len + 1)) + gap e 0) joined

    -- `final` on a context that stands for `msg` gives the digest of the padded message.
    pub final-digest : (final e ctx).1 ≡ digest e msg
    unfolding final spill terminate
    final-digest = elim (Bool-cases (ltb (e.block_len - e.length_len) (ctx.buf_len + 1))) [
      | inl high ↦ rw (bits_eq, spill, high) (two_blocks (ltb→lt _ _ high))
      | inr low ↦ rw (bits_eq, spill, low) (one_block (ltb→le _ _ low))
    ]
      where
        bits_eq : u64 (ctx.total_len * 8) ≡ bits
        bits_eq = omega (arith, r.total)

-- The calls `update (ctx, piece)` for each piece in order.
abbrev pub update_all : Engine → Ctx → List (List ℕ) → Ctx
update_all e ctx pieces = foldl (update e) ctx pieces

module _ (e : Engine) (law : IsEngine e) where
  update_all-Represents :
      (pieces : List (List ℕ)) (msg : List ℕ) (ctx : Ctx)
      → Represents e msg ctx
      → Represents e (msg ++ concat pieces) (update_all e ctx pieces)
  update_all-Represents [] msg ctx r = rw append-nil r
  update_all-Represents (p ∷ ps) msg ctx r =
      rw (append_assoc_sym msg p (concat ps))
        (update_all-Represents ps (msg ++ p) (update e ctx p) (update-Represents e law msg p ctx r))

  -- However the input is cut into pieces, and whatever the context held before `init`, the digest
  -- is that of the whole input.
  pub final-update_all :
      (ctx : Ctx) (pieces : List (List ℕ))
      → length ctx.buf ≡ e.block_len
      → (final e (update_all e (init e ctx) pieces)).1 ≡ digest e (concat pieces)
  final-update_all ctx pieces room =
      final-digest e law (concat pieces) (update_all e (init e ctx) pieces)
        (update_all-Represents pieces [] (init e ctx) (init-Represents e law ctx room))

  pub hash-digest :
      (ctx : Ctx) (msg : List ℕ) → length ctx.buf ≡ e.block_len → hash e ctx msg ≡ digest e msg
  unfolding hash
  hash-digest ctx msg room =
      final-digest e law msg (update e (init e ctx) msg)
        (update-Represents e law [] msg (init e ctx) (init-Represents e law ctx room))
