-- ===== src/Hash/Stream.antt =====
-- The streaming interface of src/reference/md5.c, sha1.c and sha512.c: init, update, final and the
-- one-shot call. The three files spell it out with their own constants, which are an `Engine` here.
pub mod Spec
pub mod Update
mod Padding
pub mod Final
use valubench.Prelude.{ℕ, zero, suc, ◌+◌, ◌-◌, ◌*◌, true, false, ltb, leb, if◌then◌else◌}
use valubench.Prelude.{List, [], ◌∷◌, length, take, drop, replicate, write_at, u64}

-- What differs between the three files. `store_length` gives the bytes of the length field, and
-- `store_state` those of the digest.
pub record Engine : Type 0 where
  pub block_len : ℕ
  pub length_len : ℕ
  pub iv : List ℕ
  pub compress : List ℕ → List ℕ → List ℕ
  pub store_length : ℕ → List ℕ
  pub store_state : List ℕ → List ℕ

-- `md5_ctx`, `sha1_ctx` and `sha512_ctx`. `buf` is the whole array, with what stands in it past
-- `buf_len` from earlier use.
pub record Ctx : Type 0 where
  pub state : List ℕ
  pub total_len : ℕ
  pub buf : List ℕ
  pub buf_len : ℕ

-- The 0x80 terminator, `buf[buf_len++] = 0x80`.
unfoldable pub terminate : Ctx → Ctx
terminate ctx = record ctx {
  buf = write_at ctx.buf_len (0x80 ∷ []) ctx.buf;
  buf_len = ctx.buf_len + 1;
}

module _ (e : Engine) where
  -- `buf` is left as it is.
  unfoldable pub init : Ctx → Ctx
  init ctx = record ctx { state = e.iv; total_len = 0; buf_len = 0 }

  -- `while (len >= BLOCK_LEN)`: the state and the bytes left over. The fuel is the input's length.
  unfoldable pub compress_blocks : ℕ → List ℕ → List ℕ → List ℕ × List ℕ
  compress_blocks zero state p = (state, p)
  compress_blocks (suc fuel) state p = elim (leb e.block_len (length p)) [
    | true ↦ compress_blocks fuel (e.compress state (take e.block_len p)) (drop e.block_len p)
    | false ↦ (state, p)
  ]

  -- The loop over whole blocks and the copy of the rest, from an empty buffer.
  unfoldable pub absorb : Ctx → List ℕ → Ctx
  absorb ctx p =
      let (state, rest) = compress_blocks (length p) ctx.state p in
      if ltb 0 (length rest)
      then record ctx { state = state; buf = write_at 0 rest ctx.buf; buf_len = length rest }
      else record ctx { state = state }

  -- The bytes that go on top of a partial block.
  unfoldable pub take_len : ℕ → List ℕ → ℕ
  take_len buf_len p =
      let need = e.block_len - buf_len in if ltb (length p) need then length p else need

  -- "Top up a partial block first."
  unfoldable pub top_up : Ctx → List ℕ → Ctx
  top_up ctx p =
      let n = take_len ctx.buf_len p in
      let buf = write_at ctx.buf_len (take n p) ctx.buf in
      let buf_len = ctx.buf_len + n in
      if ltb buf_len e.block_len
      then record ctx { buf = buf; buf_len = buf_len }
      else absorb (record ctx { state = e.compress ctx.state buf; buf = buf; buf_len = 0 })
          (drop n p)

  unfoldable pub update : Ctx → List ℕ → Ctx
  update ctx p =
      let counted = record ctx { total_len = u64 (ctx.total_len + length p) } in
      if ltb 0 ctx.buf_len then top_up counted p else absorb counted p

  -- Where the length field does not fit, the block is filled with zeros and compressed.
  unfoldable pub spill : Ctx → Ctx
  spill ctx =
      let buf = write_at ctx.buf_len (replicate (e.block_len - ctx.buf_len) 0) ctx.buf in
      if ltb (e.block_len - e.length_len) ctx.buf_len
      then record ctx { state = e.compress ctx.state buf; buf = buf; buf_len = 0 }
      else ctx

  -- The last block: zeros up to the length field, the length in bits, and the compression.
  unfoldable pub finish : ℕ → Ctx → Ctx
  finish bit_len ctx =
      let at = e.block_len - e.length_len in
      let zeroed = write_at ctx.buf_len (replicate (at - ctx.buf_len) 0) ctx.buf in
      let buf = write_at at (e.store_length bit_len) zeroed in
      record ctx { state = e.compress ctx.state buf; buf = buf }

  -- The context that is left, and the digest.
  unfoldable pub final : Ctx → Ctx × List ℕ
  final ctx =
      let bit_len = u64 (ctx.total_len * 8) in
      let last = finish bit_len (spill (terminate ctx)) in (last, e.store_state last.state)

  -- `md5 (data, len, digest)` and its siblings; `ctx` is the local variable, not initialised.
  unfoldable pub hash : Ctx → List ℕ → List ℕ
  hash ctx p = (final (update (init ctx) p)).1
