-- ===== src/Hash/Stream/Spec.antt =====
-- What the streaming interface promises: RFC 1321 section 3.1 and FIPS 180-4 section 5.1, over the
-- whole message at once.
use valubench.Prelude.{ℕ, ◌+◌, ◌-◌, ◌*◌, ◌/◌, ◌<◌, ◌≡◌, u64}
use valubench.Prelude.{List, ◌∷◌, ◌++◌, length, take, replicate, concat, chunks, AllSize, foldl}
use valubench.Hash.Stream.{Engine, Ctx}

-- What the engine's constants must satisfy.
pub record IsEngine (e : Engine) : Type 0 where
  pub length_pos : 0 < e.length_len
  pub length_fits : e.length_len < e.block_len
  pub length-store_length : (n : ℕ) → length (e.store_length n) ≡ e.length_len

module _ (e : Engine) where
  -- The blocks that a message of `n` bytes fills once padded.
  abbrev pub block_count : ℕ → ℕ
  block_count n = (n + (1 + e.length_len) + e.block_len - 1) / e.block_len

  -- The message, 0x80, zeros, and the length in bits in the last `length_len` bytes.
  abbrev pub pad : List ℕ → List ℕ
  pad msg =
      let n = length msg in
      msg
      ++ (0x80
          ∷ (replicate (block_count n * e.block_len - n - 1 - e.length_len) 0
              ++ e.store_length (u64 (n * 8))))

  abbrev pub fold_blocks : List (List ℕ) → List ℕ
  fold_blocks bs = foldl e.compress e.iv bs

  abbrev pub digest : List ℕ → List ℕ
  digest msg = e.store_state (fold_blocks (chunks e.block_len (block_count (length msg)) (pad msg)))

  -- The context stands for the message `msg`: its whole blocks are in the state and the rest is
  -- in the buffer.
  pub record Represents (msg : List ℕ) (ctx : Ctx) : Type 0 where
    pub blocks : List (List ℕ)
    pub tail : List ℕ
    pub sized : AllSize e.block_len blocks
    pub split : msg ≡ concat blocks ++ tail
    pub state_of : ctx.state ≡ fold_blocks blocks
    pub total : ctx.total_len ≡ u64 (length msg)
    pub room : length ctx.buf ≡ e.block_len
    pub count : ctx.buf_len ≡ length tail
    pub short : length tail < e.block_len
    pub held : take ctx.buf_len ctx.buf ≡ tail
