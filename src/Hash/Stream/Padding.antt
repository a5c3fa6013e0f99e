-- ===== src/Hash/Stream/Padding.antt =====
-- What `finish` and the spill of `final` leave in the buffer, and the arithmetic of padding.
use valubench.Prelude.{ℕ, ◌+◌, ◌-◌, ◌*◌, ◌/◌, ◌≤◌, ◌<◌, ◌≡◌, sym, ap, ◌∙◌, arith}
use valubench.Prelude.{List, ◌++◌, length, take, replicate}
use valubench.Prelude.{append_assoc, length-replicate}
use valubench.Prelude.{length-write_at, take-write_at, take_all, write_at}
use valubench.Hash.Stream.{Engine, Ctx, finish}
use valubench.Hash.Stream.Spec.{IsEngine}

pub append_assoc_sym : (xs ys zs : List ℕ) → xs ++ (ys ++ zs) ≡ (xs ++ ys) ++ zs
append_assoc_sym xs ys zs = sym (append_assoc xs ys zs)

pub div_eq : (b q x : ℕ) → q * b ≤ x → x < q * b + b → x / b ≡ q
div_eq b q x lo hi = grind arith

-- A buffer whose first `buf_len` bytes are `held`, and that has room for `n` more.
module _ (c : Ctx) (held : List ℕ) (same : take c.buf_len c.buf ≡ held) where
  pub filled :
      (n : ℕ) (bytes : List ℕ)
      → c.buf_len ≤ length c.buf
      → c.buf_len + length bytes ≡ n
      → take n (write_at c.buf_len bytes c.buf) ≡ held ++ bytes
  filled n bytes room h = take-write_at c.buf_len n bytes c.buf room h ∙ ap (λ t. t ++ bytes) same

-- The bytes between offset `n` and the length field.
abbrev pub gap : Engine → ℕ → ℕ
gap e n = e.block_len - e.length_len - n

module _ (e : Engine) (law : IsEngine e) where
  -- The last block, and what the context is compressed with.
  pub finish_lem :
      (c : Ctx) (held : List ℕ) (bits : ℕ)
      → take c.buf_len c.buf ≡ held
      → length held ≡ c.buf_len
      → length c.buf ≡ e.block_len
      → c.buf_len ≤ e.block_len - e.length_len
      → (finish e bits c).state
        ≡ e.compress c.state (held ++ (replicate (gap e c.buf_len) 0 ++ e.store_length bits))
  unfolding finish
  finish_lem c held bits same len room low = ap (e.compress c.state) (
      sym (take_all e.block_len buf (omega (arith, length-buf)))
      ∙ take-write_at at e.block_len field zeroed (omega (arith, length-zeroed, room)) size
      ∙ ap (λ t. t ++ field)
          (filled c held same at zeros (omega arith) (omega (arith, length-zeros)))
      ∙ append_assoc held zeros field)
    where
      at : ℕ
      at = e.block_len - e.length_len

      field : List ℕ
      field = e.store_length bits

      zeros : List ℕ
      zeros = replicate (gap e c.buf_len) 0

      length-zeros : length zeros ≡ gap e c.buf_len
      length-zeros = length-replicate (gap e c.buf_len) 0

      zeroed : List ℕ
      zeroed = write_at c.buf_len zeros c.buf

      length-zeroed : length zeroed ≡ length c.buf
      length-zeroed = length-write_at c.buf_len zeros c.buf (omega (arith, length-zeros))

      size : at + length field ≡ e.block_len
      size = omega (arith, law.length-store_length bits, law.length_fits)

      buf : List ℕ
      buf = write_at at field zeroed

      length-buf : length buf ≡ e.block_len
      length-buf =
          length-write_at at field zeroed (omega (arith, size, length-zeroed, room))
          ∙ length-zeroed
          ∙ room

  -- The block that is filled up with zeros where the length field does not fit.
  pub spill_lem :
      (c : Ctx) (held : List ℕ)
      → take c.buf_len c.buf ≡ held
      → length held ≡ c.buf_len
      → length c.buf ≡ e.block_len
      → c.buf_len ≤ e.block_len
      → let buf = write_at c.buf_len (replicate (e.block_len - c.buf_len) 0) c.buf in
        (buf ≡ held ++ replicate (e.block_len - c.buf_len) 0) × (length buf ≡ e.block_len)
  spill_lem c held same len room low = (
    sym (take_all e.block_len buf (omega (arith, length-buf)))
        ∙ filled c held same e.block_len zeros (omega arith) (omega (arith, length-zeros)),
    length-buf,
  )
    where
      zeros : List ℕ
      zeros = replicate (e.block_len - c.buf_len) 0

      length-zeros : length zeros ≡ e.block_len - c.buf_len
      length-zeros = length-replicate (e.block_len - c.buf_len) 0

      buf : List ℕ
      buf = write_at c.buf_len zeros c.buf

      length-buf : length buf ≡ e.block_len
      length-buf = length-write_at c.buf_len zeros c.buf (omega (arith, length-zeros)) ∙ room
