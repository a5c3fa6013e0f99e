-- ===== src/Kernel/Sha512.antt =====
-- src/kernels/cpu/sha512_kernel_impl.h: what it adds to the frame, over any operations.
pub mod Schedule
pub mod Steps
pub mod Blocks
pub mod Exact
use valubench.Prelude.{
  ℕ, ◌+◌, ◌-◌, ◌%◌, ◌^◌, ◌<◌, ◌≡◌, List, [], ◌∷◌, ◌++◌, get_or, bit_xor, u64, ◌>>>◌,
}
use valubench.Hash.Bytes.{rotr64}
use valubench.Hash.Sha512.{sha512_k, sha512_iv, ch, maj}
use valubench.Kernel.Isa.{Simd}
use valubench.Kernel.Sha.{Local, Rounds, S, sha_kernel}
use valubench.Prelude.{set}

-- OPS64_SET1, OPS64_ADD, OPS64_XOR, OPS64_LOAD and OPS64_STORE work on every lane of 64 bits by
-- itself.
pub record IsSimd64 (v : Simd) : Type 0 where
  pub some_lanes : 0 < v.lanes
  pub bounded : (x : v.Vec) (l : ℕ) → l < v.lanes → v.store x l < 2 ^ 64
  pub on_set1 : (x l : ℕ) → l < v.lanes → v.store (v.set1 x) l ≡ u64 x
  pub on_add :
      (x y : v.Vec) (l : ℕ) → l < v.lanes → v.store (v.add x y) l ≡ u64 (v.store x l + v.store y l)
  pub on_xor :
      (x y : v.Vec) (l : ℕ)
      → l < v.lanes
      → v.store (v.xor x y) l ≡ bit_xor (v.store x l) (v.store y l)
  pub on_load : (mem : ℕ → ℕ) (p l : ℕ) → l < v.lanes → v.store (v.load mem p) l ≡ u64 (mem (p + l))

-- OPS64_ROTR, OPS64_SHR, OPS64_CH and OPS64_MAJ.
pub record Sha512Ops (v : Simd) : Type 0 where
  pub rotr : v.Vec → ℕ → v.Vec
  pub shr : v.Vec → ℕ → v.Vec
  pub ch : v.Vec → v.Vec → v.Vec → v.Vec
  pub maj : v.Vec → v.Vec → v.Vec → v.Vec

pub record IsSha512Ops (v : Simd) (o : Sha512Ops v) : Type 0 where
  pub on_rotr :
      (x : v.Vec) (n l : ℕ)
      → l < v.lanes
      → 0 < n
      → n < 64
      → v.store (o.rotr x n) l ≡ rotr64 (v.store x l) n
  pub on_shr :
      (x : v.Vec) (n l : ℕ) → l < v.lanes → n < 64 → v.store (o.shr x n) l ≡ v.store x l >>> n
  pub on_ch :
      (x y z : v.Vec) (l : ℕ)
      → l < v.lanes
      → v.store (o.ch x y z) l ≡ ch (v.store x l) (v.store y l) (v.store z l)
  pub on_maj :
      (x y z : v.Vec) (l : ℕ)
      → l < v.lanes
      → v.store (o.maj x y z) l ≡ maj (v.store x l) (v.store y l) (v.store z l)

-- S5K_STEP and S5K_EXPAND.
pub data Act : Type 0 where
  step expand : ℕ → Act

-- A to H.
pub record Eight (V : Type 0) : Type 0 where
  pub a : V
  pub b : V
  pub c : V
  pub d : V
  pub e : V
  pub f : V
  pub g : V
  pub h : V

abbrev pub plain : ℕ → List Act
plain t = Act.step t ∷ []

abbrev pub expanded : ℕ → List Act
expanded t = Act.expand t ∷ (Act.step t ∷ [])

abbrev four : (ℕ → List Act) → ℕ → List Act
four do_ base = do_ base ++ (do_ (base + 1) ++ (do_ (base + 2) ++ do_ (base + 3)))

abbrev pub run16 : (ℕ → List Act) → ℕ → List Act
run16 do_ base =
    four do_ (base + 0) ++ (four do_ (base + 4) ++ (four do_ (base + 8) ++ four do_ (base + 12)))

-- The five runs.
abbrev pub sha512_acts : List Act
sha512_acts =
    run16 plain 0
    ++ (run16 expanded 16 ++ (run16 expanded 32 ++ (run16 expanded 48 ++ run16 expanded 64)))

module _ (v : Simd) (o : Sha512Ops v) where
  abbrev pub xor3 : v.Vec → v.Vec → v.Vec → v.Vec
  xor3 a b c = v.xor (v.xor a b) c

  unfoldable pub vec_bsig0 : v.Vec → v.Vec
  vec_bsig0 x = xor3 (o.rotr x 28) (o.rotr x 34) (o.rotr x 39)

  unfoldable pub vec_bsig1 : v.Vec → v.Vec
  vec_bsig1 x = xor3 (o.rotr x 14) (o.rotr x 18) (o.rotr x 41)

  unfoldable pub vec_ssig0 : v.Vec → v.Vec
  vec_ssig0 x = xor3 (o.rotr x 1) (o.rotr x 8) (o.shr x 7)

  unfoldable pub vec_ssig1 : v.Vec → v.Vec
  vec_ssig1 x = xor3 (o.rotr x 19) (o.rotr x 61) (o.shr x 6)

  abbrev pub wget : List v.Vec → ℕ → v.Vec
  wget w i = get_or w i (v.set1 0)

  -- S5K_STEP1, with the window's word given.
  unfoldable pub step1 : ℕ → v.Vec → Eight v.Vec → Eight v.Vec
  unfolding vec_bsig0 vec_bsig1
  step1 t word q =
      let t1 = v.add q.h (vec_bsig1 q.e) in
      let t1 = v.add t1 (o.ch q.e q.f q.g) in
      let t1 = v.add t1 (v.set1 (get_or sha512_k t 0)) in
      let t1 = v.add t1 word in
      let t2 = v.add (vec_bsig0 q.a) (o.maj q.a q.b q.c) in
      record {
        a = v.add t1 t2;
        b = q.a;
        c = q.b;
        d = q.c;
        e = v.add q.d t1;
        f = q.e;
        g = q.f;
        h = q.g;
      }

  -- The word of S5K_EXPAND1.
  unfoldable pub expand_word : ℕ → List v.Vec → v.Vec
  unfolding vec_ssig0 vec_ssig1
  expand_word t w =
      let x = v.add (vec_ssig1 (wget w ((t - 2) % 16))) (wget w ((t - 7) % 16)) in
      let x = v.add x (vec_ssig0 (wget w ((t - 15) % 16))) in v.add x (wget w ((t - 16) % 16))

  unfoldable pub sha512_act : Act → Local v.Vec (Eight v.Vec) → Local v.Vec (Eight v.Vec)
  unfolding step1 expand_word
  sha512_act (Act.step t) x = record x { r = step1 t (wget x.w (t % 16)) x.r }
  sha512_act (Act.expand t) x = record x { w = set x.w (t % 16) (expand_word t x.w) }

  -- `A = h[0]` to `H = h[7]`.
  unfoldable pub set_regs : List v.Vec → Eight v.Vec
  set_regs h = record {
    a = wget h 0;
    b = wget h 1;
    c = wget h 2;
    d = wget h 3;
    e = wget h 4;
    f = wget h 5;
    g = wget h 6;
    h = wget h 7;
  }

  -- S5K_CHAIN.
  unfoldable pub chain_words : List v.Vec → Eight v.Vec → List v.Vec
  chain_words h q =
      v.add (wget h 0) q.a
      ∷ v.add (wget h 1) q.b
      ∷ v.add (wget h 2) q.c
      ∷ v.add (wget h 3) q.d
      ∷ v.add (wget h 4) q.e
      ∷ v.add (wget h 5) q.f
      ∷ v.add (wget h 6) q.g
      ∷ v.add (wget h 7) q.h
      ∷ []

  abbrev pub sha512_rounds : Rounds v.Vec
  sha512_rounds = record {
    Regs = Eight v.Vec;
    Act = Act;
    iv = sha512_iv;
    set_regs = set_regs;
    acts = sha512_acts;
    act = sha512_act;
    chain = chain_words;
  }

  unfoldable pub sha512_kernel : (ℕ → ℕ) → S v sha512_rounds → ℕ → ℕ → ℕ → ℕ → List ℕ
  sha512_kernel corpus unset streams n_groups blocks iterations =
      sha_kernel v sha512_rounds corpus unset streams n_groups blocks iterations
