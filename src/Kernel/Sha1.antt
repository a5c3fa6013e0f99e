-- ===== src/Kernel/Sha1.antt =====
-- src/kernels/cpu/sha1_kernel_impl.h: what it adds to the frame, over any operations.
pub mod Schedule
pub mod Steps
pub mod Blocks
pub mod Exact
use valubench.Prelude.{ℕ, ◌+◌, ◌-◌, ◌%◌, ◌^◌, ◌<◌, ◌≡◌, List, [], ◌∷◌, ◌++◌, get_or}
use valubench.Hash.Bytes.{rotl32}
use valubench.Hash.Sha1.{sha1_k, sha1_iv, round_fn}
use valubench.Kernel.Isa.{Simd}
use valubench.Kernel.Sha.{Local, Rounds, S, sha_kernel}
use valubench.Prelude.{set}

-- OPS_ROTL, OPS_CH and OPS_MAJ; the other operations are those of `Simd`.
pub record Sha1Ops (v : Simd) : Type 0 where
  pub rotl : v.Vec → ℕ → v.Vec
  pub ch : v.Vec → v.Vec → v.Vec → v.Vec
  pub maj : v.Vec → v.Vec → v.Vec → v.Vec

-- They work on every lane by itself, as the reference's rotate, Ch and Maj do on words.
pub record IsSha1Ops (v : Simd) (o : Sha1Ops v) : Type 0 where
  pub on_rotl :
      (x : v.Vec) (n l : ℕ)
      → l < v.lanes
      → 0 < n
      → n < 32
      → v.store (o.rotl x n) l ≡ rotl32 (v.store x l) n
  pub on_ch :
      (x y z : v.Vec) (l : ℕ)
      → l < v.lanes
      → v.store (o.ch x y z) l ≡ round_fn 0 (v.store x l) (v.store y l) (v.store z l)
  pub on_maj :
      (x y z : v.Vec) (l : ℕ)
      → l < v.lanes
      → v.store (o.maj x y z) l ≡ round_fn 2 (v.store x l) (v.store y l) (v.store z l)

-- S1K_CH, S1K_PAR and S1K_MAJ.
pub data Fn : Type 0 where
  ch par maj : Fn

-- S1K_STEP with the registers A to E, and S1K_EXPAND.
pub data Act : Type 0 where
  step : Fn → ℕ → ℕ → Act
  expand : ℕ → Act

-- A to E.
pub record Five (V : Type 0) : Type 0 where
  pub a : V
  pub b : V
  pub c : V
  pub d : V
  pub e : V

abbrev pub plain : Fn → ℕ → ℕ → List Act
plain f kc t = Act.step f kc t ∷ []

abbrev pub expanded : Fn → ℕ → ℕ → List Act
expanded f kc t = Act.expand t ∷ (Act.step f kc t ∷ [])

abbrev pub run4 : (Fn → ℕ → ℕ → List Act) → Fn → ℕ → ℕ → List Act
run4 do_ f kc base =
    do_ f kc (base + 0) ++ (do_ f kc (base + 1) ++ (do_ f kc (base + 2) ++ do_ f kc (base + 3)))

abbrev pub run16 : (Fn → ℕ → ℕ → List Act) → Fn → ℕ → ℕ → List Act
run16 do_ f kc base =
    run4 do_ f kc (base + 0)
    ++ (run4 do_ f kc (base + 4) ++ (run4 do_ f kc (base + 8) ++ run4 do_ f kc (base + 12)))

abbrev pub run20 : (Fn → ℕ → ℕ → List Act) → Fn → ℕ → ℕ → List Act
run20 do_ f kc base = run16 do_ f kc base ++ run4 do_ f kc (base + 16)

-- The five runs, with the constants of SHA1_K.
abbrev pub sha1_acts : List Act
sha1_acts =
    let k = λ (i : ℕ). get_or sha1_k i 0 in
    run16 plain Fn.ch (k 0) 0
    ++ (run4 expanded Fn.ch (k 0) 16
        ++ (run20 expanded Fn.par (k 1) 20
            ++ (run20 expanded Fn.maj (k 2) 40 ++ run20 expanded Fn.par (k 3) 60)))

module _ (v : Simd) (o : Sha1Ops v) where
  abbrev pub apply_fn : Fn → v.Vec → v.Vec → v.Vec → v.Vec
  apply_fn Fn.ch x y z = o.ch x y z
  apply_fn Fn.par x y z = v.xor (v.xor x y) z
  apply_fn Fn.maj x y z = o.maj x y z

  abbrev pub wget : List v.Vec → ℕ → v.Vec
  wget w i = get_or w i (v.set1 0)

  -- S1K_STEP1, with the window's word given.
  unfoldable pub step1 : Fn → ℕ → v.Vec → Five v.Vec → Five v.Vec
  step1 f kc word q =
      let tmp = v.add (o.rotl q.a 5) (apply_fn f q.b q.c q.d) in
      let tmp = v.add tmp q.e in
      let tmp = v.add tmp (v.set1 kc) in
      let tmp = v.add tmp word in record { a = tmp; b = q.a; c = o.rotl q.b 30; d = q.c; e = q.d }

  -- S1K_EXPAND_BODY, composed from two-input operations.
  unfoldable pub expand_word : ℕ → List v.Vec → v.Vec
  expand_word t w =
      let x = v.xor (wget w ((t - 3) % 16)) (wget w ((t - 8) % 16)) in
      let x = v.xor x (wget w ((t - 14) % 16)) in
      let x = v.xor x (wget w ((t - 16) % 16)) in o.rotl x 1

  unfoldable pub sha1_act : Act → Local v.Vec (Five v.Vec) → Local v.Vec (Five v.Vec)
  unfolding step1 expand_word
  sha1_act (Act.step f kc t) x = record x { r = step1 f kc (wget x.w (t % 16)) x.r }
  sha1_act (Act.expand t) x = record x { w = set x.w (t % 16) (expand_word t x.w) }

  -- `A = h0` to `E = h4`.
  unfoldable pub set_regs : List v.Vec → Five v.Vec
  set_regs h = record { a = wget h 0; b = wget h 1; c = wget h 2; d = wget h 3; e = wget h 4 }

  -- S1K_CHAIN.
  unfoldable pub chain_words : List v.Vec → Five v.Vec → List v.Vec
  chain_words h q =
      v.add (wget h 0) q.a
      ∷ v.add (wget h 1) q.b
      ∷ v.add (wget h 2) q.c
      ∷ v.add (wget h 3) q.d
      ∷ v.add (wget h 4) q.e
      ∷ []

  abbrev pub sha1_rounds : Rounds v.Vec
  sha1_rounds = record {
    Regs = Five v.Vec;
    Act = Act;
    iv = sha1_iv;
    set_regs = set_regs;
    acts = sha1_acts;
    act = sha1_act;
    chain = chain_words;
  }

  unfoldable pub sha1_kernel : (ℕ → ℕ) → S v sha1_rounds → ℕ → ℕ → ℕ → ℕ → List ℕ
  sha1_kernel corpus unset streams n_groups blocks iterations =
      sha_kernel v sha1_rounds corpus unset streams n_groups blocks iterations
