-- ===== src/Device/Pipe.antt =====
-- The pipeline of src/device/device.c: every device's chunks queued ahead in a ring of eight, and
-- collected in order. The backend is an input: it keeps a state of its own, and a call of it may fail.
pub mod Steps
pub mod Ring
pub mod Turns
pub mod Passes
pub mod Whole
mod Tests
use valubench.Prelude.{
  ℕ, zero, suc, ◌+◌, ◌-◌, ◌*◌, ◌/◌, ◌%◌, Bool, true, false, ltb, ◌==◌, ◌&&◌, if◌then◌else◌, u64,
  max,
}
use valubench.Prelude.{Option, none, some, List, [], ◌∷◌, map, foldl}
use valubench.Workload.Corpus.{Memory}
use valubench.Device.{dev_slice_count, dev_slice_first}
use valubench.Device.Fold.{fold_partials}

-- VB_PIPE_RING.
abbrev pub pipe_ring : ℕ
pipe_ring = 8

-- The fields of `vb_dev_ctx` that the pipeline reads and writes; `dev` tells the contexts apart.
pub record PipeCtx : Type 0 where
  pub dev : ℕ
  pub n_groups : ℕ
  pub group_bytes : ℕ
  pub local_size : ℕ
  pub n_partials : ℕ
  pub partial_words : ℕ
  pub partial_word_bytes : ℕ
  pub pipe_chunks : ℕ
  pub pipe_running : Bool
  pub pipe_iterations : ℕ
  pub pipe_queued : ℕ
  pub pipe_collected : ℕ

-- The arguments of `pipe_enqueue`.
pub record Request : Type 0 where
  pub dev : ℕ
  pub seq : ℕ
  pub offset : ℕ
  pub bytes : ℕ
  pub n_groups : ℕ
  pub iterations : ℕ
  pub shared : ℕ
  pub read_bytes : ℕ

-- What `pipe_wait` returns through its pointers.
pub record Finished : Type 0 where
  pub partials : Memory
  pub kernel_ns : ℕ
  pub transfer_ns : ℕ

-- `false` and `none` are a result of -1.
pub record Backend (B : Type 0) : Type 0 where
  pub pipe_enqueue : Request → B → Bool × B
  pub pipe_wait : ℕ → ℕ → B → Option Finished × B

-- One context of `vb_dev_pipe_begin`.
unfoldable pub begin_one : ℕ → PipeCtx → PipeCtx
begin_one iterations c = record c {
  pipe_running = true;
  pipe_iterations = iterations;
  pipe_queued = 0;
  pipe_collected = 0;
}

unfoldable pub dev_pipe_begin : ℕ → List PipeCtx → List PipeCtx
unfolding begin_one
dev_pipe_begin iterations ctx = map (begin_one iterations) ctx

-- `c->partial_words * c->partial_word_bytes`.
abbrev pub partial_bytes : PipeCtx → ℕ
partial_bytes c = u64 (c.partial_words * c.partial_word_bytes)

-- What `pipe_queue` asks of the backend.
unfoldable pub next_request : PipeCtx → Request
unfolding dev_slice_count dev_slice_first
next_request c =
    let i = c.pipe_queued % c.pipe_chunks in
    let first = dev_slice_first c.n_groups c.pipe_chunks i in
    let count = dev_slice_count c.n_groups c.pipe_chunks i in
    record {
      dev = c.dev;
      seq = c.pipe_queued;
      offset = u64 (first * c.group_bytes);
      bytes = u64 (count * c.group_bytes);
      n_groups = count;
      iterations = c.pipe_iterations;
      shared = u64 (c.local_size * partial_bytes c);
      read_bytes = u64 (c.n_partials * partial_bytes c);
    }

-- The locals of `vb_dev_pipe_next` for one device, with its context.
pub record Lane : Type 0 where
  pub c : PipeCtx
  pub base : ℕ
  pub stop : ℕ
  pub k : ℕ
  pub t : ℕ

-- `out`, by pass and word.
abbrev pub Outs : Type 0
Outs = ℕ → Memory

module _ {B : Type 0} (be : Backend B) where
  unfoldable pub pipe_queue : PipeCtx → B → Bool × (PipeCtx × B)
  unfolding next_request
  pipe_queue c b =
      let (ok, b) = be.pipe_enqueue (next_request c) b in
      elim ok [
        | true ↦ (true, (record c { pipe_queued = c.pipe_queued + 1 }, b))
        | false ↦ (false, (c, b))
      ]

  -- `while (c->pipe_queued < c->pipe_collected + VB_PIPE_RING)`. Each turn that does not return
  -- queues one more, so the ring's size is fuel enough.
  unfoldable pub top_up : ℕ → PipeCtx → B → Bool × (PipeCtx × B)
  unfolding pipe_queue
  top_up zero c b = (true, (c, b))
  top_up (suc fuel) c b = elim (ltb c.pipe_queued (c.pipe_collected + pipe_ring)) [
    | true ↦
        let (ok, (c, b)) = pipe_queue c b in
        elim ok [ true ↦ top_up fuel c b | false ↦ (false, (c, b)) ]
    | false ↦ (true, (c, b))
  ]

  -- From the wait on: the times, the fold into the chunk's pass, and the count.
  unfoldable pub collect : Lane → PipeCtx → Outs → Option Finished → B → Bool × (Lane × (Outs × B))
  unfolding fold_partials
  collect x c out none b = (false, (record x { c = c }, (out, b)))
  collect x c out (some d) b =
      let p = (c.pipe_collected - x.base) / c.pipe_chunks in
      let folded = fold_partials c.n_partials c.partial_words d.partials (out p) in
      (
        true,
        (
          record x {
            c = record c { pipe_collected = c.pipe_collected + 1 };
            k = u64 (x.k + d.kernel_ns);
            t = u64 (x.t + d.transfer_ns);
          },
          ((λ q. if q == p then folded else out q), b),
        ),
      )

  -- One device's part of a round, when it still has chunks to collect.
  unfoldable pub take_turn : Lane → Outs → B → Bool × (Lane × (Outs × B))
  unfolding top_up collect
  take_turn x out b =
      let (ok, (c, b)) = top_up pipe_ring x.c b in
      elim ok [
        | true ↦ let (result, b) = be.pipe_wait c.dev c.pipe_collected b in collect x c out result b
        | false ↦ (false, (record x { c = c }, (out, b)))
      ]

  -- Where the loops stand; `ok` is false after a return of -1.
  pub record Progress : Type 0 where
    pub ok : Bool
    pub busy : Bool
    pub lanes : List Lane
    pub out : Outs
    pub world : B

  -- `for (int d = 0; d < n; d++)`: one chunk per device.
  unfoldable pub round : List Lane → Outs → B → Progress
  unfolding take_turn
  round [] out b = record { ok = true; busy = false; lanes = []; out = out; world = b }
  round (x ∷ xs) out b = elim (ltb x.c.pipe_collected x.stop) [
    | true ↦
        let (ok, (y, (out, b))) = take_turn x out b in
        elim ok [
          | true ↦ (let r = round xs out b in record r { busy = true; lanes = y ∷ r.lanes })
          | false ↦ record { ok = false; busy = true; lanes = y ∷ xs; out = out; world = b }
        ]
    | false ↦ (let r = round xs out b in record r { lanes = x ∷ r.lanes })
  ]

  -- `for (int busy = 1; busy; )`.
  unfoldable pub rounds : ℕ → Progress → Progress
  unfolding round
  rounds zero s = s
  rounds (suc fuel) s = elim (s.ok && s.busy) [
    | true ↦ rounds fuel (round s.lanes s.out s.world)
    | false ↦ s
  ]

  -- A device's `base`, `stop`, and sums of zero.
  unfoldable pub start_lane : ℕ → PipeCtx → Lane
  start_lane passes c = record {
    c = c;
    base = c.pipe_collected;
    stop = c.pipe_collected + passes * c.pipe_chunks;
    k = 0;
    t = 0;
  }

  -- The most chunks that a device has to collect; one round more finds that there are none.
  unfoldable pub most_chunks : ℕ → List PipeCtx → ℕ
  most_chunks passes [] = 0
  most_chunks passes (c ∷ ctx) = max (passes * c.pipe_chunks) (most_chunks passes ctx)

  unfoldable pub dev_pipe_next : List PipeCtx → ℕ → B → Progress
  unfolding rounds start_lane most_chunks
  dev_pipe_next ctx passes b = rounds (most_chunks passes ctx + 1) (record {
    ok = true;
    busy = true;
    lanes = map (start_lane passes) ctx;
    out = λ p w. 0;
    world = b;
  })

  -- `*kernel_ns` and `*transfer_ns`: the most of any device.
  unfoldable pub most_kernel_ns : List Lane → ℕ
  most_kernel_ns lanes = foldl (λ m x. if ltb m x.k then x.k else m) 0 lanes

  unfoldable pub most_transfer_ns : List Lane → ℕ
  most_transfer_ns lanes = foldl (λ m x. if ltb m x.t then x.t else m) 0 lanes

  -- `while (c->pipe_collected < c->pipe_queued)`, of which there are as many turns as chunks in
  -- flight.
  unfoldable pub drain : ℕ → PipeCtx → B → PipeCtx × B
  drain zero c b = (c, b)
  drain (suc fuel) c b = elim (ltb c.pipe_collected c.pipe_queued) [
    | true ↦
        let (result, b) = be.pipe_wait c.dev c.pipe_collected b in
        elim result [
          | none ↦ (c, b)
          | some d ↦ drain fuel (record c { pipe_collected = c.pipe_collected + 1 }) b
        ]
    | false ↦ (c, b)
  ]

  -- One context of `vb_dev_pipe_end`.
  unfoldable pub end_one : PipeCtx → B → PipeCtx × B
  unfolding drain
  end_one c b = elim c.pipe_running [
    | true ↦
        let (c, b) = drain (c.pipe_queued - c.pipe_collected) c b in
        (record c { pipe_running = false }, b)
    | false ↦ (c, b)
  ]

  unfoldable pub dev_pipe_end : List PipeCtx → B → List PipeCtx × B
  unfolding end_one
  dev_pipe_end [] b = ([], b)
  dev_pipe_end (c ∷ ctx) b =
      let (c, b) = end_one c b in let (ctx, b) = dev_pipe_end ctx b in (c ∷ ctx, b)
