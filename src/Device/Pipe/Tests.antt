-- ===== src/Device/Pipe/Tests.antt =====
-- The pipeline's theorems at concrete inputs, and a run of it.
use valubench.Prelude.{
  ℕ, ◌+◌, ◌*◌, ◌<◌, ◌≡◌, refl, arith, true, false, some, none, [], ◌∷◌, map, ltb,
}
use valubench.Prelude.{List}
use valubench.Device.Pipe.{
  PipeCtx, Finished, Backend, pipe_queue, top_up, collect, take_turn, round, rounds, start_lane,
  most_chunks, dev_pipe_begin, dev_pipe_next, dev_pipe_end,
}
use valubench.Device.Pipe.Steps.{AllInRing}
use valubench.Device.Pipe.Ring.{contexts, pipeline-AllInRing}
use valubench.Device.Pipe.Whole.{pass_sum, dev_pipe_next-pass_sum}

-- Chunk `seq` of device `dev` has one partial of two words.
abbrev chunk : ℕ → ℕ → Finished
chunk dev seq = record { partials = λ k. 100 * dev + 10 * seq + k; kernel_ns = 5; transfer_ns = 7 }

-- Its state counts the calls.
abbrev steady : Backend ℕ
steady = record {
  pipe_enqueue = λ r b. (true, b + 1);
  pipe_wait = λ dev seq b. (some (chunk dev seq), b + 1);
}

-- Fails from the tenth call on.
abbrev failing : Backend ℕ
failing = record {
  pipe_enqueue = λ r b. (ltb b 10, b + 1);
  pipe_wait = λ dev seq b. (elim (ltb b 10) [ true ↦ some (chunk dev seq) | false ↦ none ], b + 1);
}

abbrev device : ℕ → ℕ → PipeCtx
device dev chunks = record {
  dev = dev;
  n_groups = 10;
  group_bytes = 64;
  local_size = 64;
  n_partials = 1;
  partial_words = 2;
  partial_word_bytes = 4;
  pipe_chunks = chunks;
  pipe_running = true;
  pipe_iterations = 1;
  pipe_queued = 0;
  pipe_collected = 0;
}

abbrev two_devices : List PipeCtx
two_devices = device 1 2 ∷ device 2 3 ∷ []

two_devices-AllInRing : AllInRing two_devices
two_devices-AllInRing = (
  record { behind = omega arith; ahead = omega arith },
  (record { behind = omega arith; ahead = omega arith }, tt),
)

-- Two passes: each device ends with eight chunks queued past the last but one that it collected.
pass_run : map (λ x. x.c.pipe_queued) (dev_pipe_next steady two_devices 2 0).lanes ≡ 11 ∷ 13 ∷ []
unfolding dev_pipe_next rounds round take_turn collect top_up pipe_queue start_lane most_chunks
pass_run = refl

dev_pipe_next-pass_sum_example :
    ((dev_pipe_next steady two_devices 2 0).ok ≡ true)
    × (map (λ x. x.c.pipe_collected) (dev_pipe_next steady two_devices 2 0).lanes
        ≡ map (λ c. c.pipe_collected + 2 * c.pipe_chunks) two_devices)
    × ((p w : ℕ)
        → p < 2
        → (dev_pipe_next steady two_devices 2 0).out p w ≡ pass_sum chunk two_devices p w)
dev_pipe_next-pass_sum_example =
    dev_pipe_next-pass_sum steady chunk two_devices 2 0
      (record { queues = λ r b. refl; answers = λ dev seq b. refl }) two_devices-AllInRing

pipeline-AllInRing_example :
    AllInRing (dev_pipe_begin 4 two_devices)
    × AllInRing (contexts failing (dev_pipe_next failing two_devices 2 0).lanes)
    × AllInRing (dev_pipe_end failing two_devices 0).0
pipeline-AllInRing_example = pipeline-AllInRing failing two_devices 4 2 0 two_devices-AllInRing
