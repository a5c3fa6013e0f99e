-- ===== src/Workload/Tests.antt =====
-- The workload's theorems at concrete inputs, and runs of the code.
use valubench.Prelude.{ℕ, zero, suc, ◌%◌, ◌≡◌, refl, ◌↔◌, true, false, arith}
use valubench.Prelude.{List, [], ◌∷◌, foldl, chunks}
use valubench.Algorithm.{sha1_alg, blocks_for}
use valubench.Algorithm.Blocks.{is_sha1}
use valubench.Workload.Message.{
  build_message, index_bytes, pattern_byte, distinct_messages, pad_message,
}
use valubench.Workload.Message.Distinct.{build_message_iff}
use valubench.Workload.Padding.{engine_of, hash-pad_message}
use valubench.Workload.Corpus.{Corpus}
use valubench.Workload.Threads.{Machine}

-- The index, and then the pattern from offset 4 on.
message_runs : build_message 0x0102 6 ≡ 2 ∷ 1 ∷ 0 ∷ 0 ∷ 0xaf ∷ 0x4c ∷ []
unfolding build_message index_bytes pattern_byte
message_runs = refl

build_message_iff_example :
    (build_message 1 1 ≡ build_message 257 1)
    ↔ (1 % distinct_messages 1 ≡ 257 % distinct_messages 1)
build_message_iff_example = build_message_iff 1 257 1

abbrev abc : List ℕ
abc = 0x61 ∷ 0x62 ∷ 0x63 ∷ []

hash-pad_message_example :
    let e = engine_of sha1_alg.id in
    let blocks = blocks_for sha1_alg 3 in
    sha1_alg.hash abc
    ≡ e.store_state (foldl e.compress e.iv (chunks 64 blocks (pad_message sha1_alg abc blocks)))
hash-pad_message_example = hash-pad_message sha1_alg abc is_sha1 (omega arith)

abbrev rungs : List ℕ
rungs = 1 ∷ 2 ∷ 2 ∷ []

-- Thread 1 never starts, and the join of thread 2 fails.
abbrev failing : Machine
failing = record {
  memory_ok = true;
  created = elim [ zero ↦ true | suc n ↦ elim n [ zero ↦ false | suc m ↦ true ] ];
  joined = λ i. false;
  unknown = λ i. [];
}
