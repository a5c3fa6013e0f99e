-- ===== src/Workload/Corpus.antt =====
-- `vb_corpus_build`: every message padded, cut into words, and scattered so that the `lanes` copies
-- of one word stand side by side.
pub mod Writes
pub mod Index
pub mod Layout
use valubench.Prelude.{
  ℕ, ◌+◌, ◌*◌, ◌/◌, ◌%◌, ◌^◌, Bool, true, false, ◌||◌, not, ◌==◌, if◌then◌else◌,
}
use valubench.Prelude.{u32, u64, List, Option, none, some, for_range}
use valubench.Algorithm.{Algorithm, blocks_for, words_per_block}
use valubench.Workload.Message.{build_message, pad_message, load_word}

-- The array behind `words`, by element index.
abbrev pub Memory : Type 0
Memory = ℕ → ℕ

abbrev pub store : Memory → ℕ → ℕ → Memory
store mem at v k = if k == at then v else mem k

pub record Corpus : Type 0 where
  pub words : Memory
  pub n_words : ℕ
  pub alg : Algorithm
  pub lanes : ℕ
  pub blocks : ℕ
  pub message_bytes : ℕ
  pub n_messages : ℕ
  pub start_index : ℕ

-- The element that holds word `j` of block `b` of message `m`.
unfoldable pub word_at : ℕ → ℕ → ℕ → ℕ → ℕ → ℕ
word_at lanes blocks m b j =
    u64 ((((m / lanes) * blocks + b) * words_per_block + j) * lanes + u32 (m % lanes))

-- A stored word is cut to the element's width.
unfoldable pub cast_word : Algorithm → ℕ → ℕ
cast_word a v = if a.word_bytes == 8 then v else u32 v

module _ (a : Algorithm) (lanes blocks : ℕ) where
  -- The innermost loop's body.
  unfoldable pub scatter_word : List ℕ → ℕ → ℕ → ℕ → Memory → Memory
  scatter_word padded m b j mem =
      store mem (word_at lanes blocks m b j)
        (cast_word a (load_word a padded (b * a.block_bytes + j * a.word_bytes)))

  unfoldable pub scatter_block : List ℕ → ℕ → ℕ → Memory → Memory
  unfolding scatter_word
  scatter_block padded m b mem = for_range words_per_block 0 (scatter_word padded m b) mem

  unfoldable pub scatter_message : List ℕ → ℕ → Memory → Memory
  unfolding scatter_block
  scatter_message padded m mem = for_range blocks 0 (scatter_block padded m) mem

-- The bytes of message `m` of the corpus, padded.
unfoldable pub padded_message : Algorithm → ℕ → ℕ → ℕ → ℕ → List ℕ
padded_message a start_index message_bytes blocks m =
    pad_message a (build_message (u32 (start_index + u32 m)) message_bytes) blocks

-- `memory_ok` says whether the three allocations succeed, and `words` is what the new array holds.
-- `none` is the return of -1.
unfoldable pub corpus_build : Bool → Memory → Algorithm → ℕ → ℕ → ℕ → ℕ → Option Corpus
unfolding scatter_message padded_message
corpus_build memory_ok words a lanes start_index n_messages message_bytes =
    if lanes == 0 || n_messages == 0 || not (n_messages % lanes == 0) || not memory_ok
    then none
    else (let blocks = blocks_for a message_bytes in
        let body = λ (m : ℕ) (mem : Memory).
          scatter_message a lanes blocks (padded_message a start_index message_bytes blocks m) m
            mem in
        some (record {
          words = for_range n_messages 0 body words;
          n_words = u64 (n_messages * blocks * words_per_block);
          alg = a;
          lanes = lanes;
          blocks = blocks;
          message_bytes = message_bytes;
          n_messages = n_messages;
          start_index = start_index;
        }))

-- `vb_corpus_slot_words`.
unfoldable pub slot_words : Corpus → ℕ
slot_words c = c.blocks * words_per_block * c.lanes
