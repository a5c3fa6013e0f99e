-- ===== src/Workload/Corpus/Layout.antt =====
-- The corpus holds every word of every padded message at the place that its layout gives.
use valubench.Prelude.{ℕ, ◌+◌, ◌*◌, ◌%◌, ◌^◌, ◌≤◌, ◌<◌, ◌≡◌, refl, arith, List}
use valubench.Prelude.{true, some, for_range, u64}
use valubench.Algorithm.{Algorithm, blocks_for}
use valubench.Workload.Message.{load_word}
use valubench.Workload.Corpus.{Memory, Corpus, word_at, cast_word, scatter_word, scatter_block}
use valubench.Workload.Corpus.{scatter_message, padded_message, corpus_build}
use valubench.Workload.Corpus.Writes.{Writes, store-Writes, for_range-Writes}
use valubench.Workload.Corpus.Index.{word_at-lt, word_at-injective}

-- The word that belongs to block `b`, word `j` of a padded message.
abbrev pub word_of : Algorithm → List ℕ → ℕ → ℕ → ℕ
word_of a padded b j = cast_word a (load_word a padded (b * a.block_bytes + j * a.word_bytes))

module _ (a : Algorithm) (lanes blocks n : ℕ) (padded : ℕ → List ℕ) (pos : 0 < lanes)
    (small : lanes < 2 ^ 32) (whole : n % lanes ≡ 0) (fits : n * blocks * 16 < 2 ^ 64) where
  abbrev at : ℕ → ℕ → ℕ → ℕ
  at m b j = word_at lanes blocks m b j

  abbrev InWord : ℕ → Unit {0} → Type 0
  InWord j y = Unit {0}

  abbrev InBlock : ℕ → ℕ × Unit {0} → Type 0
  InBlock b p = (0 ≤ p.0) × (p.0 < 16) × Unit {0}

  abbrev InMessage : ℕ → ℕ × (ℕ × Unit {0}) → Type 0
  InMessage m p = (0 ≤ p.0) × (p.0 < blocks) × InBlock p.0 p.1

  abbrev InCorpus : ℕ × (ℕ × (ℕ × Unit {0})) → Type 0
  InCorpus p = (0 ≤ p.0) × (p.0 < n) × InMessage p.0 p.1

  distinct :
      (m b j m' b' j' : ℕ)
      → m < n
      → b < blocks
      → j < 16
      → m' < n
      → b' < blocks
      → j' < 16
      → at m b j ≡ at m' b' j'
      → (m ≡ m') × (b ≡ b') × (j ≡ j')
  distinct = word_at-injective lanes blocks n pos small whole fits

  block-Writes :
      (m b : ℕ) (mem : Memory)
      → m < n
      → b < blocks
      → Writes
          (InBlock b)
          (λ p. at m b p.0)
          (λ p. word_of a (padded m) b p.0)
          mem
          (scatter_block a lanes blocks (padded m) m b mem)
  unfolding scatter_block scatter_word
  block-Writes m b mem hm hb =
      for_range-Writes InWord (λ j y. at m b j) (λ j y. word_of a (padded m) b j)
        (scatter_word a lanes blocks (padded m) m b) 16 0 16 mem refl
        (λ j t h. store-Writes t (at m b j) (word_of a (padded m) b j))
        (λ j j' y y' p q r s e. omega (arith, distinct m b j m b j' hm hb (omega arith) hm hb q e))

  message-Writes :
      (m : ℕ) (mem : Memory)
      → m < n
      → Writes
          (InMessage m)
          (λ p. at m p.0 p.1.0)
          (λ p. word_of a (padded m) p.0 p.1.0)
          mem
          (scatter_message a lanes blocks (padded m) m mem)
  unfolding scatter_message
  message-Writes m mem hm =
      for_range-Writes InBlock (λ b p. at m b p.0) (λ b p. word_of a (padded m) b p.0)
        (scatter_block a lanes blocks (padded m) m) blocks 0 blocks mem (omega arith)
        (λ b t h. block-Writes m b t hm h)
        (λ b b' y y' p q r s e.
          omega (arith, distinct m b y.0 m b' y'.0 hm (omega arith) r.1 hm q s.1 e))

  corpus-Writes :
      (mem : Memory)
      → Writes InCorpus
          (λ p. at p.0 p.1.0 p.1.1.0)
          (λ p. word_of a (padded p.0) p.1.0 p.1.1.0)
          mem
          (for_range n 0 (λ m. scatter_message a lanes blocks (padded m) m) mem)
  corpus-Writes mem =
      for_range-Writes InMessage (λ m p. at m p.0 p.1.0) (λ m p. word_of a (padded m) p.0 p.1.0)
        (λ m. scatter_message a lanes blocks (padded m) m) n 0 n mem (omega arith)
        (λ m t h. message-Writes m t h)
        (λ m m' y y' p q r s e.
          omega (arith, distinct m y.0 y.1.0 m' y'.0 y'.1.0 (omega arith) r.1 r.2.1 q s.1 s.2.1 e))

pub corpus_build-layout :
    (mem : Memory) (a : Algorithm) (lanes start_index n message_bytes : ℕ)
    → 0 < lanes
    → lanes < 2 ^ 32
    → 0 < n
    → n % lanes ≡ 0
    → n * blocks_for a message_bytes * 16 < 2 ^ 64
    → (c : Corpus) × (corpus_build true mem a lanes start_index n message_bytes ≡ some c)
      × (c.blocks ≡ blocks_for a message_bytes)
      × ((m b j : ℕ)
          → m < n
          → b < c.blocks
          → j < 16
          → (c.words (word_at lanes c.blocks m b j)
              ≡ word_of a (padded_message a start_index message_bytes c.blocks m) b j)
            × (word_at lanes c.blocks m b j < c.n_words))
unfolding corpus_build
corpus_build-layout mem a lanes start_index n message_bytes pos small some_messages whole fits = (
  built,
  ground arith,
  refl,
  λ m b j hm hb hj. (
    (corpus-Writes a lanes blocks n padded pos small whole fits mem).sets (m, (b, (j, tt)))
        (omega arith, hm, (omega arith, hb, (omega arith, hj, tt))),
    omega (arith, word_at-lt lanes blocks n pos small whole fits m b j hm hb hj),
  ),
)
  where
    blocks : ℕ
    blocks = blocks_for a message_bytes

    padded : ℕ → List ℕ
    padded m = padded_message a start_index message_bytes blocks m

    built : Corpus
    built = record {
      words = for_range n 0 (λ m. scatter_message a lanes blocks (padded m) m) mem;
      n_words = u64 (n * blocks * 16);
      alg = a;
      lanes = lanes;
      blocks = blocks;
      message_bytes = message_bytes;
      n_messages = n;
      start_index = start_index;
    }
