-- ===== src/Workload.antt =====
-- src/workload.c: the messages, the padded and lane-interleaved corpus, and the reference
-- checksums.
pub mod Message
pub mod Bytes
pub mod Padding
pub mod Corpus
pub mod Reference
pub mod Threads
mod Tests
