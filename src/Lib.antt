-- ===== src/Lib.antt =====
-- A verification library for valubench, an integer SIMD benchmark that hashes a corpus of generated
-- messages and checks every run against a scalar reference.
--
-- The program's parts. `src/reference` holds the scalar hashes, the oracle. `src/algorithm.c`
-- describes each hash to the rest. `src/workload.c` generates messages, pads and interleaves them
-- into a corpus for the kernels, and computes the reference checksum, the XOR of all final digests,
-- also across threads. `src/kernels/cpu` hashes a corpus many messages at a time.
--
-- Which file models which part, by paths from the repository's root:
--   Prelude    shared names, lists, machine words, counted loops
--   Bits       laws of the bit operations at every width
--   Hash       src/reference/md5.c, sha1.c, sha512.c, include/hashes.h, include/sha512_const.h
--   Algorithm  src/algorithm.c, include/algorithm.h
--   Workload   src/workload.c and the corpus of include/valubench.h
--   Kernel     src/kernels/cpu: md5_kernel_impl.h, sha1_kernel_impl.h, sha512_kernel_impl.h, and the
--              operations of scalar.c, sse2.c, avx2.c, avx512.c and neon.c
--   Device     src/device/device.c and include/device.h: slices, waves, repeats, chunk counts, the
--              fold of partials, and the pipeline of chunks
--   Gpu        src/kernels/gpu: the reduction of a work-group
--   Power      src/power.c and include/power.h: the energy of a region, duplicates and attribution
--   Bench      src/bench.c: batch sizes, the check of a kernel against the reference, and the worker
--              pool
--   Cli        src/main.c: the parser of a ladder of iteration counts
--
-- The three streaming interfaces of src/reference are the same text with other constants, so
-- `Hash.Stream` writes it once over a record of those constants, and `Hash.Md5`, `Hash.Sha1` and
-- `Hash.Sha512` instantiate it. A context keeps its whole buffer, stale bytes included. Words are
-- native numbers with the wrap-around written out; a byte array is a list; the corpus's array is a
-- function of the element index. A `while` runs on fuel: the length of its input, the number of
-- rungs, the 256 that the chunk search stops at, the VB_PIPE_RING chunks that a device may have
-- queued, the most chunks that a device has left to collect, the size of a work-group that folds by
-- halves, or the characters of an argument. The theorems give the result of each loop with that
-- fuel, so that it is enough is part of them.
--
-- `Kernel.Md5` is the kernel template over a record of vector operations, `Kernel.Ops.Ops`; each
-- file of `Kernel.Isa` fills that record as one instruction set does. The streams of a group are a
-- list, and a macro that visits every stream is a map over it, so the interleaving by steps is kept.
-- `Kernel.Sha` is the text that the two SHA templates share, over a record of rounds that `Kernel.Sha1`
-- and `Kernel.Sha512` fill.
--
-- `Device.Pipe` passes the state of the backend along with the contexts, so that what a device does
-- may depend on everything it was asked before.
--
-- Not modelled: the SHA-NI and SVE kernels, the hashing of the GPU kernels, the registry, the rest of
-- the device layer and the backends, the pinning and timing of the harness, most of the command line,
-- the discovery of energy sources, report and host detection.
--
-- What the program does not implement is an input: what a vector intrinsic does to its
-- lanes, whether allocations, thread creates and joins succeed, what a failed join leaves behind,
-- how long a sweep took, what a device's backend answers, what an energy counter reads, and the
-- arithmetic of `double`.
pub mod Prelude
pub mod Bits
pub mod Hash
pub mod Algorithm
pub mod Workload
pub mod Kernel
pub mod Device
pub mod Gpu
pub mod Bench
pub mod Power
pub mod Cli
