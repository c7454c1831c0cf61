-- ===== src/Lib.antt =====
-- PIMLex_FAST: a learned index for processing-in-memory hardware. The keys lie in order in the host's
-- memory with every eighth of them sampled. The sampled keys are cut into 128 slices, the partitions,
-- and each of the 512 DPUs holds the slice of one partition with the models of a PGM-index. The host
-- routes a batch of queries to the DPUs, each DPU answers with the position of the block of 8 keys
-- that a query falls in, and the host finishes the operation: it reads or writes the payload, or puts
-- a new key in the buffer page of the block, or in the overflow tree of the partition when the page
-- is full.
--
-- The files, and the code that they are about:
--   Base        shared names, tests, lists and integers on native numbers
--   Search      the bisection loops of all parts
--   Lock        support/concurrent.h: the versioned spin lock, as word operations and as a step
--               relation of any number of threads (Lock/Exclusion)
--   Payload     support/typedefine.h
--   Page        host/dram_index.h: `buf_page`; `insert_page`, `find_key_page`, `update_key_page`, `is_sort`
--   Tree        support/opt_overflow_tree.h: the tree of one- and 32-way nodes; `insert`, `lookup`,
--               `update` and the traversals (Tree/Defs)
--   Routing     host/pimlex_host.cpp: `dram_level` and `replicas_info_t` (Routing/Defs)
--   Dpu         dpu/task.c: `main_kernel1`, its three op types (Dpu/Defs)
--   Skew        host/pimlex_host.cpp: `partition_access::calculate_partition_skew`
--   Host        host/pimlex_host.cpp: `search_payload_from_dram`, `get_real_payload`, `insert_payload`,
--               `insert_payload_skew`, `mix_payload`, `scan_payload`, `load_hot_replica`, and
--               `bulk_load_for_dpu` (Host/Bulk, Host/Sampling, Host/Epsilon, Host/Transfer)
--   Merge       host/pimlex_host.cpp: `merge_and_retrain`: its threads (Merge/Defs) and the new index
--               (Merge/Install), against a merge of two lists (Merge/Spec)
--   Batch       host/pimlex_host.cpp: the loops of `main` that slot the requests of a thread into the send
--               buffers, their ranges, the sizes of the transfers, and the queries (Batch/Queries)
--   Lut         host/pimlex_host.cpp and dpu/task.c: the look-up tables of the models (USE_LUT)
--   Rounds      host/pimlex_host.cpp: the rounds of the insertion threads in `main`, and how they exclude
--               the merge, as a step relation (Rounds/Defs)
--   Run         host/pimlex_host.cpp: the warm-up of `main` and a whole thread of a search run (Run/Defs)
--   Examples    runs, and each theorem at an input
--
-- State is passed explicitly; a handler's loops are recursion over the requests of each DPU. A
-- fault (a read through an unset pointer, an index out of an array, a store behind a buffer) is
-- `none`; the one of the fit of an epsilon is `divides_by_zero`. Bisections run on fuel: the width
-- of the range, which every round makes smaller. The scan of a level runs on the number of models
-- to its end. The loop of a merge thread runs on its `total_ops`, the search for the next page
-- with entries on the pages that can be read, and the sampling loop on the number of keys. The
-- loop that fits the epsilon of a slice runs on twice its first epsilon, which it halves, and a
-- test more. Unsigned arithmetic that can wrap is written with `%`, and so are the `int` counters
-- of the sampling loops. Names are the source's in snake case.
--
-- Parameters: `PGMIndex::search` (where a theorem needs it, with the hypothesis that its range
-- holds the number of keys of the slice up to the query), the floating-point products of the DPU's
-- models, the number of models of a PGM-index and its cost in the choice of an epsilon, the double
-- arithmetic and the sorts of the skew calculation, the sort of the bulk load, the memory behind
-- the buffer pages, the order in which the threads of a merge do a step, and the order in which a
-- handler visits the DPUs.
--
-- Not modelled: the transfer calls of the UPMEM SDK, other interleavings than those of the lock
-- and of the insertion rounds, the command line and timing; the models that the bulk load and the
-- merge make of the slices; the code of QUICK_HOT_CHANGE and UNBLOCKED_OPS, which is not built by
-- default; and the copies of other projects' code (PGM-index, the ALEX benchmark helpers, timers).
pub mod Base
pub mod Search
pub mod Lock
pub mod Payload
pub mod Page
pub mod Tree
pub mod Routing
pub mod Dpu
pub mod Skew
pub mod Host
pub mod Merge
pub mod Batch
pub mod Rounds
pub mod Run
pub mod Lut
pub mod Examples
