-- ===== src/Routing.antt =====
-- The upper level of the index in host/pimlex_host.cpp: which partition a key belongs to, which DPU
-- serves it (`dram_level`), and which partition every DPU is loaded with (`replicas_info_t`).
-- The arrays over the partitions are lists; NR_PARTITION is their length. `int` and `uint64_t`
-- indices are numbers, and the index -1 is `none`.
pub mod Defs
pub mod Partition
pub mod Replicas
