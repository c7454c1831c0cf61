-- ===== src/Merge.antt =====
-- `merge_and_retrain` of host/pimlex_host.cpp: 32 threads merge the keys of the array with those of
-- the buffer pages into a new array, each its own range of pages, and the index is set to the result.
pub mod Defs
pub mod Spec
pub mod Skip
pub mod Steps
pub mod Loop
pub mod Ranges
pub mod Chains
pub mod Parts
pub mod Thread
pub mod Threads
pub mod Install
pub mod Sample
pub mod Result
pub mod Finds
pub mod Fault
pub mod Cycle
