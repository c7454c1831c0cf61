-- ===== src/Rounds.antt =====
-- The insertion threads of `main` in host/pimlex_host.cpp: how they exclude the merge.
pub mod Defs
pub mod Exclusion
pub mod Writers
pub mod Overlap
