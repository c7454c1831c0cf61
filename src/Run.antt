-- ===== src/Run.antt =====
-- Whole runs of `main` in host/pimlex_host.cpp: a thread from its queries to what it hands out, and the
-- load and the warm-up before.
pub mod Defs
pub mod Record
pub mod Serving
pub mod Cells
pub mod Slots
pub mod Counts
pub mod WarmUp
pub mod Search
