-- ===== src/Batch.antt =====
-- The loops of `main` in host/pimlex_host.cpp that put the queries of a thread into the send buffers.
pub mod Defs
pub mod Route
pub mod Sizes
pub mod Ranges
pub mod Queries
