-- ===== src/Host.antt =====
-- The host's handlers of host/pimlex_host.cpp: what they do with the answers of the DPUs.
pub mod Index
pub mod Requests
pub mod Mix
pub mod Batches
pub mod Bound
pub mod Find
pub mod Store
pub mod Miss
pub mod Resend
pub mod Scan
pub mod Load
pub mod Sampling
pub mod Bulk
pub mod Epsilon
pub mod Fresh
pub mod Answer
pub mod Transfer
pub mod Keeps
pub mod Mixed
