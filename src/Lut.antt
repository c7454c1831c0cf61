-- ===== src/Lut.antt =====
-- The look-up tables that shorten the search of the models (USE_LUT, off in support/common.h): how
-- host/pimlex_host.cpp builds the table of a model, and how dpu/task.c reads it.
pub mod Defs
pub mod Xor
pub mod Prefix
pub mod Table
pub mod Slice
pub mod Window
