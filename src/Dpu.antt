-- ===== src/Dpu.antt =====
-- The DPU kernel, dpu/task.c, as it is built by default (USE_LUT 0): the layout at the start, the
-- search of one query through the models to the sampled keys, the split of a batch over the
-- tasklets, and the search of the overflow keys.
pub mod Defs
pub mod Lookup
pub mod Tasklets
pub mod Overflow
pub mod Init
