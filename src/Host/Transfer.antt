-- ===== src/Host/Transfer.antt =====
-- What the bulk load sends to the DPUs: the arguments and the sampled keys of a slice.
use pimlex_fast.Base.{
  ℕ, zero, suc, ◌+◌, ◌*◌, ◌/◌, ◌%◌, ◌^◌, List, [], Option, none, some, get_elem?,
}
use pimlex_fast.Dpu.Defs.{DpuArguments}
use pimlex_fast.Routing.Defs.{
  ReplicasInfo, nr_partition, replicas_info, get_cumulative_info, reset, load_order,
}
use pimlex_fast.Host.Index.{Index, per_dpu_input_size}
use pimlex_fast.Host.Batches.{nr_dpus}

-- `start` before the round `kk`.
abbrev pub start_before : ℕ → ℕ → ℕ
start_before per zero = 0
start_before per (suc kk) = start_before per kk + per

abbrev dealing : ReplicasInfo
dealing = get_cumulative_info (replicas_info 4 [])

-- The heights and the level offsets are what the PGM-index library makes; the epsilons are the ones
-- chosen for the slices.
module _ (heights : ℕ → ℕ) (levels_offsets : ℕ → List ℕ) (epsilons : ℕ → ℕ) where
  unfoldable pub input_arguments : Index → ℕ → DpuArguments
  input_arguments d kk = record {
    input_size = per_dpu_input_size d;
    max_levels = heights kk;
    level_offset = levels_offsets kk;
    start_pos = start_before (per_dpu_input_size d) kk % 2 ^ 32;
    set_epsilon = epsilons kk;
  }

  -- `dpu_prepare_xfer` of the first loop and of the second, for the partitions dealt to the DPU in each.
  abbrev pub dealt : Index → Option (Option ℕ) → Option (Option ℕ) → Option (DpuArguments × (ℕ → ℕ))
  dealt d (some (some cur_p)) (some (some cur_p')) =
      some (input_arguments d cur_p, λ j. d.partial_keys (cur_p' * per_dpu_input_size d + j))
  dealt d x y = none

  -- What the DPU `i` gets. `reset` does not depend on the calls of `next_partition` before it.
  unfoldable pub transfer : Index → ℕ → Option (DpuArguments × (ℕ → ℕ))
  unfolding input_arguments
  transfer d i =
      let s = get_cumulative_info (replicas_info (nr_dpus / nr_partition) []) in
      dealt d (get_elem? (load_order nr_dpus s) i) (get_elem? (load_order nr_dpus (reset s)) i)
