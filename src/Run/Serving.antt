-- ===== src/Run/Serving.antt =====
-- An index whose partition level gives every partition a DPU, and hands out all DPUs.
use pimlex_fast.Base.{ℕ, ◌<◌, ◌≡◌, refl, length, get_or}
use pimlex_fast.Routing.Defs.{DramLevel, nr_partition, get_start_dpu_id}
use pimlex_fast.Routing.Replicas.{total}
use pimlex_fast.Routing.Partition.{low_bound_at}
use pimlex_fast.Host.Batches.{nr_dpus}

-- The level is one that `get_start_dpu_id` has made from counts that hand out the DPUs.
pub record IsServing (level : DramLevel) : Type 0 where
  pub old : DramLevel
  pub made : level ≡ get_start_dpu_id old
  pub counted : length old.nr_replicas_per_partition ≡ nr_partition
  pub served : (p : ℕ) → p < nr_partition → 0 < get_or old.nr_replicas_per_partition p 0
  pub all_dpus : total old.nr_replicas_per_partition ≡ nr_dpus

pub low_bound_at-get_start_dpu_id :
    (s : DramLevel) → low_bound_at (get_start_dpu_id s) ≡ low_bound_at s
unfolding get_start_dpu_id
low_bound_at-get_start_dpu_id s = refl

pub length-low_bound_key :
    (s : DramLevel) → length (get_start_dpu_id s).low_bound_key ≡ length s.low_bound_key
unfolding get_start_dpu_id
length-low_bound_key s = refl
