-- ===== src/Run/WarmUp.antt =====
-- The warm-up leaves a loaded index that serves every partition; so does the bulk load.
use mathlib.Core.List.{Permᴰ}
use pimlex_fast.Base.{
  ℕ, zero, suc, ◌+◌, ◌/◌, ◌<◌, ◌≡◌, refl, ◌∙◌, arith, List, [], ◌∷◌, some, length, length-map,
  get_or-replicate, get_or,
}
use pimlex_fast.Page.{BufPage}
use pimlex_fast.Routing.Defs.{
  DramLevel, ReplicasInfo, nr_partition, get_start_dpu_id, replicas_info,
}
use pimlex_fast.Routing.Replicas.{total}
use pimlex_fast.Routing.Partition.{IsPartition}
use pimlex_fast.Skew.{Ratios, AccessRatio, Entry, counts, total_dpus, calculate_partition_skew}
use pimlex_fast.Skew.Total.{Positive}
use pimlex_fast.Skew.Adjust.{IsUnbounded, calculate_partition_skew-total}
use pimlex_fast.Host.Index.{Index}
use pimlex_fast.Host.Batches.{nr_dpus}
use pimlex_fast.Host.Bound.{IsLoaded}
use pimlex_fast.Host.Bulk.{low_bounds, bulk_load_for_dpu}
use pimlex_fast.Host.Sampling.{sample_loop}
use pimlex_fast.Host.Load.{load_hot_replica}
use pimlex_fast.Run.Defs.{sample_accesses, warm_up}
use pimlex_fast.Run.Serving.{IsServing}
use pimlex_fast.Run.Counts.{hits, sample_accesses_lem}

total-counts : {R : Type 0} (xs : List (AccessRatio R)) → total (counts xs) ≡ total_dpus xs
unfolding total_dpus
total-counts [] = refl
total-counts (x ∷ xs) = omega (arith, total-counts xs)

Positive-counts :
    {R : Type 0} (xs : List (AccessRatio R)) (p : ℕ)
    → Positive xs
    → p < length xs
    → 0 < get_or (counts xs) p 0
Positive-counts [] p h l = absurd (omega arith)
Positive-counts (x ∷ xs) zero h l = h.0
Positive-counts (x ∷ xs) (suc p) h l = Positive-counts xs p h.1 (omega arith)

-- The counts of a run of `calculate_partition_skew`, in the level of a loaded index.
reload-IsServing :
    (s : DramLevel) (made : ReplicasInfo) (num_dpu_per_partition : List ℕ)
    → length num_dpu_per_partition ≡ nr_partition
    → ((p : ℕ) → p < nr_partition → 0 < get_or num_dpu_per_partition p 0)
    → total num_dpu_per_partition ≡ nr_dpus
    → IsServing (load_hot_replica num_dpu_per_partition made s).0
unfolding load_hot_replica
reload-IsServing s made num_dpu_per_partition size served all = record {
  old = record s { nr_replicas_per_partition = num_dpu_per_partition };
  made = refl;
  counted = size;
  served = served;
  all_dpus = all;
}

-- A level with the same bounds serves a loaded index as well.
reload-IsLoaded :
    (d : Index) (made : ReplicasInfo) (num_dpu_per_partition : List ℕ)
    → IsLoaded d
    → IsLoaded (record d {
      upper_dram_level = (load_hot_replica num_dpu_per_partition made d.upper_dram_level).0;
    })
unfolding load_hot_replica get_start_dpu_id
reload-IsLoaded d made num_dpu_per_partition loaded = record {
  sorted = loaded.sorted;
  sampled = loaded.sampled;
  whole = loaded.whole;
  small = loaded.small;
  slices = loaded.slices;
  partitions = loaded.partitions;
  bounds = loaded.bounds;
}

-- The level of the bulk load serves every partition.
pub bulk_load_for_dpu-IsServing :
    (behind : ℕ → BufPage) (sorted : ℕ → ℕ) (n : ℕ) (partial_keys : ℕ → ℕ) (d : Index)
    → IsServing (bulk_load_for_dpu behind sorted n partial_keys d).upper_dram_level
unfolding bulk_load_for_dpu replicas_info
bulk_load_for_dpu-IsServing behind sorted n partial_keys d = record {
  old = record d.upper_dram_level {
    low_bound_key =
        low_bounds (sample_loop sorted n n 0 0 partial_keys) (n / 8 / nr_partition) 0 nr_partition;
    nr_replicas_per_partition = (replicas_info 4 []).nr_replicas_per_partition;
  };
  made = refl;
  counted = refl;
  served = λ p h. omega (arith, get_or-replicate {A = ℕ} 128 p 4 0 h);
  all_dpus = refl;
}

module _ (d : Index) (loaded : IsLoaded d) (serving : IsServing d.upper_dram_level)
    (querys route : ℕ → ℕ) where
  module _ (F : Ratios) (unbounded : IsUnbounded F)
      (sort_dpu_ratio sort_pid : List (Entry F) → List (Entry F))
      (permutes : (xs : List (Entry F)) → Permᴰ xs (sort_dpu_ratio xs))
      (reorders : (xs : List (Entry F)) → Permᴰ xs (sort_pid xs)) where
    -- The warm-up of a loaded index that serves every partition, on `n` queries that each have a
    -- partition, with a count for each: the sampling returns, and every count has grown by the number
    -- of the queries in its partition. When the calculation of the skew stays inside its arrays, the
    -- index is loaded and serves every partition again, with nothing but its level changed.
    pub warm_up-IsServing :
        (made : ReplicasInfo) (n : ℕ) (access_num : List ℕ)
        → length access_num ≡ nr_partition
        → ((r : ℕ) → r < n → IsPartition (querys r) (route r) d.upper_dram_level)
        → (sampled : List ℕ) × (sample_accesses d.upper_dram_level querys n 0 access_num
            ≡ some sampled)
          × ((p : ℕ) → get_or sampled p 0 ≡ get_or access_num p 0 + hits route p n 0)
          × ((record_ratio : List (Entry F))
              → calculate_partition_skew F sort_dpu_ratio sort_pid
                  (nr_dpus / nr_partition)
                  n
                  sampled
                ≡ some record_ratio
              → (level : DramLevel) × (warm_up F sort_dpu_ratio sort_pid made querys n access_num d
                  ≡ some (record d { upper_dram_level = level }))
                × IsLoaded (record d { upper_dram_level = level })
                × IsServing level)
    unfolding warm_up
    warm_up-IsServing made n access_num size routed =
        let counted =
          sample_accesses_lem d loaded serving querys route n 0 access_num size
            (λ r a b. routed r (omega arith)) in
        (
          counted.0,
          counted.1,
          counted.3,
          λ record_ratio skew.
              let shares =
                calculate_partition_skew-total F unbounded sort_dpu_ratio sort_pid permutes reorders
                  (nr_dpus / nr_partition) n counted.0 record_ratio skew in
              let as_many : length record_ratio ≡ nr_partition = shares.2 ∙ counted.2 in
              (
                (load_hot_replica (counts record_ratio) made d.upper_dram_level).0,
                rw (warm_up, counted.1, skew) refl,
                reload-IsLoaded d made (counts record_ratio) loaded,
                reload-IsServing d.upper_dram_level made (counts record_ratio)
                    (length-map (λ e. e.num_dpu_per_partition) record_ratio ∙ as_many)
                    (λ p h. Positive-counts record_ratio p shares.1 (omega (arith, h, as_many)))
                    (total-counts record_ratio ∙ shares.0),
              ),
        )
