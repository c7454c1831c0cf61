-- ===== src/Examples/Routes.antt =====
-- Three partitions with two, one and three DPUs.
use pimlex_fast.Base.{
  ℕ, zero, suc, ◌+◌, ◌<◌, ◌≡◌, refl, [], ◌∷◌, some, true, arith, length, get_or, get_elem?, set,
  if◌then◌else◌,
}
use pimlex_fast.Search.{upper_bound, upper_bound_loop}
use pimlex_fast.Search.Bound.{SortedOn}
use pimlex_fast.Page.{is_sort_list}
use pimlex_fast.Page.Lookup.{is_sort_list→sorted}
use pimlex_fast.Routing.Defs.{
  DramLevel, ReplicasInfo, get_start_dpu_id, level_bound, search_upper_level, reset,
  get_cumulative_info, found_partition, next_partition, load_order,
}
use pimlex_fast.Routing.Partition.{low_bound_at, IsPartition, search_upper_level-routes}
use pimlex_fast.Routing.Replicas.{total, load_order-get_start_dpu_id}

abbrev three : DramLevel
three = record {
  low_bound_key = 10 ∷ 20 ∷ 30 ∷ [];
  start_dpu_id = [];
  nr_replicas_per_partition = 2 ∷ 1 ∷ 3 ∷ [];
  dpu_id_to_partition = λ d. 0;
}

abbrev three_loader : ReplicasInfo
three_loader = record {
  cur_dpu = 5;
  cur_ret_partition = 1;
  nr_replicas_per_partition = 2 ∷ 1 ∷ 3 ∷ [];
  nr_replicas_cumulative_partition = [];
}

three-sorted : SortedOn (low_bound_at three) 0 (length (three.low_bound_key))
unfolding is_sort_list
three-sorted = is_sort_list→sorted (three.low_bound_key) refl

three-counts :
    (i : ℕ) → i < length (three.low_bound_key) → 0 < get_or (three.nr_replicas_per_partition) i 0
three-counts zero h = omega arith
three-counts (suc zero) h = omega arith
three-counts (suc (suc zero)) h = omega arith
three-counts (suc (suc (suc i))) h = absurd (omega arith)

search_upper_level_run :
    search_upper_level 35 7 true (0 ∷ 0 ∷ 0 ∷ []) (get_start_dpu_id three)
    ≡ some (4, 0 ∷ 0 ∷ 1 ∷ [])
unfolding search_upper_level level_bound upper_bound upper_bound_loop get_start_dpu_id
search_upper_level_run = refl

load_order_run :
    load_order 6 (reset (get_cumulative_info three_loader))
    ≡ some 0 ∷ some 0 ∷ some 1 ∷ some 2 ∷ some 2 ∷ some 2 ∷ []
unfolding load_order next_partition found_partition reset get_cumulative_info
load_order_run = refl

search_upper_level-routes_example :
    (p d : ℕ) × IsPartition 35 p three
    × (search_upper_level 35 7 true (0 ∷ 0 ∷ 0 ∷ []) (get_start_dpu_id three)
        ≡ some (
          d,
          if true then set (0 ∷ 0 ∷ 0 ∷ []) p (get_or (0 ∷ 0 ∷ 0 ∷ []) p 0 + 1) else 0 ∷ 0 ∷ 0 ∷ [],
        ))
    × (d < total (three.nr_replicas_per_partition))
    × ((get_start_dpu_id three).dpu_id_to_partition d ≡ p)
search_upper_level-routes_example =
    search_upper_level-routes 35 7 true (0 ∷ 0 ∷ 0 ∷ []) three three-sorted (omega arith)
      (omega arith) refl three-counts

load_order-get_start_dpu_id_example :
    get_elem? (load_order 6 (reset (get_cumulative_info three_loader))) 4
    ≡ some (some ((get_start_dpu_id three).dpu_id_to_partition 4))
load_order-get_start_dpu_id_example =
    load_order-get_start_dpu_id 6 4 three three_loader refl (omega arith) (omega arith)
