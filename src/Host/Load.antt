-- ===== src/Host/Load.antt =====
-- What `load_hot_replica` loads, the epsilon that `bulk_load_for_dpu` starts from, and what the
-- DPUs get of the overflow trees.
use pimlex_fast.Base.{
  ℕ, zero, suc, ◌*◌, ◌/◌, ◌<◌, ◌≡◌, refl, List, [], ◌∷◌, Option, some, Bool, true, false, not, ◌||◌,
  ltb, leb, ◌==◌, if◌then◌else◌, length, get_elem?,
}
use pimlex_fast.Tree.Defs.{Node, insert, get_all_inner}
use pimlex_fast.Routing.Defs.{
  DramLevel, ReplicasInfo, get_start_dpu_id, load_hot_replicas_info, get_cumulative_info, reset,
  load_order,
}
use pimlex_fast.Routing.Replicas.{total, load_order-get_start_dpu_id}
use pimlex_fast.Host.Index.{Index, set_tree}
use pimlex_fast.Host.Batches.{nr_dpus, partition_id}

-- `load_hot_replica`: the partition level with the new counts, and the partitions that the DPUs are
-- loaded with, in their order. `made` is the record that the constructor has made.
unfoldable pub load_hot_replica : List ℕ → ReplicasInfo → DramLevel → DramLevel × List (Option ℕ)
load_hot_replica num_dpu_per_partition made level = (
  get_start_dpu_id (record level { nr_replicas_per_partition = num_dpu_per_partition }),
  load_order nr_dpus
      (reset (get_cumulative_info (load_hot_replicas_info num_dpu_per_partition made))),
)

-- After `load_hot_replica`, every DPU that the new counts cover is loaded with the partition that
-- the new level names for it.
load_hot_replica_lem :
    (num_dpu_per_partition : List ℕ) (made : ReplicasInfo) (level : DramLevel) (d : ℕ)
    → d < nr_dpus
    → d < total num_dpu_per_partition
    → get_elem? (load_hot_replica num_dpu_per_partition made level).1 d
      ≡ some (some ((load_hot_replica num_dpu_per_partition made level).0.dpu_id_to_partition d))
unfolding load_hot_replica load_hot_replicas_info
load_hot_replica_lem counts made level d h k =
    load_order-get_start_dpu_id nr_dpus d (record level { nr_replicas_per_partition = counts })
      (load_hot_replicas_info counts made) refl h k

abbrev pub max_model_size : ℕ
max_model_size = 2560

abbrev pub data_epsilon : ℕ
data_epsilon = 64

-- The choice of epsilon on the first slice: the number of models that the PGM-index has with an
-- epsilon is a parameter, and so are the cost of that many models and the order of the costs.
module _ {C : Type 0} (model_size : ℕ → ℕ) (cost : ℕ → ℕ → C) (le : C → C → Bool) where
  abbrev pub cost_of : ℕ → C
  cost_of epsilon = cost (model_size epsilon) epsilon

  -- The loops stop after three rounds, since `loop_num > 2` then.
  unfoldable pub lower_epsilon : ℕ → ℕ → C → ℕ
  lower_epsilon zero epsilon prev_cost = epsilon
  lower_epsilon (suc n) epsilon prev_cost =
      let next = epsilon / 2 in
      let rest = lower_epsilon n next (cost_of (next / 2)) in
      if ltb 1 epsilon
      then (if le prev_cost (cost_of (next / 2)) || leb max_model_size (model_size (next / 2))
          then next
          else rest)
      else epsilon

  unfoldable pub raise_epsilon : ℕ → ℕ → C → ℕ
  raise_epsilon zero epsilon next_cost = epsilon
  raise_epsilon (suc n) epsilon next_cost =
      let next = epsilon * 2 in
      let rest = raise_epsilon n next (cost_of (next * 2)) in
      if ltb epsilon 2048
      then (if le next_cost (cost_of (next * 2)) || leb max_model_size (model_size (next * 2))
          then next
          else rest)
      else epsilon

  unfoldable pub init_epsilon : ℕ
  unfolding lower_epsilon raise_epsilon
  init_epsilon =
      let prev_cost = cost_of (data_epsilon / 2) in
      let next_cost = cost_of (data_epsilon * 2) in
      if not
        (le (cost_of data_epsilon) prev_cost || leb max_model_size (model_size (data_epsilon / 2)))
      then lower_epsilon 3 data_epsilon prev_cost
      else (if not (
            le (cost_of data_epsilon) next_cost
            || leb max_model_size (model_size (data_epsilon * 2)))
          then raise_epsilon 3 data_epsilon next_cost
          else data_epsilon)

-- `collect_overflow_tree_to_dpu`: a tree with fewer than 10 collected keys stays on the host.
unfoldable pub overflow_size : Node → ℕ
overflow_size tree =
    if ltb (length (get_all_inner tree).1) 10 then 0 else length (get_all_inner tree).1

unfoldable pub enable_overflow : Node → Bool → Bool
enable_overflow tree enabled =
    if ltb (length (get_all_inner tree).1) 10
    then false
    else (if (get_all_inner tree).0 then true else enabled)

-- `insert_payload_skew_past` for one DPU: with answers, it only looks the keys up from the answered
-- nodes, which changes nothing; without, it inserts the keys that were sent back.
abbrev pub insert_all : List ℕ → Node → Node
insert_all [] tree = tree
insert_all (k ∷ ks) tree = insert_all ks (insert k tree).1

unfoldable pub insert_payload_skew_past : (ℕ → ℕ) → (ℕ → List ℕ) → List ℕ → Index → Index
insert_payload_skew_past n_tasks sent [] d = d
insert_payload_skew_past n_tasks sent (i ∷ order) d =
    let tree = d.opt_overflow_trees (partition_id d i) in
    insert_payload_skew_past n_tasks sent order
      (if n_tasks i == 1 then set_tree d (partition_id d i) (insert_all (sent i) tree) else d)
