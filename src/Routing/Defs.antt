-- ===== src/Routing/Defs.antt =====
-- `dram_level` and `replicas_info_t`.
use pimlex_fast.Base.{
  ℕ, zero, suc, ◌+◌, ◌-◌, ◌%◌, List, [], ◌∷◌, Option, none, some, Bool, length, get_or, set, ltb,
  leb, ◌==◌, if◌then◌else◌, replicate,
}
use pimlex_fast.Search.{upper_bound}

abbrev pub nr_partition : ℕ
nr_partition = 128

pub record DramLevel : Type 0 where
  pub low_bound_key : List ℕ
  pub start_dpu_id : List ℕ
  pub nr_replicas_per_partition : List ℕ
  -- The `unordered_map`: a key that is not there reads as 0.
  pub dpu_id_to_partition : ℕ → ℕ

-- `start_dpu_id[i]`: the running sum before each count.
abbrev pub start_ids : ℕ → List ℕ → List ℕ
start_ids cumulative [] = []
start_ids cumulative (r ∷ rs) = cumulative ∷ start_ids (cumulative + r) rs

abbrev pub assign : (ℕ → ℕ) → ℕ → ℕ → ℕ → ℕ
assign m d i x = if x == d then i else m x

-- The inner loop: `n` DPUs from `start` on belong to partition `i`.
abbrev pub assign_range : ℕ → ℕ → ℕ → (ℕ → ℕ) → ℕ → ℕ
assign_range zero start i m = m
assign_range (suc n) start i m = assign_range n (start + 1) i (assign m start i)

abbrev pub assign_partitions : ℕ → ℕ → List ℕ → (ℕ → ℕ) → ℕ → ℕ
assign_partitions i cumulative [] m = m
assign_partitions i cumulative (r ∷ rs) m =
    assign_partitions (i + 1) (cumulative + r) rs (assign_range r cumulative i m)

-- `get_start_dpu_id`; entries of an earlier call stay where this one has none.
unfoldable pub get_start_dpu_id : DramLevel → DramLevel
get_start_dpu_id s = record s {
  start_dpu_id = start_ids 0 s.nr_replicas_per_partition;
  dpu_id_to_partition = assign_partitions 0 0 s.nr_replicas_per_partition s.dpu_id_to_partition;
}

-- The `l` that the bisection of `low_bound_key` leaves.
unfoldable pub level_bound : ℕ → DramLevel → ℕ
level_bound key s = upper_bound (λ i. get_or s.low_bound_key i 0) key 0 (length s.low_bound_key)

-- `search_upper_level_get_partition`: `l - 1`, where `none` is -1.
unfoldable pub search_upper_level_get_partition : ℕ → DramLevel → Option ℕ
unfolding level_bound
search_upper_level_get_partition key s =
    if level_bound key s == 0 then none else some (level_bound key s - 1)

-- The clamp that every caller makes: `p >= NR_PARTITION` to the last one, `p < 0` to 0.
abbrev pub clamp_partition : ℕ → Option ℕ → ℕ
clamp_partition n none = 0
clamp_partition n (some p) = if leb n p then n - 1 else p

-- `search_upper_level`: the DPU for the request `rd`, and the sampled access counts. `none` is an
-- access at index -1 or a remainder by 0.
unfoldable pub search_upper_level : ℕ → ℕ → Bool → List ℕ → DramLevel → Option (ℕ × List ℕ)
unfolding level_bound
search_upper_level key rd sample access_num s =
    let p = level_bound key s - 1 in
    if level_bound key s == 0
    then none
    else (if get_or s.nr_replicas_per_partition p 0 == 0
        then none
        else some (
          get_or s.start_dpu_id p 0 + rd % get_or s.nr_replicas_per_partition p 0,
          if sample then set access_num p (get_or access_num p 0 + 1) else access_num,
        ))

-- `replicas_info_t`
pub record ReplicasInfo : Type 0 where
  pub cur_dpu : ℕ
  pub cur_ret_partition : ℕ
  pub nr_replicas_per_partition : List ℕ
  pub nr_replicas_cumulative_partition : List ℕ

-- The constructors: the same count for every partition; the cumulative array is not set.
unfoldable pub replicas_info : ℕ → List ℕ → ReplicasInfo
replicas_info set_replicas unset = record {
  cur_dpu = 0;
  cur_ret_partition = 0;
  nr_replicas_per_partition = replicate nr_partition set_replicas;
  nr_replicas_cumulative_partition = unset;
}

abbrev pub cumulative_sums : ℕ → List ℕ → List ℕ
cumulative_sums cumulative [] = []
cumulative_sums cumulative (r ∷ rs) = (cumulative + r) ∷ cumulative_sums (cumulative + r) rs

unfoldable pub get_cumulative_info : ReplicasInfo → ReplicasInfo
get_cumulative_info s = record s {
  nr_replicas_cumulative_partition = cumulative_sums 0 s.nr_replicas_per_partition;
}

unfoldable pub reset : ReplicasInfo → ReplicasInfo
reset s = record s { cur_dpu = 0; cur_ret_partition = 0 }

-- `load_hot_replicas_info`, from the DPU counts of the access record.
unfoldable pub load_hot_replicas_info : List ℕ → ReplicasInfo → ReplicasInfo
load_hot_replicas_info num_dpu_per_partition s = record s {
  cur_dpu = 0;
  cur_ret_partition = 0;
  nr_replicas_per_partition = num_dpu_per_partition;
}

-- `while(cur_dpu >= cumulative[p]) p++` from partition `p` on, over the cumulative counts from
-- there; `none` is a run past the array.
abbrev pub advance : ℕ → ℕ → List ℕ → Option ℕ
advance cur_dpu p [] = none
advance cur_dpu p (c ∷ cs) = if leb c cur_dpu then advance cur_dpu (p + 1) cs else some p

abbrev pub drop : ℕ → List ℕ → List ℕ
drop zero cs = cs
drop (suc n) [] = []
drop (suc n) (c ∷ cs) = drop n cs

-- The partition that a call returns: the current one, or the next that reaches beyond the DPU.
unfoldable pub found_partition : ReplicasInfo → Option ℕ
found_partition s =
    if ltb s.cur_dpu (get_or s.nr_replicas_cumulative_partition s.cur_ret_partition 0)
    then some s.cur_ret_partition
    else advance s.cur_dpu (s.cur_ret_partition + 1)
        (drop (s.cur_ret_partition + 1) s.nr_replicas_cumulative_partition)

-- `cur_dpu++`, with the partition that the call has moved to.
abbrev pub deal : ReplicasInfo → Option ℕ → Option ℕ × ReplicasInfo
deal s none = (none, record s { cur_dpu = s.cur_dpu + 1 })
deal s (some p) = (some p, record s { cur_dpu = s.cur_dpu + 1; cur_ret_partition = p })

unfoldable pub next_partition : ReplicasInfo → Option ℕ × ReplicasInfo
unfolding found_partition
next_partition s = deal s (found_partition s)

-- `DPU_FOREACH(dpu_set, dpu, i){ cur_p = next_partition(); … }`: the partitions in DPU order.
unfoldable pub load_order : ℕ → ReplicasInfo → List (Option ℕ)
unfolding next_partition
load_order zero s = []
load_order (suc n) s = (next_partition s).0 ∷ load_order n (next_partition s).1
