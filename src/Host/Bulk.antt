-- ===== src/Host/Bulk.antt =====
-- What `bulk_load_for_dpu` makes of the keys: the arrays, the pages, the trees and the partition level.
-- The sort is a parameter, and so are the models and the transfers.
use pimlex_fast.Base.{ℕ, zero, suc, ◌+◌, ◌*◌, ◌/◌, List, [], ◌∷◌, ltb, if◌then◌else◌, min}
use pimlex_fast.Payload.{string_payload}
use pimlex_fast.Page.{BufPage, init}
use pimlex_fast.Tree.Defs.{Node, insert}
use pimlex_fast.Routing.Defs.{nr_partition, get_start_dpu_id, replicas_info}
use pimlex_fast.Host.Index.{Index, before, interleave, page_ratio}
use pimlex_fast.Host.Batches.{nr_dpus}
use pimlex_fast.Host.Load.{insert_all}
use pimlex_fast.Host.Sampling.{sample_loop}

-- The sampled keys from `start` on, one of each slice.
abbrev pub low_bounds : (ℕ → ℕ) → ℕ → ℕ → ℕ → List ℕ
low_bounds partial_keys per start zero = []
low_bounds partial_keys per start (suc n) =
    partial_keys start ∷ low_bounds partial_keys per (start + per) n

-- The memory behind the pages is what `behind` says.
abbrev pub new_pages : ℕ → (ℕ → BufPage) → ℕ → BufPage
new_pages num_buf_pages behind i = if ltb i num_buf_pages then init else behind i

-- `insert_k`: 100 sampled keys, 800 apart, from the slice's first on.
abbrev pub insert_k : (ℕ → ℕ) → ℕ → ℕ → ℕ → ℕ → List ℕ
insert_k partial_keys partial_total_size partition_pos j zero = []
insert_k partial_keys partial_total_size partition_pos j (suc n) =
    partial_keys (min (partition_pos + j * 800) (before partial_total_size))
    ∷ insert_k partial_keys partial_total_size partition_pos (j + 1) n

unfoldable pub load_tree : (ℕ → ℕ) → ℕ → ℕ → Node → Node
load_tree partial_keys partial_total_size i tree =
    insert_all
      (insert_k partial_keys partial_total_size (partial_total_size / nr_partition * i) 0 100)
      (insert 1 tree).1

-- `bulk_load_for_dpu`; `sorted` are the keys after the sort. `d` is the index before, with the trees of
-- its constructor. The counts of a new `replicas_info_t` do not depend on its cumulative array.
unfoldable pub bulk_load_for_dpu : (ℕ → BufPage) → (ℕ → ℕ) → ℕ → (ℕ → ℕ) → Index → Index
unfolding load_tree sample_loop replicas_info
bulk_load_for_dpu behind sorted total_input_size partial_keys d =
    let partial : ℕ → ℕ = sample_loop sorted total_input_size total_input_size 0 0 partial_keys in
    let partial_total_size : ℕ = total_input_size / interleave in
    record d {
      keys = sorted;
      payloads = λ i. string_payload 99;
      total_size = total_input_size;
      partial_keys = partial;
      partial_total_size = partial_total_size;
      buffer_pages = new_pages (total_input_size / page_ratio + 1) behind;
      opt_overflow_trees = λ i.
          if ltb i nr_partition
          then load_tree partial partial_total_size i (d.opt_overflow_trees i)
          else d.opt_overflow_trees i;
      upper_dram_level = get_start_dpu_id (record d.upper_dram_level {
        low_bound_key = low_bounds partial (partial_total_size / nr_partition) 0 nr_partition;
        nr_replicas_per_partition =
            (replicas_info (nr_dpus / nr_partition) []).nr_replicas_per_partition;
      });
    }
