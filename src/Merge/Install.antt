-- ===== src/Merge/Install.antt =====
-- The rest of `merge_and_retrain`: the sampled keys of the new array, the new index, and the overflow
-- keys that go into it. The PGM-indexes are trained by code that is a parameter: the `lo` and the `hi`
-- of their `search`.
use pimlex_fast.Base.{
  ℕ, zero, suc, ◌+◌, ◌-◌, ◌*◌, ◌/◌, ◌%◌, ◌^◌, List, [], ◌∷◌, ◌++◌, Option, none, some, ltb, leb,
  ◌==◌, if◌then◌else◌,
}
use pimlex_fast.Search.{upper_bound}
use pimlex_fast.Payload.{StringPayload}
use pimlex_fast.Page.{Entry, BufPage}
use pimlex_fast.Tree.Defs.{clear, get_all_data}
use pimlex_fast.Routing.Defs.{ReplicasInfo, nr_partition}
use pimlex_fast.Host.Index.{Index, before, interleave, page_ratio, partition_of, place}
use pimlex_fast.Host.Batches.{nr_dpus}
use pimlex_fast.Host.Bulk.{low_bounds, new_pages}
use pimlex_fast.Host.Sampling.{sample_loop}
use pimlex_fast.Host.Load.{load_hot_replica}
use pimlex_fast.Merge.Defs.{merge_thread_num, merge_threads, new_total_size}

abbrev pub processing_num_keys : ℕ → ℕ
processing_num_keys n = n / merge_thread_num - n / merge_thread_num % interleave

abbrev pub end_processing : ℕ → ℕ → ℕ
end_processing n tid = if tid == merge_thread_num - 1 then n else processing_num_keys n * (tid + 1)

-- The fourth step of a thread; `n` is the new total size, and a bound of the rounds.
unfoldable pub sample_thread : ℕ → (ℕ → Entry) → ℕ → (ℕ → ℕ) → ℕ → ℕ
unfolding sample_loop
sample_thread n new tid partial_keys =
    sample_loop (λ i. (new i).buf_key) (end_processing n tid) n
      (processing_num_keys n * tid / interleave) (processing_num_keys n * tid % 2 ^ 32) partial_keys

unfoldable pub sample_threads : ℕ → (ℕ → Entry) → List ℕ → (ℕ → ℕ) → ℕ → ℕ
unfolding sample_thread
sample_threads n new [] partial_keys = partial_keys
sample_threads n new (tid ∷ tids) partial_keys =
    sample_threads n new tids (sample_thread n new tid partial_keys)

-- `dindex` and the partition level after it: `counts` are the replicas that the skew of the sampled
-- queries gives, and `made` is the record that the constructor of `replicas_info_t` makes.
unfoldable pub set_dindex :
    List ℕ → ReplicasInfo → (ℕ → BufPage) → (ℕ → Entry) → (ℕ → ℕ) → Index → Index
set_dindex counts made behind new partial_keys d =
    let n : ℕ = new_total_size d in
    record d {
      keys = λ i. (new i).buf_key;
      payloads = λ i. (new i).buf_payload;
      total_size = n;
      partial_keys = partial_keys;
      partial_total_size = n / interleave;
      buffer_pages = new_pages (n / page_ratio + 1) behind;
      upper_dram_level =
          (load_hot_replica counts made (record d.upper_dram_level {
            low_bound_key = low_bounds partial_keys (n / interleave / nr_partition) 0 nr_partition;
          })).0;
    }

-- `collect_overflow_keys`, and the trees cleared.
abbrev pub collect_overflow_keys : Index → ℕ → ℕ → List ℕ
collect_overflow_keys d p zero = []
collect_overflow_keys d p (suc n) =
    (get_all_data (d.opt_overflow_trees p)).1 ++ collect_overflow_keys d (p + 1) n

abbrev pub clear_trees : Index → Index
clear_trees d = record d {
  opt_overflow_trees = λ p. if ltb p nr_partition then clear else d.opt_overflow_trees p;
}

-- The insertion of the overflow keys; here a slice counts as the `NR_DPUS`th part of the sampled keys.
module _ (pgm_search : ℕ → ℕ → ℕ × ℕ) where
  abbrev pub reinsert_bound : Index → ℕ → ℕ
  reinsert_bound d key =
      let p : ℕ = partition_of d key in
      let lo : ℕ = (pgm_search p key).0 + d.partial_total_size / nr_dpus * p in
      let hi : ℕ = (pgm_search p key).1 + d.partial_total_size / nr_dpus * p in
      upper_bound d.partial_keys key lo
        (if leb d.partial_total_size hi then before d.partial_total_size else hi)

  unfoldable pub reinsert : List (ℕ × StringPayload) → Index → Index
  reinsert [] d = d
  reinsert ((key, val) ∷ rest) d = reinsert rest (
      place val d (partition_of d key)
        (before (reinsert_bound d key) * interleave % 2 ^ 64 / page_ratio) key)

-- The keys with the payloads collected beside them.
abbrev pub with_values : (ℕ → StringPayload) → ℕ → List ℕ → List (ℕ × StringPayload)
with_values vals i [] = []
with_values vals i (key ∷ keys) = (key, vals i) ∷ with_values vals (i + 1) keys

-- `merge_and_retrain`: `mergers` and `samplers` are the threads in the order in which they do the third
-- and the fourth step, `new` and `partial` the new arrays before.
module _ (counts : List ℕ) (made : ReplicasInfo) (behind : ℕ → BufPage) (vals : ℕ → StringPayload)
    (pgm_search : ℕ → ℕ → ℕ × ℕ) where
  unfoldable pub install : Index → (ℕ → ℕ) → (ℕ → Entry) → List ℕ → Index
  unfolding sample_threads set_dindex reinsert
  install d partial_keys new samplers =
      let next : Index =
        set_dindex counts made behind new
          (sample_threads (new_total_size d) new samplers partial_keys) d in
      reinsert pgm_search (with_values vals 0 (collect_overflow_keys next 0 nr_partition))
        (clear_trees next)

  unfoldable pub merge_and_retrain :
      ℕ → (ℕ → Entry) → List ℕ → List ℕ → (ℕ → Entry) → (ℕ → ℕ) → Index → Option Index
  unfolding install
  merge_and_retrain readable unset mergers samplers new partial_keys d =
      elim (merge_threads d readable unset mergers new) [
        | none ↦ none
        | some merged ↦ some (install d partial_keys merged samplers)
      ]
