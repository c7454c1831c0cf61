-- ===== src/Examples/Runs.antt =====
-- A bulk load of 2,048 keys, the warm-up, and a thread of a search run.
use mathlib.Core.List.{Memᴰ}
use mathlib.Core.List.Permᴰ
use pimlex_fast.Base.{
  get_or, ◌+◌, ◌*◌, true, ◌-◌, ◌^◌, ℕ, ◌≤◌, ◌<◌, ◌≡◌, refl, ◌∙◌, arith, List, [], some, replicate,
}
use pimlex_fast.Payload.{StringPayload, string_payload}
use pimlex_fast.Routing.Defs.{DramLevel, ReplicasInfo, replicas_info}
use pimlex_fast.Routing.Partition.{IsPartition}
use pimlex_fast.Skew.{Entry, calculate_partition_skew}
use pimlex_fast.Host.Requests.{get_request}
use pimlex_fast.Host.Batches.{count_from, partition_id, run_dpus}
use pimlex_fast.Host.Bulk.{bulk_load_for_dpu}
use pimlex_fast.Host.Bound.{IsLoaded, IsAccurate}
use pimlex_fast.Host.Fresh.{bulk_load_for_dpu-IsLoaded}
use pimlex_fast.Batch.Defs.{thread_range}
use pimlex_fast.Run.Defs.{received, search_buffers, search_thread, sample_accesses, warm_up}
use pimlex_fast.Run.Record.{recorded}
use pimlex_fast.Run.Counts.{hits}
use pimlex_fast.Run.Serving.{IsServing}
use pimlex_fast.Run.Slots.{IsKey}
use pimlex_fast.Run.Search.{answered, search_thread-finds}
use pimlex_fast.Run.WarmUp.{bulk_load_for_dpu-IsServing, warm_up-IsServing}
use pimlex_fast.Examples.Merges.{behind}
use pimlex_fast.Examples.Loads.{unloaded, sorted, loaded}
use pimlex_fast.Examples.Skews.{twelfths, twelfths-IsUnbounded, kept_order}

loaded-IsLoaded : IsLoaded loaded
loaded-IsLoaded =
    bulk_load_for_dpu-IsLoaded behind sorted 2048 (λ i. 0) unloaded (λ i j p q r. omega arith)
      (omega arith) (omega arith)

loaded-IsServing : IsServing loaded.upper_dram_level
loaded-IsServing = bulk_load_for_dpu-IsServing behind sorted 2048 (λ i. 0) unloaded

-- Each slice has two sampled keys.
abbrev both_keys : ℕ → ℕ → ℕ × ℕ
both_keys p key = (0, 2)

both_keys-IsAccurate : IsAccurate both_keys loaded
unfolding bulk_load_for_dpu
both_keys-IsAccurate p key c h b = (omega arith, omega (arith, b.upto))

abbrev all_miss : ℕ → List ℕ → ℕ → ℕ
all_miss i sbuffer j = 2 ^ 32 - 1

sorted-IsKey : (r : ℕ) → r < 2040 → IsKey loaded (sorted r)
unfolding bulk_load_for_dpu
sorted-IsKey r h =
    (r, omega (arith, h), refl, omega (arith, loaded-IsLoaded.sampled 255 (omega arith), h))

-- The first bound is 1, and the second one 49.
sorted-IsPartition : (r : ℕ) → r < 3 → IsPartition (sorted r) 0 loaded.upper_dram_level
unfolding bulk_load_for_dpu
sorted-IsPartition r h =
    let loaded_bound = λ (i : ℕ) (k : i < 128).
      loaded-IsLoaded.bounds i k ∙ loaded-IsLoaded.sampled (2 * i) (omega arith) in
    record {
      inside = omega (arith, loaded-IsLoaded.partitions);
      low = λ i k.
          let none_before : i ≡ 0 = omega arith in
          rw none_before (omega (arith, loaded_bound 0 (omega arith)));
      high = λ i k l.
          let bound = loaded_bound i (omega (arith, loaded-IsLoaded.partitions, l)) in
          omega (arith, bound, k, h);
    }

-- The third of 32 threads, with two of 64 queries.
search_thread-finds_example :
    (buffers : ℕ → List ℕ) × (last : StringPayload) × (notes : List (ℕ × StringPayload))
    × (search_buffers loaded [] sorted 64 2 ≡ some buffers)
    × (search_thread both_keys all_miss [] sorted 64 2 (string_payload 48, loaded)
        ≡ some (last, loaded))
    × (run_dpus
          (recorded (λ i q s. get_request both_keys true (partition_id s.1 i) q s) answered)
          (received all_miss buffers)
          (count_from 0 512)
          ((string_payload 48, loaded), [])
        ≡ some ((last, loaded), notes))
    × ((r at : ℕ)
        → (thread_range 64 2).0 ≤ r
        → r < (thread_range 64 2).1
        → at < 2048
        → sorted at ≡ sorted r
        → Memᴰ (sorted r, loaded.payloads at) notes)
unfolding thread_range bulk_load_for_dpu
search_thread-finds_example =
    search_thread-finds loaded loaded-IsLoaded both_keys both_keys-IsAccurate all_miss [] sorted 64
      2 (string_payload 48) loaded-IsServing (omega arith)
      (λ r a b. sorted-IsKey r (omega (arith, b)))

abbrev made : ReplicasInfo
made = replicas_info 4 []

warm_up-IsServing_example :
    (sampled : List ℕ) × (sample_accesses loaded.upper_dram_level sorted 3 0 (replicate 128 0)
      ≡ some sampled)
    × ((p : ℕ) → get_or sampled p 0 ≡ get_or (replicate 128 0) p 0 + hits (λ r. 0) p 3 0)
    × ((record_ratio : List (Entry twelfths))
        → calculate_partition_skew twelfths kept_order kept_order 4 3 sampled ≡ some record_ratio
        → (level : DramLevel) × (warm_up twelfths kept_order kept_order made sorted 3
              (replicate 128 0)
              loaded
            ≡ some (record loaded { upper_dram_level = level }))
          × IsLoaded (record loaded { upper_dram_level = level })
          × IsServing level)
warm_up-IsServing_example =
    warm_up-IsServing loaded loaded-IsLoaded loaded-IsServing sorted (λ r. 0) twelfths
      twelfths-IsUnbounded kept_order kept_order Permᴰ.refl Permᴰ.refl made 3 (replicate 128 0) refl
      sorted-IsPartition
