-- ===== src/Run/Defs.antt =====
-- The warm-up and the search branch of `main`: a thread slots its queries, has the DPUs search, and reads the payloads.
-- `answers` is what each DPU leaves in its `rbuffer` for the cells sent to it.
use pimlex_fast.Routing.Defs.{DramLevel, ReplicasInfo, nr_partition, search_upper_level}
use pimlex_fast.Skew.{Ratios, Entry, counts, calculate_partition_skew}
use pimlex_fast.Host.Load.{load_hot_replica}
use pimlex_fast.Base.{◌/◌, ℕ, zero, suc, ◌+◌, ◌-◌, List, [], ◌∷◌, Option, none, some, true}
use pimlex_fast.Payload.{StringPayload}
use pimlex_fast.Host.Index.{Index}
use pimlex_fast.Host.Requests.{Request}
use pimlex_fast.Host.Batches.{nr_dpus, get_real_payload}
use pimlex_fast.Batch.Defs.{thread_range, slot_search}

-- The cells of a DPU with its answers, from cell `j` on.
abbrev pub with_answers : (ℕ → ℕ) → ℕ → List ℕ → List Request
with_answers rbuffer j [] = []
with_answers rbuffer j (key ∷ sbuffer) =
    record { key = key; slot = rbuffer j } ∷ with_answers rbuffer (j + 1) sbuffer

-- `dpu_sync` and `get_index_lookup_result`
abbrev pub received : (ℕ → List ℕ → ℕ → ℕ) → (ℕ → List ℕ) → ℕ → List Request
received answers host_send_buffer i =
    with_answers (answers i (host_send_buffer i)) 0 (host_send_buffer i)

-- The send buffers of the thread, from empty ones.
unfoldable pub search_buffers : Index → List ℕ → (ℕ → ℕ) → ℕ → ℕ → Option (ℕ → List ℕ)
unfolding slot_search thread_range
search_buffers d access_num querys num_querys tid =
    let range = thread_range num_querys tid in
    slot_search d.upper_dram_level access_num querys (range.1 - range.0) range.0 (λ i. [])

-- One thread of a run with the flag `search`.
unfoldable pub search_thread :
    (ℕ → ℕ → ℕ × ℕ)
    → (ℕ → List ℕ → ℕ → ℕ)
    → List ℕ
    → (ℕ → ℕ)
    → ℕ
    → ℕ
    → StringPayload × Index
    → Option (StringPayload × Index)
unfolding search_buffers get_real_payload
search_thread pgm_search answers access_num querys num_querys tid (ret, d) =
    elim (search_buffers d access_num querys num_querys tid) [
      | none ↦ none
      | some host_send_buffer ↦
          get_real_payload pgm_search true (received answers host_send_buffer) (ret, d)
    ]

-- The warm-up: the accesses of the first `n` queries, 1000000 of them in `main`, are counted on the
-- level, and the DPUs are dealt anew.
module _ (level : DramLevel) (querys : ℕ → ℕ) where
  -- `n` queries from `req` on.
  unfoldable pub sample_accesses : ℕ → ℕ → List ℕ → Option (List ℕ)
  sample_accesses zero req access_num = some access_num
  sample_accesses (suc n) req access_num =
      elim (search_upper_level (querys req) req true access_num level) [
        | none ↦ none
        | some (dpu_idx, counted) ↦ sample_accesses n (req + 1) counted
      ]

module _ (F : Ratios) (sort_dpu_ratio sort_pid : List (Entry F) → List (Entry F))
    (made : ReplicasInfo) where
  abbrev pub reload : Index → Option (List (Entry F)) → Option Index
  reload d none = none
  reload d (some record_ratio) = some (record d {
    upper_dram_level = (load_hot_replica (counts record_ratio) made d.upper_dram_level).0;
  })

  unfoldable pub warm_up : (ℕ → ℕ) → ℕ → List ℕ → Index → Option Index
  unfolding sample_accesses calculate_partition_skew
  warm_up querys n access_num d = elim (sample_accesses d.upper_dram_level querys n 0 access_num) [
    | none ↦ none
    | some sampled ↦
        reload d
          (calculate_partition_skew F sort_dpu_ratio sort_pid (nr_dpus / nr_partition) n sampled)
  ]
