-- ===== src/Batch/Defs.antt =====
-- The send buffers of a thread: of each DPU the cells of `sbuffer` below `n_tasks`, as a list, with the
-- cells of `ops` or of `endkeys` beside them.
use pimlex_fast.Base.{
  ℕ, zero, suc, ◌+◌, ◌-◌, ◌*◌, ◌/◌, ◌%◌, ◌^◌, List, [], ◌∷◌, ◌++◌, Option, none, some, Bool, true,
  false, length, ltb, leb, ◌==◌, if◌then◌else◌,
}
use pimlex_fast.Routing.Defs.{DramLevel, search_upper_level}
use pimlex_fast.Host.Batches.{nr_dpus}

abbrev pub thread_num : ℕ
thread_num = 32

abbrev pub max_buffer_size : ℕ
max_buffer_size = 32768

module _ {A : Type 0} where
  unfoldable pub clear_send_buffer : (ℕ → List A) → ℕ → List A
  clear_send_buffer host_send_buffer i = []

  abbrev pub push : ℕ → A → (ℕ → List A) → ℕ → List A
  push dpu_idx x host_send_buffer i =
      if i == dpu_idx then host_send_buffer dpu_idx ++ (x ∷ []) else host_send_buffer i

  -- A store behind `sbuffer` is `none`.
  abbrev pub slot_at : A → (ℕ → List A) → Option (ℕ × List ℕ) → Option (ℕ → List A)
  slot_at x host_send_buffer none = none
  slot_at x host_send_buffer (some (dpu_idx, access_num)) =
      if leb max_buffer_size (length (host_send_buffer dpu_idx))
      then none
      else some (push dpu_idx x host_send_buffer)

  module _ (level : DramLevel) (access_num : List ℕ) (querys : ℕ → ℕ) (kept : ℕ → Bool)
      (cell : ℕ → A) where
    unfoldable pub slot_query : ℕ → (ℕ → List A) → Option (ℕ → List A)
    slot_query req host_send_buffer =
        if kept req
        then slot_at (cell req) host_send_buffer
            (search_upper_level (querys req) req false access_num level)
        else some host_send_buffer

    -- `n` requests from `req` on.
    unfoldable pub slot_queries : ℕ → ℕ → (ℕ → List A) → Option (ℕ → List A)
    unfolding slot_query
    slot_queries zero req host_send_buffer = some host_send_buffer
    slot_queries (suc n) req host_send_buffer = elim (slot_query req host_send_buffer) [
      | none ↦ none
      | some next ↦ slot_queries n (req + 1) next
    ]

-- The four loops.
unfoldable pub slot_insert :
    DramLevel → List ℕ → ℕ → (ℕ → ℕ) → ℕ → ℕ → (ℕ → List ℕ) → Option (ℕ → List ℕ)
unfolding slot_queries
slot_insert level access_num min_key querys n req buffers =
    slot_queries level access_num querys (λ r. ltb min_key (querys r)) querys n req buffers

unfoldable pub slot_mix :
    DramLevel
    → List ℕ
    → ℕ
    → (ℕ → ℕ)
    → (ℕ → ℕ)
    → ℕ
    → ℕ
    → (ℕ → List (ℕ × ℕ))
    → Option (ℕ → List (ℕ × ℕ))
unfolding slot_queries
slot_mix level access_num min_key querys ops n req buffers =
    slot_queries level access_num querys (λ r. ltb min_key (querys r)) (λ r. (querys r, ops r)) n
      req buffers

-- An end key is stored in 32 bits.
unfoldable pub slot_scan :
    DramLevel → List ℕ → (ℕ → ℕ) → (ℕ → ℕ) → ℕ → ℕ → (ℕ → List (ℕ × ℕ)) → Option (ℕ → List (ℕ × ℕ))
unfolding slot_queries
slot_scan level access_num querys scan_end_querys n req buffers =
    slot_queries level access_num querys (λ r. true) (λ r. (querys r, scan_end_querys r % 2 ^ 32)) n
      req buffers

unfoldable pub slot_search :
    DramLevel → List ℕ → (ℕ → ℕ) → ℕ → ℕ → (ℕ → List ℕ) → Option (ℕ → List ℕ)
unfolding slot_queries
slot_search level access_num querys n req buffers =
    slot_queries level access_num querys (λ r. true) querys n req buffers

-- The insertion loop between `test_lock_set` and `test_lock_version_change`: each of `changed` is the
-- partition level of a run that a merge has overtaken; its requests are cleared.
unfoldable pub slot_retry :
    List DramLevel → DramLevel → List ℕ → ℕ → (ℕ → ℕ) → ℕ → ℕ → (ℕ → List ℕ) → Option (ℕ → List ℕ)
unfolding slot_insert
slot_retry [] level access_num min_key querys n req buffers =
    slot_insert level access_num min_key querys n req buffers
slot_retry (old ∷ changed) level access_num min_key querys n req buffers =
    elim (slot_insert old access_num min_key querys n req buffers) [
      | none ↦ none
      | some slotted ↦
          slot_retry changed level access_num min_key querys n req (clear_send_buffer slotted)
    ]

-- `max_buffer_size_search`: the largest `n_tasks`, and the bytes to send and to receive.
abbrev pub max_tasks : (ℕ → ℕ) → ℕ → ℕ → ℕ → ℕ
max_tasks n_tasks i zero max = max
max_tasks n_tasks i (suc n) max =
    max_tasks n_tasks (i + 1) n (if ltb max (n_tasks i) then n_tasks i else max)

unfoldable pub max_buffer_size_search : (ℕ → ℕ) → ℕ × ℕ
max_buffer_size_search n_tasks =
    let max = max_tasks n_tasks 0 nr_dpus 0 in
    let rbuffer_size = max * 4 + 8 in
    (max * 8 + 8, if rbuffer_size % 8 == 0 then rbuffer_size else rbuffer_size + 4)

unfoldable pub max_overflow_buffer_size_search : (ℕ → ℕ) → ℕ × ℕ
max_overflow_buffer_size_search n_tasks =
    let max = max_tasks n_tasks 0 nr_dpus 0 in (max * 8 + 8, max * 8 + 8)

-- The requests of a thread, and of a round of an insertion run: the first one, and the one behind the last.
abbrev pub per_thread_ops : ℕ → ℕ
per_thread_ops num_querys = num_querys / thread_num

abbrev pub per_round_ops : ℕ → ℕ
per_round_ops num_querys = per_thread_ops num_querys / 2

unfoldable pub thread_range : ℕ → ℕ → ℕ × ℕ
thread_range num_querys tid = (
  per_thread_ops num_querys * tid,
  if tid == thread_num - 1 then num_querys else per_thread_ops num_querys * (tid + 1),
)

unfoldable pub round_range : ℕ → ℕ → ℕ → ℕ × ℕ
round_range num_querys tid round =
    let start = per_thread_ops num_querys * tid in
    (
      start + per_round_ops num_querys * round,
      if round == 1
          then (if tid == thread_num - 1
              then num_querys
              else start + per_round_ops num_querys * (round + 1))
          else start + per_round_ops num_querys * (round + 1),
    )
