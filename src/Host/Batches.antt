-- ===== src/Host/Batches.antt =====
-- The handlers on a batch: the requests of each DPU, in the order in which the handler visits them.
use pimlex_fast.Base.{ℕ, zero, suc, ◌+◌, List, [], ◌∷◌, Option, none, some, Bool}
use pimlex_fast.Payload.{StringPayload}
use pimlex_fast.Host.Index.{Index}
use pimlex_fast.Host.Requests.{Request, get_request, insert_request}
use pimlex_fast.Host.Mix.{mix_request}

abbrev pub nr_dpus : ℕ
nr_dpus = 512

abbrev pub count_from : ℕ → ℕ → List ℕ
count_from i zero = []
count_from i (suc n) = i ∷ count_from (i + 1) n

-- `dpu_id_to_partition[i]`
abbrev pub partition_id : Index → ℕ → ℕ
partition_id d i = d.upper_dram_level.dpu_id_to_partition i

-- The two loops of a handler: over DPUs and over the requests of one. A step may fail.
module _ {S Q : Type 0} (step : ℕ → Q → S → Option S) where
  unfoldable pub run_requests : ℕ → List Q → S → Option S
  run_requests i [] s = some s
  run_requests i (q ∷ qs) s = elim (step i q s) [ none ↦ none | some s' ↦ run_requests i qs s' ]

  unfoldable pub run_dpus : (ℕ → List Q) → List ℕ → S → Option S
  unfolding run_requests
  run_dpus requests [] s = some s
  run_dpus requests (i ∷ order) s = elim (run_requests i (requests i) s) [
    | none ↦ none
    | some s' ↦ run_dpus requests order s'
  ]

module _ (pgm_search : ℕ → ℕ → ℕ × ℕ) where
  unfoldable pub get_real_payload :
      Bool → (ℕ → List Request) → StringPayload × Index → Option (StringPayload × Index)
  unfolding run_dpus
  get_real_payload is_pure_read requests s =
      run_dpus (λ i q s. get_request pgm_search is_pure_read (partition_id s.1 i) q s) requests
        (count_from 0 nr_dpus) s

  -- The shuffled order is an argument; a request comes with its operation.
  unfoldable pub mix_payload :
      List ℕ → (ℕ → List (ℕ × Request)) → StringPayload × Index → Option (StringPayload × Index)
  unfolding run_dpus
  mix_payload cur_mix_order requests s =
      run_dpus (λ i q s. mix_request pgm_search q.0 (partition_id s.1 i) q.1 s) requests
        cur_mix_order s

  unfoldable pub insert_requests : ℕ → List Request → Index → Index
  insert_requests i [] d = d
  insert_requests i (q ∷ qs) d =
      insert_requests i qs (insert_request pgm_search (partition_id d i) q d)

  unfoldable pub insert_dpus : (ℕ → List Request) → List ℕ → Index → Index
  unfolding insert_requests
  insert_dpus requests [] d = d
  insert_dpus requests (i ∷ order) d = insert_dpus requests order (insert_requests i (requests i) d)

  unfoldable pub insert_payload : (ℕ → List Request) → Index → Index
  unfolding insert_dpus
  insert_payload requests d = insert_dpus requests (count_from 0 nr_dpus) d
