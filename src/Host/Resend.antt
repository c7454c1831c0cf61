-- ===== src/Host/Resend.antt =====
-- `insert_payload_skew`: an insertion that meets a full page goes to the overflow tree, or back to
-- the DPU where the keys of the tree are on the DPU.
use pimlex_fast.Base.{
  ℕ, ◌+◌, ◌/◌, ◌≤◌, ◌<◌, arith, List, [], ◌∷◌, ◌++◌, Bool, true, false, ◌==◌, if◌then◌else◌,
  Bool-cases, inl, inr,
}
use pimlex_fast.Page.{BufPage, insert_page}
use pimlex_fast.Page.Insert.{IsValid, insert_page-IsValid}
use pimlex_fast.Dpu.Defs.{invaild_pos}
use pimlex_fast.Host.Index.{Index, set_page, covers, insert_result, cur_key_off, page_ratio}
use pimlex_fast.Host.Requests.{Request, val}
use pimlex_fast.Host.Batches.{partition_id}
use pimlex_fast.Host.Store.{
  IsStored, Within, set_page-IsStored, insert_result-IsStored, insert_page-Within,
}

-- The index, and the keys that are sent back to the DPU.
abbrev pub resend_result : (ℕ → Bool) → Index → ℕ → ℕ → ℕ → Bool × BufPage → Index × List ℕ
resend_result enable_pim_overflow d p ipos key (true, page) = (set_page d ipos page, [])
resend_result enable_pim_overflow d p ipos key (false, page) =
    if enable_pim_overflow p
    then (set_page d ipos page, key ∷ [])
    else (insert_result d p ipos key (false, page), [])

unfoldable pub place_or_resend : (ℕ → Bool) → Index → ℕ → ℕ → ℕ → Index × List ℕ
place_or_resend enable_pim_overflow d p ipos key =
    if covers d ipos key
    then resend_result enable_pim_overflow d p ipos key (insert_page key val (d.buffer_pages ipos))
    else (d, [])

-- The first `n_tasks - 1` requests of a DPU.
abbrev pub without_last : List Request → List Request
without_last [] = []
without_last (q ∷ []) = []
without_last (q ∷ r ∷ qs) = q ∷ without_last (r ∷ qs)

module _ (pgm_search : ℕ → ℕ → ℕ × ℕ) (enable_pim_overflow : ℕ → Bool) where
  unfoldable pub resend_request : ℕ → Request → Index → Index × List ℕ
  unfolding place_or_resend
  resend_request p q d =
      if q.slot == invaild_pos
      then place_or_resend enable_pim_overflow d p (cur_key_off pgm_search d q.key / page_ratio)
          q.key
      else place_or_resend enable_pim_overflow d p (q.slot / page_ratio) q.key

  unfoldable pub resend_requests : ℕ → List Request → Index × List ℕ → Index × List ℕ
  unfolding resend_request
  resend_requests i [] s = s
  resend_requests i (q ∷ qs) s =
      let r = resend_request (partition_id s.0 i) q s.0 in resend_requests i qs (r.0, s.1 ++ r.1)

  -- The shuffled order of the DPUs is an argument; the result has the new send buffers.
  unfoldable pub insert_payload_skew :
      (ℕ → List Request) → List ℕ → Index × (ℕ → List ℕ) → Index × (ℕ → List ℕ)
  unfolding resend_requests
  insert_payload_skew requests [] s = s
  insert_payload_skew requests (i ∷ order) s =
      let r = resend_requests i (without_last (requests i)) (s.0, []) in
      insert_payload_skew requests order (r.0, λ j. if j == i then r.1 else s.1 j)

resend_result-IsStored :
    (enable : ℕ → Bool) (d : Index) (p i key : ℕ) (r : Bool × BufPage)
    → IsStored d
    → IsValid r.1
    → Within (d.partial_keys i) (d.partial_keys (i + 1)) r.1.cells
    → IsStored (resend_result enable d p i key r).0
resend_result-IsStored enable d p i key (true, page) s v w = set_page-IsStored d i page s v w
resend_result-IsStored enable d p i key (false, page) s v w = elim (Bool-cases (enable p)) [
  | inl h ↦ rw h (set_page-IsStored d i page s v w)
  | inr h ↦ rw h (insert_result-IsStored d p i key (false, page) s v w)
]

place_or_resend-IsStored :
    (enable : ℕ → Bool) (d : Index) (p i key : ℕ)
    → IsStored d
    → IsStored (place_or_resend enable d p i key).0
unfolding place_or_resend
place_or_resend-IsStored enable d p i key s = elim (Bool-cases (covers d i key)) [
  | inr h ↦ rw (place_or_resend, h) s
  | inl h ↦
      let c : (d.partial_keys i ≤ key) × (key < d.partial_keys (i + 1)) =
        (ground (arith, h), ground (arith, h)) in
      rw (place_or_resend, h)
        (resend_result-IsStored enable d p i key (insert_page key val (d.buffer_pages i)) s
          (insert_page-IsValid key val (d.buffer_pages i) (s.pages i))
          (insert_page-Within (d.partial_keys i) (d.partial_keys (i + 1)) key val (d.buffer_pages i)
            (s.pages i) c.0 c.1 (s.blocks i)))
]

module _ (pgm_search : ℕ → ℕ → ℕ × ℕ) (enable : ℕ → Bool) where
  resend_request-IsStored :
      (p : ℕ) (q : Request) (d : Index)
      → IsStored d
      → IsStored (resend_request pgm_search enable p q d).0
  unfolding resend_request
  resend_request-IsStored p q d s = elim (Bool-cases (q.slot == invaild_pos)) [
    | inl h ↦
        rw (resend_request, h)
          (place_or_resend-IsStored enable d p (cur_key_off pgm_search d q.key / page_ratio) q.key
            s)
    | inr h ↦
        rw (resend_request, h) (place_or_resend-IsStored enable d p (q.slot / page_ratio) q.key s)
  ]

  resend_requests-IsStored :
      (i : ℕ) (qs : List Request) (s : Index × List ℕ)
      → IsStored s.0
      → IsStored (resend_requests pgm_search enable i qs s).0
  unfolding resend_requests
  resend_requests-IsStored i [] s h = h
  resend_requests-IsStored i (q ∷ qs) s h =
      let r = resend_request pgm_search enable (partition_id s.0 i) q s.0 in
      resend_requests-IsStored i qs (r.0, s.1 ++ r.1)
        (resend_request-IsStored (partition_id s.0 i) q s.0 h)

  -- `insert_payload_skew` of any batch, in any order of the DPUs, with any answers and with the
  -- overflow trees on the DPUs or not, keeps every page valid and its keys in its block.
  pub insert_payload_skew-IsStored :
      (requests : ℕ → List Request) (order : List ℕ) (s : Index × (ℕ → List ℕ))
      → IsStored s.0
      → IsStored (insert_payload_skew pgm_search enable requests order s).0
  unfolding insert_payload_skew
  insert_payload_skew-IsStored requests [] s h = h
  insert_payload_skew-IsStored requests (i ∷ order) s h =
      let r = resend_requests pgm_search enable i (without_last (requests i)) (s.0, []) in
      insert_payload_skew-IsStored requests order (r.0, λ j. if j == i then r.1 else s.1 j)
        (resend_requests-IsStored i (without_last (requests i)) (s.0, []) h)
