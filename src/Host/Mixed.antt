-- ===== src/Host/Mixed.antt =====
-- `mix_payload` keeps the arrays and the pages valid.
use pimlex_fast.Base.{
  ℕ, ◌+◌, ◌-◌, ◌/◌, ◌%◌, ◌^◌, ◌≡◌, List, [], ◌∷◌, Option, none, some, Bool, true, false, ltb, ◌==◌,
  Bool-cases, Option-cases, inl, inr,
}
use pimlex_fast.Payload.{StringPayload}
use pimlex_fast.Dpu.Defs.{invaild_pos}
use pimlex_fast.Host.Index.{Index, page_ratio, interleave, scan_block, cur_key_off, dram_hit}
use pimlex_fast.Host.Requests.{Request, val, slot_hit}
use pimlex_fast.Host.Mix.{
  overflow_op, mix_near, mix_far, mix_last, mix_dram, mix_first, mix_missed, mix_request,
}
use pimlex_fast.Host.Batches.{run_requests, run_dpus, mix_payload, partition_id}
use pimlex_fast.Host.Store.{IsStored}
use pimlex_fast.Host.Keeps.{
  Keeps, Returned, Keeps-self, Keeps-both, place-Keeps, overflow_op-Keeps, write_payload-Keeps,
}

module _ (op : ℕ) (q : Request) (ret : StringPayload) (d : Index) (s : IsStored d) where
  mix_near-Keeps : (at : ℕ) → Keeps d (mix_near op at ret d).1
  unfolding mix_near
  mix_near-Keeps at = elim (Bool-cases (op == 0)) [
    | inl h ↦ rw (mix_near, h) (Keeps-self d s)
    | inr h ↦ elim (Bool-cases (op == 1)) [
      | inl k ↦ rw (mix_near, h, k) (write_payload-Keeps d at at s)
      | inr k ↦ rw (mix_near, h, k) (Keeps-self d s)
    ]
  ]

  mix_far-Keeps : (k at : ℕ) → Returned d (mix_far op q k at ret d)
  unfolding mix_far
  mix_far-Keeps k at = elim (Bool-cases (ltb ((q.slot + k) % 2 ^ 32) d.total_size)) [
    | inl r ↦ elim (Bool-cases (op == 0)) [
      | inl h ↦ rw (mix_far, h, r) (Keeps-self d s)
      | inr h ↦ elim (Bool-cases (op == 1)) [
        | inl u ↦ rw (mix_far, h, u, r) (write_payload-Keeps d ((q.slot + k) % 2 ^ 32) at s)
        | inr u ↦ rw (mix_far, h, u) (Keeps-self d s)
      ]
    ]
    | inr r ↦ elim (Bool-cases (op == 0)) [
      | inl h ↦ rw (mix_far, h, r) tt
      | inr h ↦ elim (Bool-cases (op == 1)) [
        | inl u ↦ rw (mix_far, h, u, r) tt
        | inr u ↦ rw (mix_far, h, u) (Keeps-self d s)
      ]
    ]
  ]

  module _ (pgm_search : ℕ → ℕ → ℕ × ℕ) (p : ℕ) where
    mix_last-Keeps :
        (r : Option ((Bool × Bool) × Index))
        → Returned d r
        → Returned d (mix_last pgm_search op ret r)
    mix_last-Keeps none k = tt
    mix_last-Keeps (some ((true, there), e)) k = k
    mix_last-Keeps (some ((false, there), e)) k = k

    mix_dram-Keeps : Returned d (mix_dram pgm_search op p q ret d)
    unfolding mix_dram
    mix_dram-Keeps = elim (Option-cases (dram_hit pgm_search d q.key)) [
      | inr (at, e) ↦ rw (mix_dram, e) (mix_far-Keeps (at - cur_key_off pgm_search d q.key) at)
      | inl e ↦ elim (Bool-cases (ltb q.slot d.total_size)) [
        | inl h ↦
            let i : ℕ = cur_key_off pgm_search d q.key / page_ratio % 2 ^ 32 in
            rw (mix_dram, e, h)
              (mix_last-Keeps (overflow_op op d p i q.key) (overflow_op-Keeps d p i q.key s op))
        | inr h ↦ rw (mix_dram, e, h) (Keeps-self d s)
      ]
    ]

after : (d e : Index) (r : Option (StringPayload × Index)) → Keeps d e → Returned e r → Returned d r
after d e none k l = tt
after d e (some (x, f)) k l = Keeps-both d e f k l

module _ (pgm_search : ℕ → ℕ → ℕ × ℕ) (op p : ℕ) (q : Request) (ret : StringPayload) where
  mix_first-Keeps :
      (d : Index) (r : Option ((Bool × Bool) × Index))
      → Returned d r
      → Returned d (mix_first pgm_search op p q ret r)
  unfolding mix_first
  mix_first-Keeps d none k = tt
  mix_first-Keeps d (some ((true, there), e)) k = k
  mix_first-Keeps d (some ((false, true), e)) k =
      after d e (mix_dram pgm_search op p q ret e) k
        (mix_dram-Keeps op q ret e k.stored pgm_search p)
  mix_first-Keeps d (some ((false, false), e)) k = k

  module _ (d : Index) (s : IsStored d) where
    mix_missed-Keeps : Returned d (mix_missed pgm_search op p q ret d)
    unfolding mix_missed
    mix_missed-Keeps = elim (Bool-cases (ltb q.slot d.total_size)) [
      | inl h ↦
          rw (mix_missed, h)
            (mix_first-Keeps d (overflow_op op d p (q.slot / page_ratio) q.key)
              (overflow_op-Keeps d p (q.slot / page_ratio) q.key s op))
      | inr h ↦ rw (mix_missed, h) (mix_dram-Keeps op q ret d s pgm_search p)
    ]

    mix_request-Keeps : Returned d (mix_request pgm_search op p q (ret, d))
    unfolding mix_request slot_hit
    mix_request-Keeps = elim (Bool-cases (q.slot == invaild_pos)) [
      | inl h ↦ rw (mix_request, h) mix_missed-Keeps
      | inr h ↦ elim (Bool-cases (op == 2)) [
        | inl k ↦ rw (mix_request, h, k) (place-Keeps val d p (q.slot / page_ratio) q.key s)
        | inr k ↦ elim (Option-cases (scan_block d (2 ^ 32) q.slot q.key 0 interleave)) [
          | inl e ↦ rw (mix_request, h, k, e) mix_missed-Keeps
          | inr (at, e) ↦ rw (mix_request, h, k, e) (mix_near-Keeps op q ret d s at)
        ]
      ]
    ]

module _ (pgm_search : ℕ → ℕ → ℕ × ℕ) where
  abbrev step : ℕ → ℕ × Request → StringPayload × Index → Option (StringPayload × Index)
  step i q s = mix_request pgm_search q.0 (partition_id s.1 i) q.1 s

  run_requests-Keeps :
      (i : ℕ) (qs : List (ℕ × Request)) (ret : StringPayload) (d : Index)
      → IsStored d
      → Returned d (run_requests step i qs (ret, d))
  unfolding run_requests
  run_requests-Keeps i [] ret d s = Keeps-self d s
  run_requests-Keeps i (q ∷ qs) ret d s =
      let kept = mix_request-Keeps pgm_search q.0 (partition_id d i) q.1 ret d s in
      elim (Option-cases (step i q (ret, d))) [
        | inl e ↦ rw (run_requests, e) tt
        | inr ((ret', d'), e) ↦
            let k : Keeps d d' = rw e at kept in
            rw (run_requests, e)
              (after d d' (run_requests step i qs (ret', d')) k
                (run_requests-Keeps i qs ret' d' k.stored))
      ]

  run_dpus-Keeps :
      (requests : ℕ → List (ℕ × Request)) (order : List ℕ) (ret : StringPayload) (d : Index)
      → IsStored d
      → Returned d (run_dpus step requests order (ret, d))
  unfolding run_dpus
  run_dpus-Keeps requests [] ret d s = Keeps-self d s
  run_dpus-Keeps requests (i ∷ order) ret d s =
      let kept = run_requests-Keeps i (requests i) ret d s in
      elim (Option-cases (run_requests step i (requests i) (ret, d))) [
        | inl e ↦ rw (run_dpus, e) tt
        | inr ((ret', d'), e) ↦
            let k : Keeps d d' = rw e at kept in
            rw (run_dpus, e)
              (after d d' (run_dpus step requests order (ret', d')) k
                (run_dpus-Keeps requests order ret' d' k.stored))
      ]

  -- When `mix_payload` returns, of any batch of gets, updates and insertions in any order of the DPUs,
  -- with any answers of the DPUs and of the PGM-indexes, the keys, the sampled keys and the size of
  -- the index are as before, and every page is valid, with its keys in its block, if that was so before.
  pub mix_payload-Keeps :
      (cur_mix_order : List ℕ) (requests : ℕ → List (ℕ × Request)) (ret ret' : StringPayload)
      (d d' : Index)
      → IsStored d
      → mix_payload pgm_search cur_mix_order requests (ret, d) ≡ some (ret', d')
      → Keeps d d'
  unfolding mix_payload
  mix_payload-Keeps cur_mix_order requests ret ret' d d' s e =
      let kept = run_dpus-Keeps requests cur_mix_order ret d s in rw e at kept
