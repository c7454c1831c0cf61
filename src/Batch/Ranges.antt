-- ===== src/Batch/Ranges.antt =====
-- The queries that the threads take.
use pimlex_fast.Base.{ℕ, suc, ◌+◌, ◌*◌, ◌%◌, ◌≤◌, ◌<◌, ◌≡◌, ◌⊎◌, inl, inr, arith, dec_lt, ==-false}
use pimlex_fast.Dpu.Tasklets.{which}
use pimlex_fast.Host.Bound.{times_le}
use pimlex_fast.Batch.Defs.{thread_num, per_thread_ops, per_round_ops, thread_range, round_range}

thread_range-covers :
    (num_querys q : ℕ)
    → q < num_querys
    → (tid : ℕ) × (tid < thread_num)
      × ((thread_range num_querys tid).0 ≤ q)
      × (q < (thread_range num_querys tid).1)
unfolding thread_range
thread_range-covers num_querys q h =
    let per : ℕ = per_thread_ops num_querys in
    elim (dec_lt q (31 * per)) [
      | no k ↦ (31, omega arith, omega arith, h)
      | yes k ↦
          let w = which per q 31 k in
          (
            w.0,
            omega (arith, w.1),
            omega (arith, w.2),
            rw (==-false w.0 31 (omega (arith, w.1))) (omega (arith, w.3)),
          )
    ]

share_after : (per t u q : ℕ) → t < u → per * u ≤ q → per * (t + 1) ≤ q
share_after per t u q h k = omega (arith, times_le per (suc t) u h)

thread_range-disjoint :
    (num_querys q t u : ℕ)
    → t < thread_num
    → u < thread_num
    → (thread_range num_querys t).0 ≤ q
    → q < (thread_range num_querys t).1
    → (thread_range num_querys u).0 ≤ q
    → q < (thread_range num_querys u).1
    → t ≡ u
unfolding thread_range
thread_range-disjoint num_querys q t u ht hu a b c e =
    let per : ℕ = per_thread_ops num_querys in
    elim (dec_lt t u) [
      | yes l ↦
          let upto : q < per * (t + 1) = rw (==-false t 31 (omega arith)) at b in
          absurd (omega (arith, upto, share_after per t u q l c))
      | no l ↦ elim (dec_lt u t) [
        | yes m ↦
            let upto : q < per * (u + 1) = rw (==-false u 31 (omega arith)) at e in
            absurd (omega (arith, upto, share_after per u t q m a))
        | no m ↦ omega arith
      ]
    ]

-- Every query falls to exactly one thread of a mixed, a scan or a search run.
thread_range_unique :
    (num_querys q : ℕ)
    → q < num_querys
    → (tid : ℕ) × (tid < thread_num)
      × ((thread_range num_querys tid).0 ≤ q)
      × (q < (thread_range num_querys tid).1)
      × ((u : ℕ)
          → u < thread_num
          → (thread_range num_querys u).0 ≤ q
          → q < (thread_range num_querys u).1
          → u ≡ tid)
thread_range_unique num_querys q h =
    let t = thread_range-covers num_querys q h in
    (t.0, t.1, t.2, t.3, λ u k a b. thread_range-disjoint num_querys q u t.0 k t.1 a b t.2 t.3)

-- A query of an insertion run falls to a round of a thread, but for the last one of a thread's share
-- when the shares are odd; the share of thread 31 is taken whole.
pub round_range-covers :
    (num_querys q : ℕ)
    → q < num_querys
    → ((tid : ℕ) × (round : ℕ) × (tid < thread_num)
        × (round < 2)
        × ((round_range num_querys tid round).0 ≤ q)
        × (q < (round_range num_querys tid round).1))
      ⊎ ((per_thread_ops num_querys % 2 ≡ 1)
          × ((tid : ℕ) × (tid < 31) × (q + 1 ≡ per_thread_ops num_querys * (tid + 1))))
unfolding round_range
round_range-covers num_querys q h =
    let per : ℕ = per_thread_ops num_querys in
    let half : ℕ = per_round_ops num_querys in
    elim (dec_lt q (31 * per)) [
      | no k ↦ elim (dec_lt q (per * 31 + half)) [
        | yes l ↦ inl (31, 0, omega arith, omega arith, omega arith, omega arith)
        | no l ↦ inl (31, 1, omega arith, omega arith, omega arith, h)
      ]
      | yes k ↦
          let w = which per q 31 k in
          let tid : ℕ = w.0 in
          elim (dec_lt q (per * tid + half)) [
            | yes l ↦
                inl (tid, 0, omega (arith, w.1), omega arith, omega (arith, w.2), omega (arith, l))
            | no l ↦ elim (dec_lt q (per * tid + half * 2)) [
              | yes m ↦ inl (
                tid,
                1,
                omega (arith, w.1),
                omega arith,
                omega (arith, l),
                rw (==-false tid 31 (omega (arith, w.1))) (omega (arith, m)),
              )
              | no m ↦ inr (omega (arith, m, w.3), (tid, w.1, omega (arith, m, w.3)))
            ]
          ]
    ]
