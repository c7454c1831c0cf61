-- ===== src/Batch/Sizes.antt =====
-- The bytes that a batch moves cover the tasks of every DPU.
use pimlex_fast.Base.{
  ℕ, zero, suc, ◌+◌, ◌*◌, ◌%◌, ◌≤◌, ◌<◌, ◌≡◌, arith, ltb, if◌then◌else◌, dec_lt, ℕ_discrete, lt→ltb,
  le→ltb, ==_iff, ==-false,
}
use pimlex_fast.Host.Batches.{nr_dpus}
use pimlex_fast.Batch.Defs.{max_tasks, max_buffer_size_search, max_buffer_size}

module _ (n_tasks : ℕ → ℕ) where
  max_tasks-from : (i n max : ℕ) → max ≤ max_tasks n_tasks i n max
  max_tasks-from i zero max = omega arith
  max_tasks-from i (suc n) max = elim (dec_lt max (n_tasks i)) [
    | yes h ↦ rw (lt→ltb max (n_tasks i) h) (omega (arith, max_tasks-from (i + 1) n (n_tasks i), h))
    | no h ↦ rw (le→ltb max (n_tasks i) (omega arith)) (max_tasks-from (i + 1) n max)
  ]

  max_tasks-covers : (i n max j : ℕ) → i ≤ j → j < i + n → n_tasks j ≤ max_tasks n_tasks i n max
  max_tasks-covers i zero max j h k = absurd (omega arith)
  max_tasks-covers i (suc n) max j h k =
      let next : ℕ = if ltb max (n_tasks i) then n_tasks i else max in
      elim (ℕ_discrete j i) [
        | no ne ↦ max_tasks-covers (i + 1) n next j (omega arith) (omega arith)
        | yes e ↦ rw e (elim (dec_lt max (n_tasks i)) [
          | yes l ↦ rw (lt→ltb max (n_tasks i) l) (max_tasks-from (i + 1) n (n_tasks i))
          | no l ↦
              rw (le→ltb max (n_tasks i) (omega arith))
                (omega (arith, max_tasks-from (i + 1) n max, l))
        ])
      ]

  max_tasks-upto :
      (i n max bound : ℕ)
      → max ≤ bound
      → ((j : ℕ) → n_tasks j ≤ bound)
      → max_tasks n_tasks i n max ≤ bound
  max_tasks-upto i zero max bound h w = h
  max_tasks-upto i (suc n) max bound h w = elim (dec_lt max (n_tasks i)) [
    | yes l ↦ rw (lt→ltb max (n_tasks i) l) (max_tasks-upto (i + 1) n (n_tasks i) bound (w i) w)
    | no l ↦ rw (le→ltb max (n_tasks i) (omega arith)) (max_tasks-upto (i + 1) n max bound h w)
  ]

  -- Where no DPU has more tasks than a buffer has cells, the sizes of `max_buffer_size_search` cover the
  -- two head words and the tasks of every DPU, are multiples of 8, and reach no further than the
  -- buffers.
  pub max_buffer_size_search-covers :
      (i : ℕ)
      → ((j : ℕ) → n_tasks j ≤ max_buffer_size)
      → i < nr_dpus
      → (8 + n_tasks i * 8 ≤ (max_buffer_size_search n_tasks).0)
        × (8 + n_tasks i * 4 ≤ (max_buffer_size_search n_tasks).1)
        × ((max_buffer_size_search n_tasks).0 % 8 ≡ 0)
        × ((max_buffer_size_search n_tasks).1 % 8 ≡ 0)
        × ((max_buffer_size_search n_tasks).0 ≤ 8 + max_buffer_size * 8)
        × ((max_buffer_size_search n_tasks).1 ≤ 8 + max_buffer_size * 4)
  unfolding max_buffer_size_search
  max_buffer_size_search-covers i w h =
      let max : ℕ = max_tasks n_tasks 0 nr_dpus 0 in
      let covers = max_tasks-covers 0 nr_dpus 0 i (omega arith) (omega arith) in
      let upto = max_tasks-upto 0 nr_dpus 0 max_buffer_size (omega arith) w in
      elim (ℕ_discrete ((max * 4 + 8) % 8) 0) [
        | yes e ↦ rw ((==_iff ((max * 4 + 8) % 8) 0).1 e) (
          omega (arith, covers),
          omega (arith, covers),
          omega arith,
          e,
          omega (arith, upto),
          omega (arith, upto),
        )
        | no ne ↦ rw (==-false ((max * 4 + 8) % 8) 0 ne) (
          omega (arith, covers),
          omega (arith, covers),
          omega arith,
          omega (arith, ne),
          omega (arith, upto),
          omega (arith, upto, ne),
        )
      ]
