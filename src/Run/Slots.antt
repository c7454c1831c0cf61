-- ===== src/Run/Slots.antt =====
-- The slotting of a thread that asks for keys of a loaded index.
use pimlex_fast.Base.{
  ℕ, ◌+◌, ◌-◌, ◌*◌, ◌≤◌, ◌<◌, ◌≡◌, refl, sym, ap, ◌∙◌, subst, arith, List, [], some, true, length,
}
use pimlex_fast.Search.Bound.{SortedOn}
use pimlex_fast.Search.Lower.{StrictOn→SortedOn}
use pimlex_fast.Routing.Defs.{DramLevel, nr_partition, get_start_dpu_id}
use pimlex_fast.Routing.Partition.{low_bound_at}
use pimlex_fast.Host.Index.{Index, per_dpu_input_size}
use pimlex_fast.Host.Batches.{nr_dpus}
use pimlex_fast.Host.Bound.{IsLoaded, bounds-SortedOn}
use pimlex_fast.Batch.Defs.{max_buffer_size, slot_search}
use pimlex_fast.Batch.Route.{cells_for, route, slot_queries-routes}
use pimlex_fast.Run.Serving.{IsServing, low_bound_at-get_start_dpu_id, length-low_bound_key}

-- A key of the array, at a position below the last sampled key of the last slice.
abbrev pub IsKey : Index → ℕ → Type 0
IsKey d key =
    (at : ℕ) × (at < d.total_size)
    × (d.keys at ≡ key)
    × (key < d.partial_keys (per_dpu_input_size d * nr_partition - 1))

module _ (d : Index) (loaded : IsLoaded d) (serving : IsServing d.upper_dram_level) where
  pub low_bound_old : low_bound_at d.upper_dram_level ≡ low_bound_at serving.old
  low_bound_old = ap low_bound_at serving.made ∙ low_bound_at-get_start_dpu_id serving.old

  pub partitions_old : length serving.old.low_bound_key ≡ nr_partition
  partitions_old =
      sym (length-low_bound_key serving.old)
      ∙ ap (λ s. length s.low_bound_key) (sym serving.made)
      ∙ loaded.partitions

  pub bounds_old : SortedOn (low_bound_at serving.old) 0 (length serving.old.low_bound_key)
  bounds_old =
      subst (λ f. SortedOn f 0 (length serving.old.low_bound_key)) low_bound_old
        (subst (λ n. SortedOn (low_bound_at d.upper_dram_level) 0 n)
          (loaded.partitions ∙ sym partitions_old) (bounds-SortedOn d loaded))

  first_bound : (key : ℕ) → IsKey d key → low_bound_at serving.old 0 ≤ key
  first_bound key (at, inside, here, last) =
      let none_before : per_dpu_input_size d * 0 ≡ 0 = omega arith in
      let bound : low_bound_at serving.old 0 ≡ d.keys 0 =
        ap (λ f. f 0) (sym low_bound_old)
        ∙ loaded.bounds 0 (omega arith)
        ∙ ap d.partial_keys none_before
        ∙ loaded.sampled 0 (omega (arith, loaded.slices)) in
      omega (
        arith,
        bound,
        here,
        StrictOn→SortedOn loaded.sorted 0 at (omega arith) (omega arith) inside,
      )

  -- Each buffer has the queries of its DPU, which is one of the DPUs.
  pub slot_search-cells :
      (access_num : List ℕ) (querys : ℕ → ℕ) (start n : ℕ)
      → n ≤ max_buffer_size
      → ((r : ℕ) → start ≤ r → r < start + n → IsKey d (querys r))
      → (buffers : ℕ → List ℕ) × (routes : ℕ → ℕ) × (slot_search d.upper_dram_level access_num
            querys n start
            (λ i. [])
          ≡ some buffers)
        × ((h : ℕ) → buffers h ≡ cells_for routes (λ r. true) querys h n start)
        × ((r : ℕ) → start ≤ r → r < start + n → routes r < nr_dpus)
  unfolding slot_search
  slot_search-cells access_num querys start n room keys =
      let s : DramLevel = serving.old in
      let slots =
        slot_queries-routes s access_num querys (λ r. true) querys n start (λ h. []) bounds_old
          (omega (arith, partitions_old)) (serving.counted ∙ sym partitions_old)
          (λ p h. serving.served p (omega (arith, h, partitions_old)))
          (λ r a b k. first_bound (querys r) (keys r a b)) (λ h. omega (arith, room)) in
      (
        slots.0,
        route (get_start_dpu_id s) access_num querys,
        rw serving.made slots.1,
        slots.2,
        λ r a b. omega (arith, (slots.3 r a b refl).2, serving.all_dpus),
      )
