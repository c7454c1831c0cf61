-- ===== src/Examples/Batches.antt =====
-- A small batch for the index of 2,048 keys, and an insertion that a DPU answers.
use pimlex_fast.Base.{
  if◌then◌else◌, ◌==◌, get_or-replicate, ℕ, ◌+◌, ◌*◌, ◌%◌, ◌≤◌, ◌<◌, ◌≡◌, ◌⊎◌, refl, arith, List,
  [], ◌∷◌, some, Bool, true, false, length, get_or, replicate, ltb,
}
use pimlex_fast.Batch.Queries.{make_ops, AreOps, make_ops-AreOps}
use pimlex_fast.Search.Bound.{SortedOn}
use pimlex_fast.Dpu.Defs.{DpuArguments, locate}
use pimlex_fast.Dpu.Lookup.{Covers}
use pimlex_fast.Routing.Defs.{DramLevel, get_start_dpu_id}
use pimlex_fast.Routing.Replicas.{total}
use pimlex_fast.Routing.Partition.{low_bound_at, IsPartition, search_upper_level-routes}
use pimlex_fast.Host.Requests.{insert_request}
use pimlex_fast.Host.Miss.{Placed}
use pimlex_fast.Host.Answer.{IsSlice, insert_request-answered}
use pimlex_fast.Batch.Defs.{
  slot_queries, thread_num, per_thread_ops, round_range, max_buffer_size_search,
}
use pimlex_fast.Batch.Route.{route, cells_for, slot_queries-routes, IsServed}
use pimlex_fast.Batch.Sizes.{max_buffer_size_search-covers}
use pimlex_fast.Batch.Ranges.{round_range-covers}
use pimlex_fast.Examples.Hosts.{
  threes, threes-IsLoaded, empty_page-IsValid, whole_slice, whole_slice-IsAccurate, steps,
  get_or-steps,
}

abbrev level : DramLevel
level = record {
  low_bound_key = steps 0 128;
  start_dpu_id = [];
  nr_replicas_per_partition = replicate 128 4;
  dpu_id_to_partition = λ i. 0;
}

level-SortedOn : SortedOn (low_bound_at level) 0 (length level.low_bound_key)
level-SortedOn i j p q r =
    omega (arith, get_or-steps 0 128 i (omega arith), get_or-steps 0 128 j (omega arith))

level-pos :
    (i : ℕ) → i < length level.low_bound_key → 0 < get_or level.nr_replicas_per_partition i 0
level-pos i h = omega (arith, get_or-replicate {A = ℕ} 128 i 4 0 (omega arith))

abbrev querys : ℕ → ℕ
querys r = 1000 * r + 1

abbrev after_first : ℕ → Bool
after_first r = ltb 0 (querys r)

slot_queries-routes_example :
    (buffers' : ℕ → List ℕ) × (slot_queries
        (get_start_dpu_id level)
        []
        querys
        after_first
        querys
        5
        0
        (λ h. [])
      ≡ some buffers')
    × ((h : ℕ)
        → buffers' h
          ≡ cells_for (route (get_start_dpu_id level) [] querys) after_first querys h 5 0)
    × ((r : ℕ)
        → 0 ≤ r
        → r < 0 + 5
        → after_first r ≡ true
        → (p : ℕ) × IsPartition (querys r) p level
          × (route (get_start_dpu_id level) [] querys r < total level.nr_replicas_per_partition)
          × ((get_start_dpu_id level).dpu_id_to_partition
                (route (get_start_dpu_id level) [] querys r)
              ≡ p))
slot_queries-routes_example =
    slot_queries-routes level [] querys after_first querys 5 0 (λ h. []) level-SortedOn
      (omega arith) (omega arith) level-pos (λ r a b k. omega arith) (λ h. omega arith)

level-IsServed : IsServed [] 0 querys (get_start_dpu_id level)
level-IsServed r k =
    let to =
      search_upper_level-routes (querys r) r false [] level level-SortedOn (omega arith)
        (omega arith) (omega arith) level-pos in
    (to.1, to.3)

abbrev three_each : ℕ → ℕ
three_each i = 3

max_buffer_size_search-covers_example :
    (32 ≤ (max_buffer_size_search three_each).0)
    × (20 ≤ (max_buffer_size_search three_each).1)
    × ((max_buffer_size_search three_each).0 % 8 ≡ 0)
    × ((max_buffer_size_search three_each).1 % 8 ≡ 0)
    × ((max_buffer_size_search three_each).0 ≤ 262152)
    × ((max_buffer_size_search three_each).1 ≤ 131080)
max_buffer_size_search-covers_example =
    max_buffer_size_search-covers three_each 7 (λ j. omega arith) (omega arith)

-- With 100 queries a share has three, and the third is left out.
round_range-covers_example :
    ((tid : ℕ) × (round : ℕ) × (tid < thread_num)
      × (round < 2)
      × ((round_range 100 tid round).0 ≤ 2)
      × (2 < (round_range 100 tid round).1))
    ⊎ ((per_thread_ops 100 % 2 ≡ 1)
        × ((tid : ℕ) × (tid < 31) × (3 ≡ per_thread_ops 100 * (tid + 1))))
round_range-covers_example = round_range-covers 100 2 (omega arith)

abbrev slice_62 : DpuArguments
slice_62 = record {
  input_size = 2;
  max_levels = 1;
  level_offset = [];
  start_pos = 124;
  set_epsilon = 64;
}

abbrev mram_62 : ℕ → ℕ
mram_62 i = 24 * (124 + i)

threes-IsSlice : IsSlice threes 62 slice_62 mram_62
threes-IsSlice = record {
  inside = omega arith;
  size = omega arith;
  start = omega arith;
  keys = λ i h. refl;
}

one-Covers : Covers mram_62 0 slice_62 2980 0 2 1
one-Covers = record {
  left = omega arith;
  right = omega arith;
  inside = omega arith;
  split = record {
    from = omega arith;
    upto = omega arith;
    below = λ i p q. omega arith;
    above = λ i p q. omega arith;
  };
}

insert_request-answered_example :
    (i : ℕ) × (24 * i ≤ 2980)
    × (2980 < 24 * (i + 1))
    × Placed i 62 2980 threes (
        insert_request whole_slice 62
          (record { key = 2980; slot = locate mram_62 0 slice_62 2980 0 2 })
          threes)
insert_request-answered_example =
    insert_request-answered threes threes-IsLoaded (omega arith) 62 slice_62 mram_62 threes-IsSlice
      whole_slice whole_slice-IsAccurate 62 2980 0 2 1 (omega arith) (omega arith) one-Covers
      (omega arith) (λ i. empty_page-IsValid)

-- Reads and insertions in turns; the cells 4 and 5 hold keys below 1000.
abbrev mixed_keys : ℕ → ℕ
mixed_keys i = if ltb i 6 then 10 * i else 1000 * i

abbrev in_turns : ℕ → Bool
in_turns i = i % 2 == 0

mixed_run :
    make_ops mixed_keys (λ i. i) 8 1000 in_turns 8 0 4
    ≡ (0, 0) ∷ (6000, 2) ∷ (20, 0) ∷ (7000, 2) ∷ (40, 0) ∷ (1001, 0) ∷ (6000, 0) ∷ (1001, 0) ∷ []
unfolding make_ops
mixed_run = refl

make_ops-AreOps_example :
    AreOps mixed_keys (λ i. i) 8 1000 4 (make_ops mixed_keys (λ i. i) 8 1000 in_turns 8 0 4)
make_ops-AreOps_example = make_ops-AreOps mixed_keys (λ i. i) 8 1000 in_turns 8 0 4
