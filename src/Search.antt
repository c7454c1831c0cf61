-- ===== src/Search.antt =====
-- The bisection loops that every part of the index repeats: on sampled keys (dpu/task.c and
-- host/pimlex_host.cpp), on buffer pages (host/dram_index.h) and in the nodes of the overflow tree
-- (support/opt_overflow_tree.h). The keys are read through a function from indices.
pub mod Bound
pub mod Lower
use pimlex_fast.Base.{ℕ, zero, suc, ◌+◌, ◌-◌, ◌/◌, true, false, ltb, leb}

-- `while(l < r){ m = l + (r - l) / 2; if(at[m] <= key) l = m + 1; else r = m; }`, which leaves `l`.
unfoldable pub upper_bound_loop : (ℕ → ℕ) → ℕ → ℕ → ℕ → ℕ → ℕ
upper_bound_loop at key zero l r = l
upper_bound_loop at key (suc fuel) l r =
    let m = l + (r - l) / 2 in
    elim (ltb l r) [
      | true ↦ elim (leb (at m) key) [
        | true ↦ upper_bound_loop at key fuel (m + 1) r
        | false ↦ upper_bound_loop at key fuel l m
      ]
      | false ↦ l
    ]

-- The range shrinks in every round, so its width is fuel enough.
unfoldable pub upper_bound : (ℕ → ℕ) → ℕ → ℕ → ℕ → ℕ
upper_bound at key l r = upper_bound_loop at key (r - l) l r

-- The `do … while(lower < upper)` of `lowerBound`: the body runs before the first test, and a hit
-- returns at once.
unfoldable pub lower_bound_loop : (ℕ → ℕ) → ℕ → ℕ → ℕ → ℕ → ℕ
lower_bound_loop at k zero lower upper = lower
lower_bound_loop at k (suc fuel) lower upper =
    let mid = (upper - lower) / 2 + lower in
    elim (ltb k (at mid)) [
      | true ↦ elim (ltb lower mid) [ true ↦ lower_bound_loop at k fuel lower mid | false ↦ lower ]
      | false ↦ elim (ltb (at mid) k) [
        | true ↦ elim (ltb (mid + 1) upper) [
          | true ↦ lower_bound_loop at k fuel (mid + 1) upper
          | false ↦ mid + 1
        ]
        | false ↦ mid
      ]
    ]

-- `lowerBoundInner`: the same bisection as above, but the body runs once before the first test.
unfoldable pub lower_bound_inner : (ℕ → ℕ) → ℕ → ℕ → ℕ
lower_bound_inner at k count =
    let mid = (count - 0) / 2 + 0 in
    elim (ltb k (at mid)) [
      | true ↦ upper_bound at k 0 mid
      | false ↦ upper_bound at k (mid + 1) count
    ]

-- `lowerBound` of a node with `count` keys.
unfoldable pub lower_bound : (ℕ → ℕ) → ℕ → ℕ → ℕ
lower_bound at k count = lower_bound_loop at k (suc count) 0 count
