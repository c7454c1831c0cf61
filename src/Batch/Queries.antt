-- ===== src/Batch/Queries.antt =====
-- The queries that `main` makes. What `dis`, `zipf_gen` and `ratio_dis` draw are parameters: the positions
-- `pos`, and for each query whether the drawn number is below 0.5.
use pimlex_fast.Base.{
  ℕ, zero, suc, ◌+◌, ◌-◌, ◌≤◌, ◌<◌, arith, List, [], ◌∷◌, Bool, ltb, ◌&&◌, if◌then◌else◌, min,
  Bool-cases, inl, inr, dec_lt, lt→ltb, le→ltb,
}

-- `create_query` and `create_query_zipf`
unfoldable pub create_query : (ℕ → ℕ) → (ℕ → ℕ) → ℕ → ℕ
create_query input pos i = input (pos i)

-- `create_query_scan` and `create_query_zipf_scan`: the query and the end of its scan.
unfoldable pub create_query_scan : (ℕ → ℕ) → (ℕ → ℕ) → ℕ → ℕ → ℕ → ℕ × ℕ
create_query_scan input pos scan_length nr_elements i =
    (input (pos i), input (min (pos i + scan_length) (nr_elements - 1)))

unfoldable pub create_insert_op : (ℕ → ℕ) → ℕ → ℕ → ℕ
create_insert_op input nr_init_keys i = input (nr_init_keys + i)

-- The queries of a mixed run; `keys` has `total_num_keys` cells.
module _ (keys pos : ℕ → ℕ) (total_num_keys min_key : ℕ) where
  -- `while(insert_pos < total_num_keys && keys[insert_pos] < min_key)` with `n` cells to go.
  unfoldable pub skip_small : ℕ → ℕ → ℕ
  skip_small zero insert_pos = insert_pos
  skip_small (suc n) insert_pos =
      let rest = skip_small n (insert_pos + 1) in
      if ltb insert_pos total_num_keys && ltb (keys insert_pos) min_key then rest else insert_pos

  -- The query, its operation, and the next `insert_pos`.
  abbrev pub taken : ℕ → (ℕ × ℕ) × ℕ
  taken insert_pos = ((keys insert_pos, 2), insert_pos + 1)

  unfoldable pub make_insert : ℕ → (ℕ × ℕ) × ℕ
  unfolding skip_small
  make_insert insert_pos =
      let next = skip_small (total_num_keys - insert_pos) insert_pos in
      if ltb insert_pos total_num_keys && ltb min_key (keys insert_pos)
      then taken insert_pos
      else (if ltb next total_num_keys then taken next else ((min_key + 1, 0), next))

  -- The second test is the first one again.
  unfoldable pub make_op : Bool → ℕ → ℕ → (ℕ × ℕ) × ℕ
  unfolding make_insert
  make_op below_half i insert_pos =
      if below_half
      then ((keys (pos i), 0), insert_pos)
      else (if below_half then ((keys (pos i), 1), insert_pos) else make_insert insert_pos)

  -- `n` queries from `i` on.
  unfoldable pub make_ops : (ℕ → Bool) → ℕ → ℕ → ℕ → List (ℕ × ℕ)
  unfolding make_op
  make_ops below_half zero i insert_pos = []
  make_ops below_half (suc n) i insert_pos =
      let made = make_op (below_half i) i insert_pos in
      made.0 ∷ make_ops below_half n (i + 1) made.1

  -- What a query may be, and the positions from which the insertions take their keys: each behind the
  -- one before, and none twice.
  pub data AreOps : ℕ → List (ℕ × ℕ) → Type 0 where
    none_left : {from : ℕ} → AreOps from []
    get_op : {from key : ℕ} {ops : List (ℕ × ℕ)} → AreOps from ops → AreOps from ((key, 0) ∷ ops)
    insert_op :
        {from at : ℕ} {ops : List (ℕ × ℕ)}
        → from ≤ at
        → at < total_num_keys
        → min_key ≤ keys at
        → AreOps (at + 1) ops
        → AreOps from ((keys at, 2) ∷ ops)

  AreOps-weaken :
      (from from' : ℕ) (ops : List (ℕ × ℕ)) → from ≤ from' → AreOps from' ops → AreOps from ops
  AreOps-weaken from from' _ h none_left = none_left
  AreOps-weaken from from' _ h (get_op rest) = get_op (AreOps-weaken from from' _ h rest)
  AreOps-weaken from from' _ h (insert_op a b c rest) = insert_op (omega (arith, a)) b c rest

  skip_small_lem :
      (n insert_pos : ℕ)
      → total_num_keys ≤ insert_pos + n
      → (insert_pos ≤ skip_small n insert_pos)
        × (skip_small n insert_pos < total_num_keys → min_key ≤ keys (skip_small n insert_pos))
  unfolding skip_small
  skip_small_lem zero insert_pos h = (omega arith, λ l. absurd (omega arith))
  skip_small_lem (suc n) insert_pos h = elim (dec_lt insert_pos total_num_keys) [
    | no p ↦
        rw (le→ltb insert_pos total_num_keys (omega arith)) (omega arith, λ l. absurd (omega arith))
    | yes p ↦ elim (dec_lt (keys insert_pos) min_key) [
      | no q ↦
          rw (lt→ltb insert_pos total_num_keys p, le→ltb (keys insert_pos) min_key (omega arith))
            (omega arith, λ l. omega arith)
      | yes q ↦
          let rest = skip_small_lem n (insert_pos + 1) (omega arith) in
          rw (lt→ltb insert_pos total_num_keys p, lt→ltb (keys insert_pos) min_key q)
            (omega (arith, rest.0), rest.1)
    ]
  ]

  make_insert-AreOps :
      (insert_pos : ℕ) (ops : List (ℕ × ℕ))
      → AreOps (make_insert insert_pos).1 ops
      → AreOps insert_pos ((make_insert insert_pos).0 ∷ ops)
  unfolding make_insert
  make_insert-AreOps insert_pos ops =
      let next : ℕ = skip_small (total_num_keys - insert_pos) insert_pos in
      let s = skip_small_lem (total_num_keys - insert_pos) insert_pos (omega arith) in
      elim (Bool-cases (ltb insert_pos total_num_keys && ltb min_key (keys insert_pos))) [
        | inl t ↦
            let less : insert_pos < total_num_keys = ground (arith, t) in
            let greater : min_key ≤ keys insert_pos = ground (arith, t) in
            rw t (λ rest. insert_op (omega arith) less greater rest)
        | inr f ↦ elim (dec_lt next total_num_keys) [
          | yes p ↦ rw (f, lt→ltb next total_num_keys p) (λ rest. insert_op s.0 p (s.1 p) rest)
          | no p ↦
              rw (f, le→ltb next total_num_keys (omega arith))
                (λ rest. get_op (AreOps-weaken insert_pos next ops s.0 rest))
        ]
      ]

  -- Every query of a mixed run is a read or an insertion, and never an update; the insertions take their
  -- keys from cells at and behind the given position, each behind the one before, and all of them are
  -- from `min_key` on.
  pub make_ops-AreOps :
      (below_half : ℕ → Bool) (n i insert_pos : ℕ)
      → AreOps insert_pos (make_ops below_half n i insert_pos)
  unfolding make_ops
  make_ops-AreOps below_half zero i insert_pos = none_left
  make_ops-AreOps below_half (suc n) i insert_pos = elim (Bool-cases (below_half i)) [
    | inl t ↦ rw t (get_op (make_ops-AreOps below_half n (i + 1) insert_pos))
    | inr f ↦ rw f (
        make_insert-AreOps insert_pos _
          (make_ops-AreOps below_half n (i + 1) (make_insert insert_pos).1))
  ]
