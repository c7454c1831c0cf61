-- ===== src/Routing/Partition.antt =====
-- The partition of a key, and the DPU that `search_upper_level` sends it to.
use pimlex_fast.Base.{
  ℕ, zero, suc, ◌+◌, ◌-◌, ◌%◌, ◌≤◌, ◌<◌, ◌≡◌, List, [], ◌∷◌, some, Bool, arith, length, get_or, set,
  if◌then◌else◌, dec_lt, lt→ltb, le→ltb, ==-false, ◌∙◌, ap,
}
use pimlex_fast.Search.Bound.{SortedOn, IsBound, upper_bound-IsBound}
use pimlex_fast.Routing.Defs.{
  DramLevel, start_ids, get_start_dpu_id, level_bound, search_upper_level_get_partition,
  search_upper_level,
}
use pimlex_fast.Routing.Replicas.{total, owner, or_default, get_start_dpu_id-owner}

abbrev pub low_bound_at : DramLevel → ℕ → ℕ
low_bound_at s i = get_or s.low_bound_key i 0

-- The partition `p` is the one of `key`: its bound is up to the key, and all later ones are greater.
pub record IsPartition (key p : ℕ) (s : DramLevel) : Type 0 where
  pub inside : p < length s.low_bound_key
  pub low : (i : ℕ) → i ≤ p → low_bound_at s i ≤ key
  pub high : (i : ℕ) → p < i → i < length s.low_bound_key → key < low_bound_at s i

module _ (key : ℕ) (s : DramLevel) (sorted : SortedOn (low_bound_at s) 0 (length s.low_bound_key))
    (some_partition : 0 < length s.low_bound_key) (first : low_bound_at s 0 ≤ key) where
  level_bound-IsBound : IsBound (low_bound_at s) key 0 (length s.low_bound_key) (level_bound key s)
  unfolding level_bound
  level_bound-IsBound =
      upper_bound-IsBound (low_bound_at s) key 0 (length s.low_bound_key) (omega arith) sorted

  level_bound-pos : 0 < level_bound key s
  level_bound-pos = elim (dec_lt 0 (level_bound key s)) [
    | yes h ↦ h
    | no h ↦ absurd (omega (arith, level_bound-IsBound.above 0 (omega arith) some_partition))
  ]

  level_bound-IsPartition : IsPartition key (level_bound key s - 1) s
  level_bound-IsPartition =
      let b = level_bound-IsBound in
      record {
        inside = omega (arith, b.upto, level_bound-pos);
        low = λ i h. b.below i (omega arith) (omega (arith, level_bound-pos));
        high = λ i h k. b.above i (omega (arith, level_bound-pos)) k;
      }

  -- With ascending partition bounds, `search_upper_level_get_partition` returns the partition of
  -- every key from the first bound on.
  pub search_upper_level_get_partition-IsPartition :
      (p : ℕ) × (search_upper_level_get_partition key s ≡ some p) × IsPartition key p s
  unfolding search_upper_level_get_partition
  search_upper_level_get_partition-IsPartition = (
    level_bound key s - 1,
    rw (==-false (level_bound key s) 0 (omega (arith, level_bound-pos))),
    level_bound-IsPartition,
  )

-- There is one such partition.
pub IsPartition-unique :
    {key p q : ℕ} {s : DramLevel} → IsPartition key p s → IsPartition key q s → p ≡ q
IsPartition-unique {p} {q} a b = elim (dec_lt p q) [
  | yes h ↦ absurd (omega (arith, a.high q h b.inside, b.low q (omega arith)))
  | no h ↦ elim (dec_lt q p) [
    | yes k ↦ absurd (omega (arith, b.high p k a.inside, a.low p (omega arith)))
    | no k ↦ omega arith
  ]
]

start_ids-owner :
    (c i p q : ℕ) (rs : List ℕ)
    → p < length rs
    → q < get_or rs p 0
    → (get_or (start_ids c rs) p 0 + q < c + total rs)
      × (c ≤ get_or (start_ids c rs) p 0)
      × (owner i rs (get_or (start_ids c rs) p 0 + q - c) ≡ some (i + p))
start_ids-owner c i p q [] h k = absurd (omega arith)
start_ids-owner c i zero q (r ∷ rs) h k =
    let e : c + q - c ≡ q = omega arith in
    let z : i + 0 ≡ i = omega arith in (omega arith, omega arith, rw (e, lt→ltb q r k, z))
start_ids-owner c i (suc p) q (r ∷ rs) h k =
    let (a, b, o) = start_ids-owner (c + r) (i + 1) p q rs (omega arith) k in
    let d : ℕ = get_or (start_ids (c + r) rs) p 0 + q in
    let e : d - c - r ≡ d - (c + r) = omega arith in
    let z : i + 1 + p ≡ i + suc p = omega arith in
    (omega arith, omega arith, rw (le→ltb (d - c) r (omega arith), e, ← z) o)

search_upper_level_lem :
    (key rd : ℕ) (sample : Bool) (access_num : List ℕ) (s : DramLevel)
    → 0 < level_bound key s
    → 0 < get_or s.nr_replicas_per_partition (level_bound key s - 1) 0
    → search_upper_level key rd sample access_num (get_start_dpu_id s)
      ≡ some (
        get_or (start_ids 0 s.nr_replicas_per_partition) (level_bound key s - 1) 0
            + rd % get_or s.nr_replicas_per_partition (level_bound key s - 1) 0,
        if sample
            then set access_num
                (level_bound key s - 1)
                (get_or access_num (level_bound key s - 1) 0 + 1)
            else access_num,
      )
unfolding search_upper_level get_start_dpu_id
search_upper_level_lem key rd sample access_num s h k = rw (
  ==-false (level_bound key s) 0 (omega arith),
  ==-false (get_or s.nr_replicas_per_partition (level_bound key s - 1) 0) 0 (omega arith),
)

-- After `get_start_dpu_id`, with ascending bounds, a count for every partition and none of them 0,
-- every request for a key from the first bound on goes to a DPU that the counts cover and that
-- the map gives to the key's partition; the sampled counts change only when asked to.
pub search_upper_level-routes :
    (key rd : ℕ) (sample : Bool) (access_num : List ℕ) (s : DramLevel)
    → SortedOn (low_bound_at s) 0 (length s.low_bound_key)
    → 0 < length s.low_bound_key
    → low_bound_at s 0 ≤ key
    → length s.nr_replicas_per_partition ≡ length s.low_bound_key
    → ((i : ℕ) → i < length s.low_bound_key → 0 < get_or s.nr_replicas_per_partition i 0)
    → (p d : ℕ) × IsPartition key p s
      × (search_upper_level key rd sample access_num (get_start_dpu_id s)
          ≡ some (d, if sample then set access_num p (get_or access_num p 0 + 1) else access_num))
      × (d < total s.nr_replicas_per_partition)
      × ((get_start_dpu_id s).dpu_id_to_partition d ≡ p)
search_upper_level-routes key rd sample access_num s sorted any first same pos =
    let p : ℕ = level_bound key s - 1 in
    let part = level_bound-IsPartition key s sorted any first in
    let n : ℕ = get_or s.nr_replicas_per_partition p 0 in
    let some_dpu : 0 < n = pos p part.inside in
    let o =
      start_ids-owner 0 0 p (rd % n) s.nr_replicas_per_partition (omega (arith, part.inside))
        (omega arith) in
    let d : ℕ = get_or (start_ids 0 s.nr_replicas_per_partition) p 0 + rd % n in
    let e : d - 0 ≡ d = omega arith in
    let z : 0 + p ≡ p = omega arith in
    (
      p,
      d,
      part,
      search_upper_level_lem key rd sample access_num s (level_bound-pos key s sorted any first)
          some_dpu,
      omega (arith, o.0),
      get_start_dpu_id-owner s d ∙ ap (or_default (s.dpu_id_to_partition d)) (rw (e, z) at o.2),
    )
