-- ===== src/Skew.antt =====
-- `partition_access` of host/pimlex_host.cpp: how many DPUs each partition gets, from the sampled
-- accesses. The double arithmetic and the two calls of `std::sort` are parameters.
pub mod Total
pub mod Adjust
use pimlex_fast.Base.{
  ℕ, zero, suc, ◌+◌, ◌-◌, ◌/◌, List, [], ◌∷◌, Option, none, some, Bool, true, false, map, length,
  get_or, get_elem?, insert_at, set, ltb, ◌==◌, if◌then◌else◌, max,
}
use pimlex_fast.Routing.Defs.{nr_partition}
use pimlex_fast.Host.Batches.{nr_dpus}

-- What the code does with a double: `(double) accesses / avg`, `ratio * partition_ratio_to_dpu` cast
-- to uint64_t, `ratio / n`, and `<`.
pub record Ratios : Type 1 where
  pub Ratio : Type 0
  pub quotient : ℕ → ℕ → Ratio
  pub scaled : Ratio → ℕ → ℕ
  pub share : Ratio → ℕ → Ratio
  pub less : Ratio → Ratio → Bool

-- `access_ratio`
pub record AccessRatio (R : Type 0) : Type 0 where
  pub partition_id : ℕ
  pub partition_ratio : R
  pub num_dpu_per_partition : ℕ
  pub per_dpu_ratio : R

module _ {R : Type 0} where
  abbrev pub counts : List (AccessRatio R) → List ℕ
  counts xs = map (λ e. e.num_dpu_per_partition) xs

  abbrev pub count_at : List (AccessRatio R) → ℕ → ℕ
  count_at xs i = get_or (counts xs) i 0

  abbrev pub remove_at : ℕ → List (AccessRatio R) → List (AccessRatio R)
  remove_at i [] = []
  remove_at zero (x ∷ xs) = xs
  remove_at (suc i) (x ∷ xs) = x ∷ remove_at i xs

  -- `total_alloc_dpu_num`
  unfoldable pub total_dpus : List (AccessRatio R) → ℕ
  total_dpus [] = 0
  total_dpus (x ∷ xs) = x.num_dpu_per_partition + total_dpus xs

  -- `max_dpu_num_off`: the first index of the greatest count.
  abbrev pub max_from : ℕ → ℕ → ℕ → List (AccessRatio R) → ℕ
  max_from greatest off i [] = off
  max_from greatest off i (x ∷ xs) =
      let larger = ltb greatest x.num_dpu_per_partition in
      max_from (if larger then x.num_dpu_per_partition else greatest) (if larger then i else off)
        (i + 1) xs

  unfoldable pub max_dpu_num_off : List (AccessRatio R) → ℕ
  max_dpu_num_off xs = max_from 0 0 0 xs

  -- `while(num_dpu_per_partition == 1)` downwards; `none` is the index -1.
  unfoldable pub skip_down : List (AccessRatio R) → ℕ → Option ℕ
  skip_down xs zero = if count_at xs 0 == 1 then none else some 0
  skip_down xs (suc off) =
      let rest = skip_down xs off in if count_at xs (suc off) == 1 then rest else some (suc off)

  -- The same upwards; `none` is a read behind the array.
  unfoldable pub skip_up : List (AccessRatio R) → ℕ → ℕ → Option ℕ
  skip_up xs zero off = none
  skip_up xs (suc n) off =
      let rest = skip_up xs n (off + 1) in if count_at xs off == 1 then rest else some off

module _ (F : Ratios) where
  abbrev pub Entry : Type 0
  Entry = AccessRatio F.Ratio

  -- The new count of an entry, with its ratio.
  abbrev pub recount : ℕ → Entry → Entry
  recount n e = record e { num_dpu_per_partition = n; per_dpu_ratio = F.share e.partition_ratio n }

  abbrev pub less_at : F.Ratio → Option Entry → Bool
  less_at r none = false
  less_at r (some e) = F.less e.per_dpu_ratio r

  -- `for(; k < hi; k++) if(per_dpu_ratio[k] < r) break;` with `n` entries to go.
  unfoldable pub first_less : F.Ratio → List Entry → ℕ → ℕ → ℕ
  first_less r xs zero k = k
  first_less r xs (suc n) k =
      let rest = first_less r xs n (k + 1) in if less_at r (get_elem? xs k) then k else rest

  -- The entry at `off` loses a DPU and moves before the first smaller ratio.
  abbrev pub moved_down : List Entry → ℕ → Option Entry → Option (List Entry)
  moved_down xs off none = none
  moved_down xs off (some e) = some (
      insert_at (first_less (recount (e.num_dpu_per_partition - 1) e).per_dpu_ratio xs off 0)
        (recount (e.num_dpu_per_partition - 1) e) (remove_at off xs))

  unfoldable pub move_down : List Entry → ℕ → Option (List Entry)
  unfolding first_less
  move_down xs off = moved_down xs off (get_elem? xs off)

  -- The entry at `off` gains a DPU and moves to the first smaller ratio behind it, or to the end.
  abbrev pub capped : ℕ → ℕ
  capped k = if k == nr_partition then k - 1 else k

  abbrev pub moved_up : List Entry → ℕ → Option Entry → Option (List Entry)
  moved_up xs off none = none
  moved_up xs off (some e) = some (
      insert_at
        (capped (
          first_less (recount (e.num_dpu_per_partition + 1) e).per_dpu_ratio
            (set xs off (recount (e.num_dpu_per_partition + 1) e)) (nr_partition - off) off))
        (recount (e.num_dpu_per_partition + 1) e) (remove_at off xs))

  unfoldable pub move_up : List Entry → ℕ → Option (List Entry)
  unfolding first_less
  move_up xs off = moved_up xs off (get_elem? xs off)

  -- `overflow_dpu_num` DPUs too many, from `min_available_off` down.
  unfoldable pub shrink : ℕ → ℕ → List Entry → Option (List Entry)
  shrink zero off xs = some xs
  shrink (suc n) off xs = elim (skip_down xs off) [
    | none ↦ none
    | some low ↦ elim (move_down xs low) [ none ↦ none | some ys ↦ shrink n low ys ]
  ]

  -- `less_dpu_num` DPUs too few, from `max_available_off` up.
  unfoldable pub grow : ℕ → ℕ → List Entry → Option (List Entry)
  grow zero off xs = some xs
  grow (suc n) off xs = elim (skip_up xs (nr_partition - off) off) [
    | none ↦ none
    | some high ↦ elim (move_up xs high) [ none ↦ none | some ys ↦ grow n high ys ]
  ]

  unfoldable pub balance : ℕ → List Entry → Option (List Entry)
  unfolding shrink grow
  balance total_alloc_dpu_num xs =
      if ltb nr_dpus total_alloc_dpu_num
      then shrink (total_alloc_dpu_num - nr_dpus) (nr_partition - 1) xs
      else (if ltb total_alloc_dpu_num nr_dpus
          then grow (nr_dpus - total_alloc_dpu_num) 0 xs
          else some xs)

  -- `after_adjust_per_dpu_ratio < per_dpu_ratio[0]`
  abbrev pub gain_between : Option Entry → Option Entry → Bool
  gain_between none f = false
  gain_between (some e) none = false
  gain_between (some e) (some f) =
      F.less (F.share e.partition_ratio (e.num_dpu_per_partition - 1)) f.per_dpu_ratio

  unfoldable pub gains : List Entry → ℕ → Bool
  gains xs off = gain_between (get_elem? xs off) (get_elem? xs 0)

  -- The entry that gives a DPU to the first one.
  unfoldable pub giver : List Entry → ℕ → Option ℕ
  unfolding gains max_dpu_num_off
  giver xs off =
      if gains xs off
      then some off
      else (if gains xs (max_dpu_num_off xs) then some (max_dpu_num_off xs) else none)

  unfoldable pub exchange : List Entry → ℕ → Option (List Entry)
  exchange xs off = elim (move_down xs off) [ none ↦ none | some ys ↦ move_up ys 0 ]

  -- The `adjust_loop`, with `n` rounds to go.
  unfoldable pub adjust : ℕ → ℕ → List Entry → Option (List Entry)
  adjust zero off xs = some xs
  adjust (suc n) off xs = elim (giver xs off) [
    | none ↦ some xs
    | some low ↦ elim (exchange xs low) [ none ↦ none | some ys ↦ adjust n low ys ]
  ]

  -- The first loop, from partition `i` on.
  abbrev pub allocated : ℕ → F.Ratio → ℕ → Entry
  allocated i ratio n = record {
    partition_id = i;
    partition_ratio = ratio;
    num_dpu_per_partition = n;
    per_dpu_ratio = F.share ratio n;
  }

  unfoldable pub allocate : ℕ → ℕ → ℕ → List ℕ → List Entry
  allocate partition_ratio_to_dpu avg i [] = []
  allocate partition_ratio_to_dpu avg i (a ∷ access_num) =
      allocated i (F.quotient a avg) (max (F.scaled (F.quotient a avg) partition_ratio_to_dpu) 1)
      ∷ allocate partition_ratio_to_dpu avg (i + 1) access_num

  module _ (sort_dpu_ratio sort_pid : List Entry → List Entry) where
    unfoldable pub calculate_partition_skew : ℕ → ℕ → List ℕ → Option (List Entry)
    unfolding balance adjust allocate
    calculate_partition_skew partition_ratio_to_dpu total_access_num access_num =
        let xs : List Entry =
          allocate partition_ratio_to_dpu (total_access_num / nr_partition) 0 access_num in
        elim (balance (total_dpus xs) (sort_dpu_ratio xs)) [
          | none ↦ none
          | some ys ↦ elim (adjust 4 (nr_partition - 1) ys) [
            | none ↦ none
            | some zs ↦ some (sort_pid zs)
          ]
        ]
