-- ===== src/Routing/Replicas.antt =====
-- The map from DPUs to partitions, and the order in which the DPUs are loaded.
use native.Mathlib.Nat.{zero-add}
use pimlex_fast.Base.{
  ℕ, zero, suc, ◌+◌, ◌-◌, ◌≤◌, ◌<◌, ◌≡◌, refl, List, [], ◌∷◌, Option, none, some, arith, length,
  get_or, get_elem?, ltb, leb, if◌then◌else◌, dec_lt, dec_le, le→leb, lt→leb, lt→ltb, le→ltb, ◌∙◌,
  sym, ap,
}
use pimlex_fast.Routing.Defs.{
  DramLevel, assign, assign_range, assign_partitions, get_start_dpu_id, ReplicasInfo,
  cumulative_sums, get_cumulative_info, reset, advance, drop, next_partition, load_order,
  found_partition, deal,
}

abbrev pub total : List ℕ → ℕ
total [] = 0
total (r ∷ rs) = r + total rs

-- The specification: DPUs are dealt to the partitions in order, as many as each one's count.
abbrev pub owner : ℕ → List ℕ → ℕ → Option ℕ
owner i [] d = none
owner i (r ∷ rs) d = if ltb d r then some i else owner (i + 1) rs (d - r)

abbrev pub or_default : ℕ → Option ℕ → ℕ
or_default d none = d
or_default d (some p) = p

assign_range_lem :
    (n start i x : ℕ) (m : ℕ → ℕ)
    → assign_range n start i m x
      ≡ (if leb start x then (if ltb x (start + n) then i else m x) else m x)
assign_range_lem zero start i x m = ground arith
assign_range_lem (suc n) start i x m =
    ground (arith, assign_range_lem n (start + 1) i x (assign m start i))

assign_partitions-below :
    (i c x : ℕ) (rs : List ℕ) (m : ℕ → ℕ) → x < c → assign_partitions i c rs m x ≡ m x
assign_partitions-below i c x [] m h = refl
assign_partitions-below i c x (r ∷ rs) m h =
    assign_partitions-below (i + 1) (c + r) x rs (assign_range r c i m) (omega arith)
    ∙ ground (arith, assign_range_lem r c i x m)

assign_partitions-owner :
    (i c d x : ℕ) (rs : List ℕ) (m : ℕ → ℕ)
    → x ≡ c + d
    → assign_partitions i c rs m x ≡ or_default (m x) (owner i rs d)
assign_partitions-owner i c d x [] m e = refl
assign_partitions-owner i c d x (r ∷ rs) m e = elim (dec_lt d r) [
  | yes h ↦ rw (
    lt→ltb d r h,
    assign_partitions-below (i + 1) (c + r) x rs (assign_range r c i m) (omega arith),
    assign_range_lem r c i x m,
    le→leb c x (omega arith),
    lt→ltb x (c + r) (omega arith),
  )
  | no h ↦ rw (
    le→ltb d r (omega arith),
    assign_partitions-owner (i + 1) (c + r) (d - r) x rs (assign_range r c i m) (omega arith),
    assign_range_lem r c i x m,
    le→leb c x (omega arith),
    le→ltb x (c + r) (omega arith),
  )
]

-- `get_start_dpu_id` maps every DPU that the counts cover to the partition that it is dealt to, and
-- keeps the entries of the others.
pub get_start_dpu_id-owner :
    (s : DramLevel) (d : ℕ)
    → (get_start_dpu_id s).dpu_id_to_partition d
      ≡ or_default (s.dpu_id_to_partition d) (owner 0 s.nr_replicas_per_partition d)
unfolding get_start_dpu_id
get_start_dpu_id-owner s d =
    assign_partitions-owner 0 0 d d s.nr_replicas_per_partition s.dpu_id_to_partition (omega arith)

advance-owner :
    (i c d x : ℕ) (rs : List ℕ) → x ≡ c + d → advance x i (cumulative_sums c rs) ≡ owner i rs d
advance-owner i c d x [] e = refl
advance-owner i c d x (r ∷ rs) e = elim (dec_lt d r) [
  | yes h ↦ rw (lt→ltb d r h, lt→leb (c + r) x (omega arith))
  | no h ↦
      rw (le→ltb d r (omega arith), le→leb (c + r) x (omega arith))
        (advance-owner (i + 1) (c + r) (d - r) x rs (omega arith))
]

-- The state of the loader: no partition before the current one reaches to the current DPU.
record Behind (s : ReplicasInfo) : Type 0 where
  passed :
      (i : ℕ) → i < s.cur_ret_partition → get_or s.nr_replicas_cumulative_partition i 0 ≤ s.cur_dpu
  inside : s.cur_ret_partition ≤ length s.nr_replicas_cumulative_partition

advance-drop :
    (x i p : ℕ) (cs : List ℕ)
    → ((j : ℕ) → j < p → get_or cs j 0 ≤ x)
    → p ≤ length cs
    → advance x (i + p) (drop p cs) ≡ advance x i cs
advance-drop x i zero cs h k = let e : i + 0 ≡ i = omega arith in rw e
advance-drop x i (suc p) [] h k = absurd (omega arith)
advance-drop x i (suc p) (c ∷ cs) h k =
    let e : i + suc p ≡ i + 1 + p = omega arith in
    rw (le→leb c x (h 0 (omega arith)), e)
      (advance-drop x (i + 1) p cs (λ j q. h (suc j) (omega arith)) (omega arith))

advance-step :
    (x i p : ℕ) (cs : List ℕ)
    → advance x i (drop p cs)
      ≡ (if ltb x (get_or cs p 0) then some i else advance x (i + 1) (drop (suc p) cs))
advance-step x i zero [] = ground arith
advance-step x i zero (c ∷ cs) = ground arith
advance-step x i (suc p) [] = ground arith
advance-step x i (suc p) (c ∷ cs) = advance-step x i p cs

advance-passed :
    (x i p j : ℕ) (cs : List ℕ)
    → advance x i cs ≡ some p
    → (i + j < p → get_or cs j 0 ≤ x) × (p ≤ i + length cs)
advance-passed x i p j [] e = cc
advance-passed x i p zero (c ∷ cs) e = elim (dec_le c x) [
  | yes h ↦
      let r = advance-passed x (i + 1) p 0 cs (rw (le→leb c x h) at e) in
      (λ q. h, omega (arith, r.1))
  | no h ↦ (λ q. ground arith, ground arith)
]
advance-passed x i p (suc j) (c ∷ cs) e = elim (dec_le c x) [
  | yes h ↦
      let r = advance-passed x (i + 1) p j cs (rw (le→leb c x h) at e) in
      (λ q. r.0 (omega arith), omega (arith, r.1))
  | no h ↦ (λ q. absurd (ground arith), ground arith)
]

module _ (s : ReplicasInfo) (b : Behind s) where
  abbrev sums : List ℕ
  sums = s.nr_replicas_cumulative_partition

  -- A call skips the partitions that are behind.
  found-advance : found_partition s ≡ advance s.cur_dpu 0 sums
  unfolding found_partition
  found-advance =
      let one : s.cur_ret_partition + 1 ≡ suc s.cur_ret_partition = omega arith in
      sym (
        sym (advance-drop s.cur_dpu 0 s.cur_ret_partition sums b.passed b.inside)
        ∙ rw (zero-add s.cur_ret_partition, one)
            (rw one at (advance-step s.cur_dpu s.cur_ret_partition s.cur_ret_partition sums)))

  deal-Behind : (o : Option ℕ) → advance s.cur_dpu 0 sums ≡ o → Behind (deal s o).1
  deal-Behind none e = record { passed = λ i q. omega (arith, b.passed i q); inside = b.inside }
  deal-Behind (some p) e = record {
    passed = λ i q. omega (arith, (advance-passed s.cur_dpu 0 p i sums e).0 (omega arith));
    inside = omega (arith, (advance-passed s.cur_dpu 0 p 0 sums e).1);
  }

  deal-0 : (o : Option ℕ) → (deal s o).0 ≡ o
  deal-0 none = refl
  deal-0 (some p) = refl

  deal-fields :
      (o : Option ℕ)
      → ((deal s o).1.cur_dpu ≡ s.cur_dpu + 1)
        × ((deal s o).1.nr_replicas_cumulative_partition ≡ sums)
  deal-fields none = (refl, refl)
  deal-fields (some p) = (refl, refl)

  next_partition-0 : (next_partition s).0 ≡ advance s.cur_dpu 0 sums
  unfolding next_partition
  next_partition-0 = deal-0 (found_partition s) ∙ found-advance

  next_partition-Behind : Behind (next_partition s).1
  unfolding next_partition
  next_partition-Behind = deal-Behind (found_partition s) (sym found-advance)

  next_partition-fields :
      ((next_partition s).1.cur_dpu ≡ s.cur_dpu + 1)
      × ((next_partition s).1.nr_replicas_cumulative_partition ≡ sums)
  unfolding next_partition
  next_partition-fields = deal-fields (found_partition s)

load_order-advance :
    (n i : ℕ) (s : ReplicasInfo)
    → Behind s
    → i < n
    → get_elem? (load_order n s) i
      ≡ some (advance (s.cur_dpu + i) 0 s.nr_replicas_cumulative_partition)
unfolding load_order
load_order-advance zero i s b h = absurd (omega arith)
load_order-advance (suc n) zero s b h =
    let e : s.cur_dpu + 0 ≡ s.cur_dpu = omega arith in rw (next_partition-0 s b, e)
load_order-advance (suc n) (suc i) s b h =
    let f = next_partition-fields s b in
    let e : (next_partition s).1.cur_dpu + i ≡ s.cur_dpu + suc i = omega (arith, f.0) in
    load_order-advance n i (next_partition s).1 (next_partition-Behind s b) (omega arith)
    ∙ rw (e, f.1)

-- After `get_cumulative_info` and `reset`, the `i`-th call of `next_partition` returns the
-- partition that DPU `i` is dealt to, for as many DPUs as are asked for; a DPU beyond the counts
-- runs past the array.
pub load_order-owner :
    (n i : ℕ) (s : ReplicasInfo)
    → i < n
    → get_elem? (load_order n (reset (get_cumulative_info s))) i
      ≡ some (owner 0 s.nr_replicas_per_partition i)
unfolding reset get_cumulative_info
load_order-owner n i s h =
    load_order-advance n i (reset (get_cumulative_info s))
      (record { passed = λ j q. absurd (omega arith); inside = omega arith }) h
    ∙ ap some (advance-owner 0 0 i (0 + i) s.nr_replicas_per_partition (omega arith))

pub owner-total : (i d : ℕ) (rs : List ℕ) → d < total rs → (p : ℕ) × (owner i rs d ≡ some p)
owner-total i d [] h = absurd (omega arith)
owner-total i d (r ∷ rs) h = elim (dec_lt d r) [
  | yes q ↦ (i, rw (lt→ltb d r q))
  | no q ↦
      let (p, e) = owner-total (i + 1) (d - r) rs (omega arith) in
      (p, rw (le→ltb d r (omega arith)) e)
]

-- The host's map and the loading order agree: with the same counts, every DPU that the counts cover
-- is loaded with the partition that `dpu_id_to_partition` names for it.
pub load_order-get_start_dpu_id :
    (n d : ℕ) (level : DramLevel) (info : ReplicasInfo)
    → info.nr_replicas_per_partition ≡ level.nr_replicas_per_partition
    → d < n
    → d < total level.nr_replicas_per_partition
    → get_elem? (load_order n (reset (get_cumulative_info info))) d
      ≡ some (some ((get_start_dpu_id level).dpu_id_to_partition d))
load_order-get_start_dpu_id n d level info same h k =
    let (p, e) = owner-total 0 d level.nr_replicas_per_partition k in
    load_order-owner n d info h ∙ rw (same, get_start_dpu_id-owner level d, e)
