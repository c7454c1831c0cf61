-- ===== src/Host/Bound.antt =====
-- The arrays as the bulk load leaves them, and the block that the host's own search of a key arrives at.
use pimlex_fast.Base.{
  ℕ, zero, suc, ◌+◌, ◌-◌, ◌*◌, ◌^◌, ◌≤◌, ◌<◌, ◌≡◌, arith, dec_lt, dec_le, ℕ_discrete, le→leb,
  lt→leb, length,
}
use pimlex_fast.Search.{upper_bound}
use pimlex_fast.Search.Bound.{SortedOn, IsBound, upper_bound-IsBound, IsBound-unique}
use pimlex_fast.Search.Lower.{StrictOn, StrictOn→SortedOn}
use pimlex_fast.Routing.Defs.{nr_partition}
use pimlex_fast.Routing.Partition.{
  low_bound_at, IsPartition, search_upper_level_get_partition-IsPartition,
}
use pimlex_fast.Host.Index.{
  Index, before, per_dpu_input_size, partition_of, window_lo, window_hi, dram_bound, cur_key_off,
}

pub times_le : (k m n : ℕ) → m ≤ n → k * m ≤ k * n
times_le k m zero h = let e : m ≡ 0 = omega arith in rw e (omega arith)
times_le k m (suc n) h = elim (ℕ_discrete m (suc n)) [
  | yes e ↦ rw e (omega arith)
  | no ne ↦ omega (arith, times_le k m n (omega arith))
]

-- The arrays as `bulk_load_for_dpu` leaves them: distinct keys in order, the first key of every
-- block of 8 sampled, and the first sampled key of every slice in the partition level.
pub record IsLoaded (d : Index) : Type 0 where
  pub sorted : StrictOn d.keys 0 d.total_size
  pub sampled : (i : ℕ) → i < d.partial_total_size → d.partial_keys i ≡ d.keys (i * 8)
  pub whole : d.partial_total_size * 8 ≤ d.total_size
  pub small : d.total_size < 2 ^ 32
  pub slices : nr_partition ≤ d.partial_total_size
  pub partitions : length d.upper_dram_level.low_bound_key ≡ nr_partition
  pub bounds :
      (p : ℕ)
      → p < nr_partition
      → low_bound_at d.upper_dram_level p ≡ d.partial_keys (per_dpu_input_size d * p)

-- What `PGMIndex::search` promises on the slice that it was built from: the number of the slice's
-- keys up to the given one is between `lo` and `hi`.
abbrev pub IsAccurate : (ℕ → ℕ → ℕ × ℕ) → Index → Type 0
IsAccurate pgm_search d =
    (p key c : ℕ)
    → p < nr_partition
    → IsBound (λ i. d.partial_keys (per_dpu_input_size d * p + i)) key 0 (per_dpu_input_size d) c
    → ((pgm_search p key).0 ≤ c) × (c ≤ (pgm_search p key).1)

module _ (d : Index) (loaded : IsLoaded d) where
  abbrev per : ℕ
  per = per_dpu_input_size d

  pub slice_end : (p : ℕ) → p < nr_partition → per * p + per ≤ d.partial_total_size
  slice_end p h = omega (arith, times_le per (suc p) 128 h)

  pub partial-StrictOn : StrictOn d.partial_keys 0 d.partial_total_size
  partial-StrictOn i j p q r =
      rw (loaded.sampled i (omega arith), loaded.sampled j r)
        (loaded.sorted (i * 8) (j * 8) (omega arith) (omega arith) (omega (arith, loaded.whole)))

  pub bounds-SortedOn :
      SortedOn (low_bound_at d.upper_dram_level) 0 (length d.upper_dram_level.low_bound_key)
  bounds-SortedOn i j p q r =
      let jn : j < nr_partition = omega (arith, loaded.partitions) in
      rw (loaded.bounds i (omega arith), loaded.bounds j jn)
        (StrictOn→SortedOn partial-StrictOn (per * i) (per * j) (omega arith) (times_le per i j q)
          (omega (arith, slice_end j jn, loaded.slices)))

  module _ (pgm_search : ℕ → ℕ → ℕ × ℕ) (accurate : IsAccurate pgm_search d) (key : ℕ)
      (first : d.partial_keys 0 ≤ key) (last : key < d.partial_keys (per * nr_partition - 1)) where
    abbrev pub split : ℕ
    split = upper_bound d.partial_keys key 0 d.partial_total_size

    pub split-IsBound : IsBound d.partial_keys key 0 d.partial_total_size split
    split-IsBound =
        upper_bound-IsBound d.partial_keys key 0 d.partial_total_size (omega arith)
          (StrictOn→SortedOn partial-StrictOn)

    pub split-upto : split < per * nr_partition
    split-upto = elim (dec_lt split (per * nr_partition)) [
      | yes h ↦ h
      | no h ↦ absurd (
          omega (
            arith,
            split-IsBound.below (per * nr_partition - 1) (omega arith)
                (omega (arith, loaded.slices)),
            last,
          ))
    ]

    from : (p : ℕ) → p < nr_partition → low_bound_at d.upper_dram_level p ≤ key → per * p ≤ split
    from p h low = elim (dec_lt split (per * p)) [
      | no k ↦ omega arith
      | yes k ↦ absurd (
          omega (
            arith,
            split-IsBound.above (per * p) (omega arith)
                (omega (arith, slice_end p h, loaded.slices)),
            loaded.bounds p h,
          ))
    ]

    upto : (p : ℕ) → p < nr_partition → IsPartition key p d.upper_dram_level → split ≤ per * p + per
    upto p h part = elim (dec_lt (suc p) nr_partition) [
      | yes k ↦ elim (dec_lt (per * p + per) split) [
        | no l ↦ omega arith
        | yes l ↦
            let e : per * suc p ≡ per * p + per = omega arith in
            absurd (
              omega (
                arith,
                split-IsBound.below (per * suc p) (omega arith) (omega arith),
                loaded.bounds (suc p) k,
                part.high (suc p) (omega arith) (omega (arith, loaded.partitions)),
              ))
      ]
      | no k ↦ let e : p ≡ 127 = omega arith in rw e (omega (arith, split-upto))
    ]

    routed :
        (p : ℕ) × (partition_of d key ≡ p)
        × (p < nr_partition)
        × (per * p ≤ split)
        × (split ≤ per * p + per)
    routed =
        let zeroth : per * 0 ≡ 0 = omega arith in
        let low : low_bound_at d.upper_dram_level 0 ≤ key =
          rw (loaded.bounds 0 (omega arith), zeroth) first in
        let f =
          search_upper_level_get_partition-IsPartition key d.upper_dram_level bounds-SortedOn
            (omega (arith, loaded.partitions)) low in
        let p : ℕ = f.0 in
        let inside : p < nr_partition = omega (arith, f.2.inside, loaded.partitions) in
        (
          p,
          rw (f.1, lt→leb nr_partition p inside),
          inside,
          from p inside (f.2.low p (omega arith)),
          upto p inside f.2,
        )

    slice-IsBound :
        (p : ℕ)
        → p < nr_partition
        → per * p ≤ split
        → split ≤ per * p + per
        → IsBound (λ i. d.partial_keys (per * p + i)) key 0 per (split - per * p)
    slice-IsBound p h low high = record {
      from = omega arith;
      upto = omega arith;
      below = λ i u v. split-IsBound.below (per * p + i) (omega arith) (omega arith);
      above =
          λ i u v. split-IsBound.above (per * p + i) (omega arith) (omega (arith, slice_end p h));
    }

    window_keeps : (window_lo pgm_search d key ≤ split) × (split ≤ window_hi pgm_search d key)
    window_keeps =
        let p : ℕ = routed.0 in
        let e : partition_of d key ≡ p = routed.1 in
        let a =
          accurate p key (split - per * p) routed.2 (slice-IsBound p routed.2 routed.3 routed.4) in
        rw e (omega (arith, a.0, routed.3), omega (arith, a.1, routed.3))

    within :
        (r : ℕ)
        → r ≤ d.partial_total_size
        → split ≤ r
        → upper_bound d.partial_keys key (window_lo pgm_search d key) r ≡ split
    within r rn h =
        IsBound-unique
          (upper_bound-IsBound d.partial_keys key (window_lo pgm_search d key) r
            (omega (arith, window_keeps.0))
            (λ i j u v w. StrictOn→SortedOn partial-StrictOn i j (omega arith) v (omega arith)))
          (record {
            from = window_keeps.0;
            upto = h;
            below = λ i u v. split-IsBound.below i (omega arith) v;
            above = λ i u v. split-IsBound.above i u (omega arith);
          })

    -- The window keeps the splitting index, and so the bisection finds it.
    dram_bound_lem : dram_bound pgm_search d key ≡ split
    unfolding dram_bound
    dram_bound_lem = elim (dec_le d.partial_total_size (window_hi pgm_search d key)) [
      | yes h ↦
          let back : before d.partial_total_size ≡ d.partial_total_size - 1 =
            omega (arith, loaded.whole, loaded.small, loaded.slices) in
          rw (le→leb d.partial_total_size (window_hi pgm_search d key) h, back)
            (within (d.partial_total_size - 1) (omega arith)
              (omega (arith, split-upto, slice_end 127 (omega arith))))
      | no h ↦
          rw (lt→leb d.partial_total_size (window_hi pgm_search d key) (omega arith))
            (within (window_hi pgm_search d key) (omega arith) window_keeps.1)
    ]

    pub split-pos : 0 < split
    split-pos = elim (dec_lt 0 split) [
      | yes h ↦ h
      | no h ↦
          absurd (
            omega
              (arith, split-IsBound.above 0 (omega arith) (omega (arith, loaded.slices)), first))
    ]

    pub cur_key_off_lem : cur_key_off pgm_search d key ≡ (split - 1) * 8
    unfolding cur_key_off
    cur_key_off_lem =
        rw (dram_bound_lem)
          (omega (arith, split-pos, split-IsBound.upto, loaded.whole, loaded.small))
