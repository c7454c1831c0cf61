-- ===== src/Run/Counts.antt =====
-- The accesses that the warm-up counts: each sampled query at its own partition.
use pimlex_fast.Base.{
  ℕ, zero, suc, ◌+◌, ◌≤◌, ◌<◌, ◌≡◌, refl, sym, ap, ◌∙◌, subst, arith, List, some, true, length,
  length-set, get_or, get_or-set_self, get_or-set_ne, set, ◌==◌, ==_iff, ==-false, if◌then◌else◌,
  ℕ_discrete,
}
use pimlex_fast.Routing.Defs.{DramLevel, nr_partition, get_start_dpu_id, search_upper_level}
use pimlex_fast.Routing.Partition.{IsPartition, IsPartition-unique, search_upper_level-routes}
use pimlex_fast.Host.Index.{Index}
use pimlex_fast.Host.Bound.{IsLoaded}
use pimlex_fast.Run.Defs.{sample_accesses}
use pimlex_fast.Run.Serving.{IsServing}
use pimlex_fast.Run.Slots.{partitions_old, bounds_old}

-- How many of the `n` queries from `req` on fall in the partition `p`.
abbrev pub hits : (ℕ → ℕ) → ℕ → ℕ → ℕ → ℕ
hits route p zero req = 0
hits route p (suc n) req = (if route req == p then 1 else 0) + hits route p n (req + 1)

get_start_dpu_id-IsPartition :
    (s : DramLevel) (key p : ℕ) → IsPartition key p (get_start_dpu_id s) → IsPartition key p s
unfolding get_start_dpu_id
get_start_dpu_id-IsPartition s key p i = record { inside = i.inside; low = i.low; high = i.high }

-- One more access of the partition `at`.
counted_once :
    (access_num : List ℕ) (at p : ℕ)
    → at < length access_num
    → get_or (set access_num at (get_or access_num at 0 + 1)) p 0
      ≡ get_or access_num p 0 + (if at == p then 1 else 0)
counted_once access_num at p h = elim (ℕ_discrete at p) [
  | yes e ↦
      rw ((==_iff at p).1 e, ← e) (get_or-set_self access_num at (get_or access_num at 0 + 1) 0 h)
  | no ne ↦
      rw (==-false at p ne)
        (get_or-set_ne access_num at p (get_or access_num at 0 + 1) 0 ne ∙ omega arith)
]

module _ (d : Index) (loaded : IsLoaded d) (serving : IsServing d.upper_dram_level)
    (querys route : ℕ → ℕ) where
  -- Every sampled query is counted at its partition, and the counts stay as many.
  pub sample_accesses_lem :
      (n req : ℕ) (access_num : List ℕ)
      → length access_num ≡ nr_partition
      → ((r : ℕ) → req ≤ r → r < req + n → IsPartition (querys r) (route r) d.upper_dram_level)
      → (sampled : List ℕ) × (sample_accesses d.upper_dram_level querys n req access_num
          ≡ some sampled)
        × (length sampled ≡ nr_partition)
        × ((p : ℕ) → get_or sampled p 0 ≡ get_or access_num p 0 + hits route p n req)
  unfolding sample_accesses
  sample_accesses_lem zero req access_num size routed = (access_num, refl, size, λ p. omega arith)
  sample_accesses_lem (suc n) req access_num size routed =
      let partitions = partitions_old d loaded serving in
      let own : IsPartition (querys req) (route req) serving.old =
        get_start_dpu_id-IsPartition serving.old (querys req) (route req) (
          subst (λ s. IsPartition (querys req) (route req) s) serving.made
            (routed req (omega arith) (omega arith))) in
      let to =
        search_upper_level-routes (querys req) req true access_num serving.old
          (bounds_old d loaded serving) (omega (arith, partitions)) (own.low 0 (omega arith))
          (serving.counted ∙ sym partitions)
          (λ p h. serving.served p (omega (arith, h, partitions))) in
      let same : to.0 ≡ route req = IsPartition-unique to.2 own in
      let counted : List ℕ = set access_num to.0 (get_or access_num to.0 0 + 1) in
      let searched : search_upper_level (querys req) req true access_num d.upper_dram_level
          ≡ some (to.1, counted) =
        ap (λ level. search_upper_level (querys req) req true access_num level) serving.made
        ∙ to.3 in
      let rest =
        sample_accesses_lem n (req + 1) counted
          (length-set access_num to.0 (get_or access_num to.0 0 + 1) ∙ size)
          (λ r a b. routed r (omega arith) (omega arith)) in
      (
        rest.0,
        rw (sample_accesses, searched) rest.1,
        rest.2,
        λ p.
            let once =
              counted_once access_num to.0 p (omega (arith, size, partitions, to.2.inside)) in
            rest.3 p ∙ (rw (once, same) (omega arith)),
      )
