-- ===== src/Skew/Adjust.antt =====
-- `calculate_partition_skew` hands out every DPU, and at least one to each partition.
use mathlib.Core.List.{Permᴰ}
use pimlex_fast.Base.{
  ℕ, zero, suc, ◌+◌, ◌-◌, ◌/◌, ◌≡◌, ◌≢◌, refl, ap, length, sym, ◌∙◌, arith, List, [], ◌∷◌, Option,
  none, some, true, false, get_elem?, Bool-cases, Option-cases, inl, inr,
}
use pimlex_fast.Routing.Defs.{nr_partition}
use pimlex_fast.Host.Batches.{nr_dpus}
use pimlex_fast.Skew.{
  Ratios, count_at, total_dpus, Entry, move_down, balance, gain_between, gains, max_dpu_num_off,
  giver, exchange, adjust, allocate, calculate_partition_skew,
}
use pimlex_fast.Skew.Total.{
  Positive, take_out, total-Permᴰ, Positive-Permᴰ, length-Permᴰ, move_down_lem, move_up_lem,
  balance_lem,
}

-- A double divided by 0 is infinite or no number, and neither is below anything.
abbrev pub IsUnbounded : Ratios → Type 0
IsUnbounded F = (r y : F.Ratio) → F.less (F.share r 0) y ≡ false

module _ (F : Ratios) (unbounded : IsUnbounded F) where
  gain_between_lem :
      (xs : List (Entry F)) (off : ℕ) (o f : Option (Entry F))
      → get_elem? xs off ≡ o
      → gain_between F o f ≡ true
      → Positive xs
      → count_at xs off ≢ 1
  gain_between_lem xs off none f g h p c = absurd (cc)
  gain_between_lem xs off (some e) none g h p c = absurd (cc)
  gain_between_lem xs off (some e) (some f) g h p c =
      let t = take_out off e xs g p in
      let gone : e.num_dpu_per_partition - 1 ≡ 0 = omega (arith, t.2, c) in
      let no : F.less (F.share e.partition_ratio (e.num_dpu_per_partition - 1)) f.per_dpu_ratio
          ≡ false =
        rw gone (unbounded e.partition_ratio f.per_dpu_ratio) in
      absurd (cc)

  giver_lem :
      (xs : List (Entry F)) (off low : ℕ)
      → giver F xs off ≡ some low
      → Positive xs
      → count_at xs low ≢ 1
  unfolding giver gains
  giver_lem xs off low h p =
      let last : ℕ = max_dpu_num_off xs in
      elim (Bool-cases (gains F xs off)) [
        | inl g ↦
            let f : some off ≡ some low = rw (giver, g) at h in
            let same : off ≡ low = cc in
            rw (sym same) (gain_between_lem xs off (get_elem? xs off) (get_elem? xs 0) refl g p)
        | inr g ↦ elim (Bool-cases (gains F xs last)) [
          | inl k ↦
              let f : some last ≡ some low = rw (giver, g, k) at h in
              let same : last ≡ low = cc in
              rw (sym same) (gain_between_lem xs last (get_elem? xs last) (get_elem? xs 0) refl k p)
          | inr k ↦
              let f : ◌≡◌ {A = Option ℕ} none (some low) = rw (giver, g, k) at h in absurd (cc)
        ]
      ]

  exchange_lem :
      (xs : List (Entry F)) (low : ℕ) (zs : List (Entry F))
      → exchange F xs low ≡ some zs
      → Positive xs
      → count_at xs low ≢ 1
      → (total_dpus zs ≡ total_dpus xs) × Positive zs × (length zs ≡ length xs)
  unfolding exchange
  exchange_lem xs low zs h p c = elim (Option-cases (move_down F xs low)) [
    | inl m ↦
        let f : ◌≡◌ {A = Option (List (Entry F))} none (some zs) = rw (exchange, m) at h in
        absurd (cc)
    | inr (ys, m) ↦
        let d = move_down_lem F xs low ys m p c in
        let u = move_up_lem F ys 0 zs (rw (exchange, m) at h) d.1 in
        (omega (arith, d.0, u.0), u.1, u.2 ∙ d.2)
  ]

  adjust_lem :
      (n off : ℕ) (xs zs : List (Entry F))
      → adjust F n off xs ≡ some zs
      → Positive xs
      → (total_dpus zs ≡ total_dpus xs) × Positive zs × (length zs ≡ length xs)
  unfolding adjust
  adjust_lem zero off xs zs h p = let same : xs ≡ zs = cc in rw (sym same) (refl, p, refl)
  adjust_lem (suc n) off xs zs h p = elim (Option-cases (giver F xs off)) [
    | inl e ↦
        let f : some xs ≡ some zs = rw (adjust, e) at h in
        let same : xs ≡ zs = cc in rw (sym same) (refl, p, refl)
    | inr (low, e) ↦ elim (Option-cases (exchange F xs low)) [
      | inl m ↦
          let f : ◌≡◌ {A = Option (List (Entry F))} none (some zs) = rw (adjust, e, m) at h in
          absurd (cc)
      | inr (ys, m) ↦
          let x = exchange_lem xs low ys m p (giver_lem xs off low e p) in
          let ih = adjust_lem n low ys zs (rw (adjust, e, m) at h) x.1 in
          (omega (arith, x.0, ih.0), ih.1, ih.2 ∙ x.2)
    ]
  ]

  Positive-allocate :
      (to_dpu avg i : ℕ) (access_num : List ℕ) → Positive (allocate F to_dpu avg i access_num)
  unfolding allocate
  Positive-allocate to_dpu avg i [] = tt
  Positive-allocate to_dpu avg i (a ∷ access_num) =
      (omega arith, Positive-allocate to_dpu avg (i + 1) access_num)

  length-allocate :
      (to_dpu avg i : ℕ) (access_num : List ℕ)
      → length (allocate F to_dpu avg i access_num) ≡ length access_num
  unfolding allocate
  length-allocate to_dpu avg i [] = refl
  length-allocate to_dpu avg i (a ∷ access_num) =
      ap suc (length-allocate to_dpu avg (i + 1) access_num)

  -- When the sorts permute the entries and a ratio over 0 DPUs is below nothing: whatever the
  -- sampled accesses, a run of `calculate_partition_skew` that stays inside its arrays hands out
  -- exactly the 512 DPUs, and at least one to each partition, with an entry for each count of accesses.
  pub calculate_partition_skew-total :
      (sort_dpu_ratio sort_pid : List (Entry F) → List (Entry F))
      → ((xs : List (Entry F)) → Permᴰ xs (sort_dpu_ratio xs))
      → ((xs : List (Entry F)) → Permᴰ xs (sort_pid xs))
      → (to_dpu total : ℕ) (access_num : List ℕ) (zs : List (Entry F))
      → calculate_partition_skew F sort_dpu_ratio sort_pid to_dpu total access_num ≡ some zs
      → (total_dpus zs ≡ nr_dpus) × Positive zs × (length zs ≡ length access_num)
  unfolding calculate_partition_skew
  calculate_partition_skew-total sort_dpu_ratio sort_pid permutes reorders to_dpu total access_num
        zs h =
      let xs : List (Entry F) = allocate F to_dpu (total / nr_partition) 0 access_num in
      let pos : Positive (sort_dpu_ratio xs) =
        Positive-Permᴰ (permutes xs)
          (Positive-allocate to_dpu (total / nr_partition) 0 access_num) in
      let keep : total_dpus xs ≡ total_dpus (sort_dpu_ratio xs) = total-Permᴰ (permutes xs) in
      elim (Option-cases (balance F (total_dpus xs) (sort_dpu_ratio xs))) [
        | inl e ↦
            let f : ◌≡◌ {A = Option (List (Entry F))} none (some zs) =
              rw (calculate_partition_skew, e) at h in
            absurd (cc)
        | inr (ys, e) ↦
            let b = balance_lem F (sort_dpu_ratio xs) ys (rw (sym keep) e) pos in
            elim (Option-cases (adjust F 4 127 ys)) [
              | inl m ↦
                  let f : ◌≡◌ {A = Option (List (Entry F))} none (some zs) =
                    rw (calculate_partition_skew, e, m) at h in
                  absurd (cc)
              | inr (ws, m) ↦
                  let a = adjust_lem 4 127 ys ws m b.1 in
                  let f : some (sort_pid ws) ≡ some zs = rw (calculate_partition_skew, e, m) at h in
                  let same : sort_pid ws ≡ zs = cc in
                  rw (sym same) (
                    sym (total-Permᴰ (reorders ws)) ∙ a.0 ∙ b.0,
                    Positive-Permᴰ (reorders ws) a.1,
                    sym (length-Permᴰ (reorders ws))
                        ∙ a.2
                        ∙ b.2
                        ∙ sym (length-Permᴰ (permutes xs))
                        ∙ length-allocate to_dpu (total / nr_partition) 0 access_num,
                  )
            ]
      ]
