-- ===== src/Skew/Total.antt =====
-- What the steps of `calculate_partition_skew` do to the number of DPUs that are handed out.
use mathlib.Core.List.{Permᴰ}
use pimlex_fast.Base.{
  ℕ, zero, suc, ◌+◌, ◌-◌, ◌<◌, ◌≡◌, ◌≢◌, refl, sym, ◌∙◌, arith, List, [], ◌∷◌, Option, none, some,
  get_elem?, insert_at, length, length-insert_at, dec_lt, lt→ltb, le→ltb, Option-cases, inl, inr,
  ==_iff, ==-false, ℕ_discrete,
}
use pimlex_fast.Routing.Defs.{nr_partition}
use pimlex_fast.Host.Batches.{nr_dpus}
use pimlex_fast.Skew.{
  Ratios, AccessRatio, count_at, remove_at, total_dpus, skip_down, skip_up, Entry, recount,
  moved_down, move_down, moved_up, move_up, shrink, grow, balance,
}

module _ {R : Type 0} where
  -- Every partition has a DPU.
  abbrev pub Positive : List (AccessRatio R) → Type 0
  Positive [] = Unit
  Positive (x ∷ xs) = (0 < x.num_dpu_per_partition) × Positive xs

  total-insert_at :
      (k : ℕ) (e : AccessRatio R) (xs : List (AccessRatio R))
      → total_dpus (insert_at k e xs) ≡ e.num_dpu_per_partition + total_dpus xs
  unfolding total_dpus
  total-insert_at zero e xs = refl
  total-insert_at (suc k) e [] = refl
  total-insert_at (suc k) e (x ∷ xs) = omega (arith, total-insert_at k e xs)

  Positive-insert_at :
      (k : ℕ) (e : AccessRatio R) (xs : List (AccessRatio R))
      → 0 < e.num_dpu_per_partition
      → Positive xs
      → Positive (insert_at k e xs)
  Positive-insert_at zero e xs h p = (h, p)
  Positive-insert_at (suc k) e [] h p = (h, tt)
  Positive-insert_at (suc k) e (x ∷ xs) h p = (p.0, Positive-insert_at k e xs h p.1)

  -- An entry that is there, and the list without it.
  pub take_out :
      (off : ℕ) (e : AccessRatio R) (xs : List (AccessRatio R))
      → get_elem? xs off ≡ some e
      → Positive xs
      → (total_dpus xs ≡ e.num_dpu_per_partition + total_dpus (remove_at off xs))
        × (0 < e.num_dpu_per_partition)
        × (count_at xs off ≡ e.num_dpu_per_partition)
        × Positive (remove_at off xs)
        × (length xs ≡ suc (length (remove_at off xs)))
  unfolding total_dpus
  take_out off e [] h p = absurd (cc)
  take_out zero e (x ∷ xs) h p = let same : x ≡ e = cc in rw (sym same) (refl, p.0, refl, p.1, refl)
  take_out (suc off) e (x ∷ xs) h p =
      let t = take_out off e xs h p.1 in
      (omega (arith, t.0), t.1, t.2, (p.0, t.3), omega (arith, t.4))

  -- A sort moves DPUs between partitions no more than it loses them.
  pub total-Permᴰ : {xs ys : List (AccessRatio R)} → Permᴰ xs ys → total_dpus xs ≡ total_dpus ys
  unfolding total_dpus
  total-Permᴰ Permᴰ.nil = refl
  total-Permᴰ (Permᴰ.cons e p) = rw e (omega (arith, total-Permᴰ p))
  total-Permᴰ (Permᴰ.swap e f) = rw (e, f) (omega arith)
  total-Permᴰ (Permᴰ.trans p q) = total-Permᴰ p ∙ total-Permᴰ q

  pub Positive-Permᴰ : {xs ys : List (AccessRatio R)} → Permᴰ xs ys → Positive xs → Positive ys
  Positive-Permᴰ Permᴰ.nil h = h
  Positive-Permᴰ (Permᴰ.cons e p) h = rw (sym e) (h.0, Positive-Permᴰ p h.1)
  Positive-Permᴰ (Permᴰ.swap e f) h = rw (sym e, sym f) (h.1.0, (h.0, h.1.1))
  Positive-Permᴰ (Permᴰ.trans p q) h = Positive-Permᴰ q (Positive-Permᴰ p h)

  pub length-Permᴰ : {xs ys : List (AccessRatio R)} → Permᴰ xs ys → length xs ≡ length ys
  length-Permᴰ Permᴰ.nil = refl
  length-Permᴰ (Permᴰ.cons e p) = omega (arith, length-Permᴰ p)
  length-Permᴰ (Permᴰ.swap e f) = refl
  length-Permᴰ (Permᴰ.trans p q) = length-Permᴰ p ∙ length-Permᴰ q

  put_back :
      (k : ℕ) (e : AccessRatio R) (rest ys : List (AccessRatio R))
      → some (insert_at k e rest) ≡ some ys
      → 0 < e.num_dpu_per_partition
      → Positive rest
      → (total_dpus ys ≡ e.num_dpu_per_partition + total_dpus rest)
        × Positive ys
        × (length ys ≡ suc (length rest))
  put_back k e rest ys h pos p =
      let same : insert_at k e rest ≡ ys = cc in
      rw (sym same)
        (total-insert_at k e rest, Positive-insert_at k e rest pos p, length-insert_at k e rest)

  skip_down_lem :
      (xs : List (AccessRatio R)) (off low : ℕ) → skip_down xs off ≡ some low → count_at xs low ≢ 1
  unfolding skip_down
  skip_down_lem xs zero low h = elim (ℕ_discrete (count_at xs 0) 1) [
    | yes e ↦
        let f : ◌≡◌ {A = Option ℕ} none (some low) =
          rw (skip_down, (==_iff (count_at xs 0) 1).1 e) at h in
        absurd (cc)
    | no ne ↦
        let f : some 0 ≡ some low = rw (skip_down, ==-false (count_at xs 0) 1 ne) at h in
        let same : 0 ≡ low = cc in rw (sym same) ne
  ]
  skip_down_lem xs (suc off) low h = elim (ℕ_discrete (count_at xs (suc off)) 1) [
    | yes e ↦ skip_down_lem xs off low (rw (skip_down, (==_iff (count_at xs (suc off)) 1).1 e) at h)
    | no ne ↦
        let f : some (suc off) ≡ some low =
          rw (skip_down, ==-false (count_at xs (suc off)) 1 ne) at h in
        let same : suc off ≡ low = cc in rw (sym same) ne
  ]

module _ (F : Ratios) where
  -- One DPU less, and every partition keeps one.
  moved_down_lem :
      (xs : List (Entry F)) (off : ℕ) (o : Option (Entry F)) (ys : List (Entry F))
      → get_elem? xs off ≡ o
      → moved_down F xs off o ≡ some ys
      → Positive xs
      → count_at xs off ≢ 1
      → (total_dpus xs ≡ suc (total_dpus ys)) × Positive ys × (length ys ≡ length xs)
  moved_down_lem xs off none ys g h p c = absurd (cc)
  moved_down_lem xs off (some e) ys g h p c =
      let t = take_out off e xs g p in
      let b =
        put_back _ (recount F (e.num_dpu_per_partition - 1) e) (remove_at off xs) ys h
          (omega (arith, t.1, t.2, c)) t.3 in
      (omega (arith, t.0, t.1, b.0), b.1, omega (arith, t.4, b.2))

  moved_up_lem :
      (xs : List (Entry F)) (off : ℕ) (o : Option (Entry F)) (ys : List (Entry F))
      → get_elem? xs off ≡ o
      → moved_up F xs off o ≡ some ys
      → Positive xs
      → (total_dpus ys ≡ suc (total_dpus xs)) × Positive ys × (length ys ≡ length xs)
  moved_up_lem xs off none ys g h p = absurd (cc)
  moved_up_lem xs off (some e) ys g h p =
      let t = take_out off e xs g p in
      let b =
        put_back _ (recount F (e.num_dpu_per_partition + 1) e) (remove_at off xs) ys h (omega arith)
          t.3 in
      (omega (arith, t.0, b.0), b.1, omega (arith, t.4, b.2))

  pub move_down_lem :
      (xs : List (Entry F)) (off : ℕ) (ys : List (Entry F))
      → move_down F xs off ≡ some ys
      → Positive xs
      → count_at xs off ≢ 1
      → (total_dpus xs ≡ suc (total_dpus ys)) × Positive ys × (length ys ≡ length xs)
  unfolding move_down
  move_down_lem xs off ys = moved_down_lem xs off (get_elem? xs off) ys refl

  pub move_up_lem :
      (xs : List (Entry F)) (off : ℕ) (ys : List (Entry F))
      → move_up F xs off ≡ some ys
      → Positive xs
      → (total_dpus ys ≡ suc (total_dpus xs)) × Positive ys × (length ys ≡ length xs)
  unfolding move_up
  move_up_lem xs off ys = moved_up_lem xs off (get_elem? xs off) ys refl

  shrink_lem :
      (n off : ℕ) (xs zs : List (Entry F))
      → shrink F n off xs ≡ some zs
      → Positive xs
      → (total_dpus xs ≡ n + total_dpus zs) × Positive zs × (length zs ≡ length xs)
  unfolding shrink
  shrink_lem zero off xs zs h p = let same : xs ≡ zs = cc in rw (sym same) (omega arith, p, refl)
  shrink_lem (suc n) off xs zs h p = elim (Option-cases (skip_down xs off)) [
    | inl e ↦
        let f : ◌≡◌ {A = Option (List (Entry F))} none (some zs) = rw (shrink, e) at h in
        absurd (cc)
    | inr (low, e) ↦ elim (Option-cases (move_down F xs low)) [
      | inl m ↦
          let f : ◌≡◌ {A = Option (List (Entry F))} none (some zs) = rw (shrink, e, m) at h in
          absurd (cc)
      | inr (ys, m) ↦
          let d = move_down_lem xs low ys m p (skip_down_lem xs off low e) in
          let ih = shrink_lem n low ys zs (rw (shrink, e, m) at h) d.1 in
          (omega (arith, d.0, ih.0), ih.1, ih.2 ∙ d.2)
    ]
  ]

  grow_lem :
      (n off : ℕ) (xs zs : List (Entry F))
      → grow F n off xs ≡ some zs
      → Positive xs
      → (total_dpus zs ≡ n + total_dpus xs) × Positive zs × (length zs ≡ length xs)
  unfolding grow
  grow_lem zero off xs zs h p = let same : xs ≡ zs = cc in rw (sym same) (omega arith, p, refl)
  grow_lem (suc n) off xs zs h p = elim (Option-cases (skip_up xs (nr_partition - off) off)) [
    | inl e ↦
        let f : ◌≡◌ {A = Option (List (Entry F))} none (some zs) = rw (grow, e) at h in absurd (cc)
    | inr (high, e) ↦ elim (Option-cases (move_up F xs high)) [
      | inl m ↦
          let f : ◌≡◌ {A = Option (List (Entry F))} none (some zs) = rw (grow, e, m) at h in
          absurd (cc)
      | inr (ys, m) ↦
          let d = move_up_lem xs high ys m p in
          let ih = grow_lem n high ys zs (rw (grow, e, m) at h) d.1 in
          (omega (arith, d.0, ih.0), ih.1, ih.2 ∙ d.2)
    ]
  ]

  pub balance_lem :
      (xs zs : List (Entry F))
      → balance F (total_dpus xs) xs ≡ some zs
      → Positive xs
      → (total_dpus zs ≡ nr_dpus) × Positive zs × (length zs ≡ length xs)
  unfolding balance
  balance_lem xs zs h p = elim (dec_lt nr_dpus (total_dpus xs)) [
    | yes m ↦
        let b =
          shrink_lem (total_dpus xs - nr_dpus) 127 xs zs
            (rw (balance, lt→ltb nr_dpus (total_dpus xs) m) at h) p in
        (omega (arith, b.0), b.1, b.2)
    | no m ↦ elim (dec_lt (total_dpus xs) nr_dpus) [
      | yes l ↦
          let b =
            grow_lem (nr_dpus - total_dpus xs) 0 xs zs
              (rw
                (
                  balance,
                  le→ltb nr_dpus (total_dpus xs) (omega arith),
                  lt→ltb (total_dpus xs) nr_dpus l,
                )
                at h)
              p in
          (omega (arith, b.0), b.1, b.2)
      | no l ↦
          let f : some xs ≡ some zs =
            rw
              (
                balance,
                le→ltb nr_dpus (total_dpus xs) (omega arith),
                le→ltb (total_dpus xs) nr_dpus (omega arith),
              )
              at h in
          let same : xs ≡ zs = cc in rw (sym same) (omega arith, p, refl)
    ]
  ]
