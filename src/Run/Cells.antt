-- ===== src/Run/Cells.antt =====
-- The cells of the send buffers, against the queries that they come from.
use mathlib.Core.List.Memᴰ
use mathlib.Core.List.{Memᴰ}
use pimlex_fast.Base.{
  ℕ, zero, suc, ◌+◌, ◌≤◌, ◌<◌, ◌≡◌, refl, inl, inr, arith, List, [], ◌∷◌, ◌++◌, true, ==_iff,
  ==-false, ℕ_discrete,
}
use pimlex_fast.Host.Batches.{count_from}
use pimlex_fast.Batch.Route.{cells_for}

-- The key is a query of the `n` from `req` on.
abbrev pub IsQuery : (ℕ → ℕ) → ℕ → ℕ → ℕ → Type 0
IsQuery querys req n key = (r : ℕ) × (req ≤ r) × (r < req + n) × (key ≡ querys r)

IsQuery-later :
    (querys : ℕ → ℕ) (req n key : ℕ)
    → IsQuery querys (req + 1) n key
    → IsQuery querys req (suc n) key
IsQuery-later querys req n key (r, a, b, e) = (r, omega arith, omega arith, e)

-- The cells of a buffer are queries of the range, and each query stands in the buffer of its DPU.
module _ (routes : ℕ → ℕ) (querys : ℕ → ℕ) where
  pub cells_sound :
      (h n req key : ℕ)
      → Memᴰ key (cells_for routes (λ r. true) querys h n req)
      → IsQuery querys req n key
  cells_sound h zero req key m = absurd (Memᴰ.not-nil m)
  cells_sound h (suc n) req key m = elim (ℕ_discrete (routes req) h) [
    | yes e ↦ elim (Memᴰ.cases_cons (rw ((==_iff (routes req) h).1 e) at m)) [
      | inl same ↦ (req, omega arith, omega arith, same)
      | inr later ↦ IsQuery-later querys req n key (cells_sound h n (req + 1) key later)
    ]
    | no ne ↦
        IsQuery-later querys req n key
          (cells_sound h n (req + 1) key (rw (==-false (routes req) h ne) at m))
  ]

  pub cells_complete :
      (n req r : ℕ)
      → req ≤ r
      → r < req + n
      → Memᴰ (querys r) (cells_for routes (λ r. true) querys (routes r) n req)
  cells_complete zero req r a b = absurd (omega arith)
  cells_complete (suc n) req r a b = elim (ℕ_discrete req r) [
    | yes e ↦ rw (e, (==_iff (routes r) (routes r)).1 refl) (Memᴰ.head refl)
    | no ne ↦
        let rest = cells_complete n (req + 1) r (omega (arith, ne)) (omega arith) in
        elim (ℕ_discrete (routes req) (routes r)) [
          | yes f ↦ rw ((==_iff (routes req) (routes r)).1 f) (Memᴰ.tail rest)
          | no nf ↦ rw (==-false (routes req) (routes r) nf) rest
        ]
  ]

-- The cells of all DPUs, in the order of the handler.
abbrev pub gathered : (ℕ → List ℕ) → List ℕ → List ℕ
gathered buffers [] = []
gathered buffers (i ∷ order) = buffers i ++ gathered buffers order

pub gathered_complete :
    (buffers : ℕ → List ℕ) (key h i n : ℕ)
    → i ≤ h
    → h < i + n
    → Memᴰ key (buffers h)
    → Memᴰ key (gathered buffers (count_from i n))
gathered_complete buffers key h i zero a b m = absurd (omega arith)
gathered_complete buffers key h i (suc n) a b m = elim (ℕ_discrete i h) [
  | yes e ↦ rw e (Memᴰ.append_left (gathered buffers (count_from (h + 1) n)) m)
  | no ne ↦
      Memᴰ.append_right (buffers i)
        (gathered_complete buffers key h (i + 1) n (omega (arith, ne)) (omega arith) m)
]
