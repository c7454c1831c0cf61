-- ===== src/Run/Record.antt =====
-- A handler whose run notes what every request leaves.
use pimlex_fast.Base.{ℕ, ◌≡◌, List, [], ◌∷◌, ◌++◌, Option, none, some, Option-cases, inl, inr}
use pimlex_fast.Host.Batches.{run_requests, run_dpus}

module _ {S Q R : Type 0} (step : ℕ → Q → S → Option S) (note : Q → S → R) where
  abbrev noted : Q → List R → Option S → Option (S × List R)
  noted q notes none = none
  noted q notes (some s) = some (s, notes ++ (note q s ∷ []))

  abbrev pub recorded : ℕ → Q → S × List R → Option (S × List R)
  recorded i q (s, notes) = noted q notes (step i q s)

  -- The run with notes leaves the same state.
  run_requests-recorded :
      (i : ℕ) (qs : List Q) (s s' : S) (notes notes' : List R)
      → run_requests recorded i qs (s, notes) ≡ some (s', notes')
      → run_requests step i qs s ≡ some s'
  unfolding run_requests
  run_requests-recorded i [] s s' notes notes' e = cc
  run_requests-recorded i (q ∷ qs) s s' notes notes' e = elim (Option-cases (step i q s)) [
    | inl f ↦
        let wrong : ◌≡◌ {A = Option (S × List R)} none (some (s', notes')) =
          rw (run_requests, f) at e in
        absurd (cc)
    | inr (t, f) ↦
        rw (run_requests, f)
          (run_requests-recorded i qs t s' (notes ++ (note q t ∷ [])) notes'
            (rw (run_requests, f) at e))
  ]

  pub run_dpus-recorded :
      (requests : ℕ → List Q) (order : List ℕ) (s s' : S) (notes notes' : List R)
      → run_dpus recorded requests order (s, notes) ≡ some (s', notes')
      → run_dpus step requests order s ≡ some s'
  unfolding run_dpus
  run_dpus-recorded requests [] s s' notes notes' e = cc
  run_dpus-recorded requests (i ∷ order) s s' notes notes' e =
      elim (Option-cases (run_requests recorded i (requests i) (s, notes))) [
        | inl f ↦
            let wrong : ◌≡◌ {A = Option (S × List R)} none (some (s', notes')) =
              rw (run_dpus, f) at e in
            absurd (cc)
        | inr ((t, more), f) ↦
            rw (run_dpus, run_requests-recorded i (requests i) s t notes more f)
              (run_dpus-recorded requests order t s' more notes' (rw (run_dpus, f) at e))
      ]
