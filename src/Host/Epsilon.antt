-- ===== src/Host/Epsilon.antt =====
-- The epsilon of the PGM-index of each slice in `bulk_load_for_dpu`.
use pimlex_fast.Base.{
  ℕ, zero, suc, ◌*◌, ◌/◌, ◌≤◌, ◌<◌, ◌≡◌, refl, arith, Bool, true, false, ltb, ◌==◌, ==_iff,
  ==-false, ℕ_discrete, ◌∙◌, if◌then◌else◌, lt→ltb, le→ltb, dec_lt,
}
use pimlex_fast.Host.Load.{max_model_size}

-- How the choice ends: with an epsilon, with a fault, or not within the fuel.
pub data Fit : Type 0 where
  fits : (epsilon : ℕ) → Fit
  divides_by_zero : Fit
  unfinished : Fit

-- Of one slice, which has keys: the number of models that the PGM-index makes of it with an epsilon, the test
-- `log2(n) > wram_search_num_w_min_cost + 2` on a number of models, and the order of the costs `3 * log2(n)`.
module _ {C : Type 0} (model_size : ℕ → ℕ) (exceeds : ℕ → Bool) (cost : ℕ → C)
    (lt : C → C → Bool) where
  -- `cur_Epsilon` and `cur_model_size` after the try with the double. The `rebuild` with the old epsilon
  -- leaves `cur_model_size` as it is.
  unfoldable pub try_double : ℕ → ℕ × ℕ
  try_double epsilon =
      if exceeds (model_size epsilon)
      then (if lt (cost (model_size (epsilon * 2))) (cost (model_size epsilon))
          then (epsilon * 2, model_size (epsilon * 2))
          else (epsilon, model_size (epsilon * 2)))
      else (epsilon, model_size epsilon)

  -- `while(cur_model_size > MAX_MODEL_SIZE)` for at most that many tests. A `rebuild` with an epsilon of 0
  -- divides by `epsilon * epsilon`.
  unfoldable pub fit_epsilon : ℕ → ℕ → ℕ → Fit
  fit_epsilon zero epsilon cur_model_size = unfinished
  fit_epsilon (suc n) epsilon cur_model_size =
      let rest = fit_epsilon n (epsilon / 2) (model_size (epsilon / 2)) in
      if ltb max_model_size cur_model_size
      then (if epsilon / 2 == 0 then divides_by_zero else rest)
      else fits epsilon

  unfoldable pub partition_epsilon : ℕ → ℕ → Fit
  unfolding try_double fit_epsilon
  partition_epsilon n init_epsilon =
      fit_epsilon n (try_double init_epsilon).0 (try_double init_epsilon).1

  either_upto : (b : Bool) (e : ℕ) (x y : ℕ × ℕ) → x.0 ≤ e → y.0 ≤ e → (if b then x else y).0 ≤ e
  either_upto true e x y p q = p
  either_upto false e x y p q = q

  try_double_upto : (epsilon : ℕ) → (try_double epsilon).0 ≤ epsilon * 2
  unfolding try_double
  try_double_upto epsilon =
      either_upto (exceeds (model_size epsilon)) (epsilon * 2) _ (epsilon, model_size epsilon)
        (either_upto (lt (cost (model_size (epsilon * 2))) (cost (model_size epsilon)))
          (epsilon * 2) (epsilon * 2, model_size (epsilon * 2)) (epsilon, model_size (epsilon * 2))
          (omega arith) (omega arith))
        (omega arith)

  module _ (finer : (e : ℕ) → 2 ≤ e → model_size e ≤ model_size (e / 2)) where
    fit_epsilon_too_large :
        (n epsilon size : ℕ)
        → epsilon < n
        → max_model_size < size
        → size ≤ model_size epsilon
        → fit_epsilon n epsilon size ≡ divides_by_zero
    unfolding fit_epsilon
    fit_epsilon_too_large zero epsilon size m h k = absurd (omega arith)
    fit_epsilon_too_large (suc n) epsilon size m h k = elim (ℕ_discrete (epsilon / 2) 0) [
      | yes e ↦ rw (lt→ltb max_model_size size h, (==_iff (epsilon / 2) 0).1 e) refl
      | no ne ↦
          rw (lt→ltb max_model_size size h, ==-false (epsilon / 2) 0 ne)
            (fit_epsilon_too_large n (epsilon / 2) (model_size (epsilon / 2)) (omega (arith, ne))
              (omega (arith, finer epsilon (omega (arith, ne)), k)) (omega arith))
    ]

    fit_epsilon_lem :
        (n e : ℕ)
        → e < n
        → fit_epsilon n e (model_size e)
          ≡ (if ltb max_model_size (model_size e) then divides_by_zero else fits e)
    unfolding fit_epsilon
    fit_epsilon_lem zero e m = absurd (omega arith)
    fit_epsilon_lem (suc n) e m = elim (dec_lt max_model_size (model_size e)) [
      | yes h ↦
          fit_epsilon_too_large (suc n) e (model_size e) m h (omega arith)
          ∙ rw (lt→ltb max_model_size (model_size e) h) refl
      | no h ↦ rw (le→ltb max_model_size (model_size e) (omega arith)) refl
    ]

    module _ (by_size : (a b : ℕ) → lt (cost a) (cost b) ≡ ltb a b) where
      either_size :
          (b : Bool) (x y : ℕ × ℕ)
          → x.1 ≡ model_size x.0
          → y.1 ≡ model_size y.0
          → (if b then x else y).1 ≡ model_size (if b then x else y).0
      either_size true x y p q = p
      either_size false x y p q = q

      -- The size that the loop starts from is that of the epsilon that it starts from.
      try_double_size :
          (epsilon : ℕ) → 0 < epsilon → (try_double epsilon).1 ≡ model_size (try_double epsilon).0
      unfolding try_double
      try_double_size epsilon pos =
          let one : epsilon * 2 / 2 ≡ epsilon = omega arith in
          let halved : model_size (epsilon * 2) ≤ model_size epsilon =
            rw one at (finer (epsilon * 2) (omega (arith, pos))) in
          elim (dec_lt (model_size (epsilon * 2)) (model_size epsilon)) [
            | yes h ↦
                rw
                  (
                    by_size (model_size (epsilon * 2)) (model_size epsilon),
                    lt→ltb (model_size (epsilon * 2)) (model_size epsilon) h,
                  )
                  (either_size (exceeds (model_size epsilon))
                    (epsilon * 2, model_size (epsilon * 2)) (epsilon, model_size epsilon) refl refl)
            | no h ↦
                rw
                  (
                    by_size (model_size (epsilon * 2)) (model_size epsilon),
                    le→ltb (model_size (epsilon * 2)) (model_size epsilon) (omega arith),
                  )
                  (either_size (exceeds (model_size epsilon)) (epsilon, model_size (epsilon * 2))
                    (epsilon, model_size epsilon) (omega arith) refl)
          ]

      -- With models that a smaller epsilon makes no fewer, and costs in the order of the numbers of
      -- models: within twice as many tests as the first epsilon and one more, the loop ends with the epsilon
      -- that it starts from when the models of that fit, and else with a division by zero.
      pub partition_epsilon_lem :
          (n init_epsilon : ℕ)
          → 0 < init_epsilon
          → init_epsilon * 2 < n
          → partition_epsilon n init_epsilon ≡ (
              if ltb max_model_size (model_size (try_double init_epsilon).0)
              then divides_by_zero
              else fits (try_double init_epsilon).0)
      unfolding partition_epsilon
      partition_epsilon_lem n init_epsilon some_epsilon many =
          rw (try_double_size init_epsilon some_epsilon) (
            fit_epsilon_lem n (try_double init_epsilon).0
              (omega (arith, try_double_upto init_epsilon, many)))
