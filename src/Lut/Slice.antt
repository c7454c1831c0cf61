-- ===== src/Lut/Slice.antt =====
-- The tables that the models of a slice get.
use pimlex_fast.Base.{
  ℕ, zero, suc, ◌+◌, ◌≤◌, ◌<◌, ◌≡◌, refl, ◌∙◌, arith, Bool, ==_iff, ==-false, ℕ_discrete,
}
use pimlex_fast.Lut.Defs.{LutModel, lut_model, lut_tables}

lut_tables_before :
    (predict : ℕ → ℕ → ℕ) (keys intercepts : ℕ → ℕ) (cheaper : ℕ → Bool) (n h i : ℕ)
    (tables : ℕ → LutModel)
    → i < h
    → lut_tables predict keys intercepts cheaper n h tables i ≡ tables i
unfolding lut_tables
lut_tables_before predict keys intercepts cheaper zero h i tables a = refl
lut_tables_before predict keys intercepts cheaper (suc n) h i tables a =
    lut_tables_before predict keys intercepts cheaper n (h + 1) i _ (omega arith)
    ∙ rw (==-false i h (omega arith)) refl

-- Each model of a range gets the table of its own key and the next one.
pub lut_tables_lem :
    (predict : ℕ → ℕ → ℕ) (keys intercepts : ℕ → ℕ) (cheaper : ℕ → Bool) (n h i : ℕ)
    (unset : ℕ → LutModel)
    → h ≤ i
    → i < h + n
    → lut_tables predict keys intercepts cheaper n h unset i
      ≡ lut_model
          (predict i)
          cheaper
          (keys i)
          (intercepts i)
          (keys (i + 1))
          (intercepts (i + 1))
          (unset i)
unfolding lut_tables
lut_tables_lem predict keys intercepts cheaper zero h i unset a b = absurd (omega arith)
lut_tables_lem predict keys intercepts cheaper (suc n) h i unset a b = elim (ℕ_discrete i h) [
  | yes e ↦
      lut_tables_before predict keys intercepts cheaper n (h + 1) i _ (omega (arith, e))
      ∙ rw ((==_iff i h).1 e, e) refl
  | no ne ↦
      lut_tables_lem predict keys intercepts cheaper n (h + 1) i _ (omega (arith, ne)) (omega arith)
      ∙ rw (==-false i h ne) refl
]
