-- ===== src/Examples/Skews.antt =====
-- Ratios as fractions of twelfths that may be infinite, and sorts that keep the order.
use mathlib.Core.List.Permᴰ
use pimlex_fast.Base.{
  length, ℕ, zero, suc, ◌*◌, ◌/◌, ◌≡◌, refl, List, [], ◌∷◌, Option, none, some, Bool, true, false,
  ltb,
}
use pimlex_fast.Host.Batches.{nr_dpus}
use pimlex_fast.Skew.{
  Ratios, Entry, total_dpus, calculate_partition_skew, first_less, move_down, move_up, shrink, grow,
  balance, skip_down, skip_up, gains, giver, max_dpu_num_off, exchange, adjust, allocate,
}
use pimlex_fast.Skew.Total.{Positive}
use pimlex_fast.Skew.Adjust.{IsUnbounded, calculate_partition_skew-total}

abbrev scaled_twelfths : Option ℕ → ℕ → ℕ
scaled_twelfths none k = 0
scaled_twelfths (some r) k = r * k / 12

abbrev divided : Option ℕ → ℕ → Option ℕ
divided none n = none
divided (some r) zero = none
divided (some r) (suc n) = some (r / suc n)

abbrev below : Option ℕ → Option ℕ → Bool
below none s = false
below (some r) none = true
below (some r) (some s) = ltb r s

abbrev pub twelfths : Ratios
twelfths = record {
  Ratio = Option ℕ;
  quotient = λ a avg. some (a * 12 / avg);
  scaled = scaled_twelfths;
  share = divided;
  less = below;
}

pub twelfths-IsUnbounded : IsUnbounded twelfths
twelfths-IsUnbounded none y = refl
twelfths-IsUnbounded (some r) y = refl

abbrev pub kept_order : List (Entry twelfths) → List (Entry twelfths)
kept_order xs = xs

-- Two partitions that share the 512 DPUs as 3 and 509, and after the adjustment more evenly.
abbrev accesses : List ℕ
accesses = 47 ∷ 6108 ∷ []

abbrev outcome : Option (List (Entry twelfths)) → List (Entry twelfths)
outcome none = []
outcome (some zs) = zs

abbrev handed_out : List (Entry twelfths)
handed_out = outcome (calculate_partition_skew twelfths kept_order kept_order 1 1536 accesses)

handed_out_run :
    calculate_partition_skew twelfths kept_order kept_order 1 1536 accesses ≡ some handed_out
unfolding calculate_partition_skew balance shrink grow move_down move_up first_less skip_down
    skip_up adjust exchange giver gains max_dpu_num_off allocate total_dpus
handed_out_run = refl

calculate_partition_skew-total_example :
    (total_dpus handed_out ≡ nr_dpus) × Positive handed_out × (length handed_out ≡ length accesses)
calculate_partition_skew-total_example =
    calculate_partition_skew-total twelfths twelfths-IsUnbounded kept_order kept_order Permᴰ.refl
      Permᴰ.refl 1 1536 accesses handed_out handed_out_run
