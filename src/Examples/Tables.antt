-- ===== src/Examples/Tables.antt =====
-- A table of a model whose positions go up by one with each eighth key.
use pimlex_fast.Base.{
  ltb, if◌then◌else◌, [], ◌∷◌, ◌*◌, ℕ, ◌+◌, ◌-◌, ◌/◌, ◌≤◌, ◌≡◌, refl, arith, true, false,
}
use pimlex_fast.Lut.Defs.{
  longest_common_prefix, shift_count, LutModel, max_range, lut_model, lut_position, table_pos,
  lut_window, lut_range, range_window, table_key, inner_cheaper,
}
use pimlex_fast.Lut.Table.{lut_position-near}
use pimlex_fast.Lut.Window.{lut_window-locate}
use pimlex_fast.Dpu.Defs.{DpuArguments, locate, invaild_pos}
use pimlex_fast.Dpu.Lookup.{IsLoaded, slot_of}
use pimlex_fast.Search.Bound.{IsBound}

abbrev unset : LutModel
unset = record { use_lut = false; shift_len = 0; pos = λ j. 0 }

abbrev eighth : ℕ → ℕ
eighth x = (x - 4096) / 8

abbrev near_4096 : LutModel
near_4096 = lut_model eighth inner_cheaper 4096 0 4160 8 unset

-- 4096 and 4160 share all but their last seven digits.
prefix_run : longest_common_prefix 4096 4160 ≡ 57
unfolding longest_common_prefix shift_count
prefix_run = refl

used : near_4096.use_lut ≡ true
unfolding lut_model longest_common_prefix shift_count table_pos table_key inner_cheaper
used = refl

eight_keys : near_4096.shift_len ≡ 3
unfolding lut_model longest_common_prefix shift_count table_pos table_key inner_cheaper
eight_keys = refl

lut_position-near_example :
    (lut_position (eighth 4105) 4096 near_4096 4105 ≤ eighth 4105)
    × (eighth 4105 ≤ lut_position (eighth 4105) 4096 near_4096 4105 + max_range near_4096.pos 16)
lut_position-near_example =
    lut_position-near eighth inner_cheaper 4096 0 4160 8 (omega arith) (λ x y p q r. omega arith)
      (λ x p q. omega arith) (λ x p q. omega arith) 4105 (omega arith) (omega arith) unset used
      (rw eight_keys (omega arith))

-- A partition of 16 sampled keys from 4096 on.
abbrev eights : ℕ → ℕ
eights i = 4096 + i * 8

abbrev sixteen : DpuArguments
sixteen = record {
  input_size = 16;
  max_levels = 1;
  level_offset = 0 ∷ 3 ∷ [];
  start_pos = 100;
  set_epsilon = 4;
}

sixteen-IsLoaded : IsLoaded eights 0 sixteen 4105
sixteen-IsLoaded = record {
  some_key = omega arith;
  sorted = λ i j p q r. omega arith;
  fits = omega arith;
}

at_4105-IsBound : IsBound eights 4105 0 16 2
at_4105-IsBound = record {
  from = omega arith;
  upto = omega arith;
  below = λ i p q. omega arith;
  above = λ i p q. omega arith;
}

abbrev window_4105 : ℕ × ℕ
window_4105 = lut_window (λ i. i * 8) sixteen 1 0 (eighth 4105) 4096 near_4096 4105

window_run : window_4105 ≡ (0, 8)
unfolding lut_window lut_range range_window lut_model longest_common_prefix shift_count table_pos
    table_key inner_cheaper
window_run = refl

lut_window-locate_example :
    locate eights 0 sixteen 4105 window_4105.0 window_4105.1
    ≡ (if ltb 2 16 then slot_of sixteen 1 else invaild_pos)
lut_window-locate_example =
    lut_window-locate eighth inner_cheaper 4096 0 4160 8 (omega arith) (λ x y p q r. omega arith)
      (λ x p q. omega arith) (λ x p q. omega arith) 4105 (omega arith) (omega arith) eights 0
      sixteen sixteen-IsLoaded (λ i. i * 8) 1 0 unset 2 used (rw eight_keys (omega arith))
      at_4105-IsBound (omega arith) (omega arith) (omega arith)
