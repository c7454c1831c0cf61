-- ===== src/Lut/Window.antt =====
-- The window that the DPU takes from the table of a model of the bottom level.
use pimlex_fast.Base.{
  ℕ, ◌+◌, ◌-◌, ◌*◌, ◌/◌, ◌^◌, ◌≤◌, ◌<◌, ◌≡◌, arith, Bool, true, ltb, if◌then◌else◌, dec_lt, lt→ltb,
  le→ltb,
}
use pimlex_fast.Search.Bound.{IsBound}
use pimlex_fast.Dpu.Defs.{DpuArguments, invaild_pos, locate}
use pimlex_fast.Dpu.Lookup.{slot_of, IsLoaded, locate_exact}
use pimlex_fast.Lut.Table.{lut_model-Around}
use pimlex_fast.Lut.Defs.{LutModel, lut_model, lut_range, range_window, lut_window}

range_window_low :
    (set_epsilon input_size p q i : ℕ)
    → p ≤ i + set_epsilon
    → (range_window set_epsilon input_size (p, q)).0 ≤ i
unfolding range_window
range_window_low set_epsilon input_size p q i h = elim (dec_lt set_epsilon p) [
  | yes b ↦ rw (lt→ltb set_epsilon p b) (omega (arith, h))
  | no b ↦ rw (le→ltb set_epsilon p (omega arith)) (omega arith)
]

range_window_high :
    (set_epsilon input_size p q i : ℕ)
    → i ≤ input_size
    → i ≤ q + set_epsilon + 2
    → (i ≤ (range_window set_epsilon input_size (p, q)).1)
      × ((range_window set_epsilon input_size (p, q)).1 ≤ input_size)
unfolding range_window
range_window_high set_epsilon input_size p q i h k =
    elim (dec_lt input_size (q + set_epsilon + 2)) [
      | yes b ↦ rw (lt→ltb input_size (q + set_epsilon + 2) b) (h, omega arith)
      | no b ↦ rw (le→ltb input_size (q + set_epsilon + 2) (omega arith)) (k, omega arith)
    ]

module _ (predict : ℕ → ℕ) (cheaper : ℕ → Bool) (key intercept next_key next_intercept : ℕ)
    (fits : next_key < 2 ^ 64)
    (growing : (x y : ℕ) → key ≤ x → x ≤ y → y < next_key → predict x ≤ predict y)
    (from : (x : ℕ) → key ≤ x → x < next_key → intercept ≤ predict x)
    (upto : (x : ℕ) → key ≤ x → x < next_key → predict x ≤ next_intercept) (searching_for : ℕ)
    (low : key ≤ searching_for) (high : searching_for < next_key) (mram : ℕ → ℕ) (before : ℕ)
    (a : DpuArguments) (loaded : IsLoaded mram before a searching_for) (intercepts : ℕ → ℕ)
    (l cur_offset : ℕ) where
  abbrev lut : LutModel → LutModel
  lut unset = lut_model predict cheaper key intercept next_key next_intercept unset

  abbrev w : LutModel → ℕ × ℕ
  w unset =
      lut_window intercepts a l cur_offset (predict searching_for) key (lut unset) searching_for

  -- On a loaded partition, when the epsilon of the model holds for the key, with a table built for the model
  -- and used, when the step behind the key does not wrap: the search in the window of the table answers the
  -- position of the last sampled key up to the query, or a miss if that is the last of the partition.
  pub lut_window-locate :
      (unset : LutModel) (p : ℕ)
      → (lut unset).use_lut ≡ true
      → (searching_for / 2 ^ (lut unset).shift_len + 1) * 2 ^ (lut unset).shift_len < 2 ^ 64
      → IsBound mram searching_for 0 a.input_size p
      → 0 < p
      → predict searching_for ≤ p + a.set_epsilon
      → p ≤ predict searching_for + a.set_epsilon + 2
      → locate mram before a searching_for (w unset).0 (w unset).1
        ≡ (if ltb p a.input_size then slot_of a (p - 1) else invaild_pos)
  unfolding lut_window
  lut_window-locate unset p used whole split some_below left right =
      let r =
        lut_model-Around predict cheaper key intercept next_key next_intercept fits growing from
          upto searching_for low high unset used whole in
      let q : ℕ × ℕ = lut_range (predict searching_for) key (lut unset) searching_for in
      let ends =
        range_window_high a.set_epsilon a.input_size q.0 q.1 p (split.upto)
          (omega (arith, r.to_next, right)) in
      rw used (
        locate_exact mram before a searching_for loaded _ _ p
          (record {
            left =
                range_window_low a.set_epsilon a.input_size q.0 q.1 p
                  (omega (arith, r.from_entry, left));
            right = ends.0;
            inside = ends.1;
            split = split;
          })
          some_below)
