-- ===== src/Lut/Table.antt =====
-- What the table of a model answers for the keys of the model.
use native.Mathlib.Nat.{
  add-mul, two-pow-succ, div-div-eq-div-mul, div-mul-le_self, div-le_self, lt-div-mul-add,
  le-div_iff_mul-le,
}
use pimlex_fast.Base.{
  ℕ, zero, suc, ◌+◌, ◌-◌, ◌*◌, ◌/◌, ◌%◌, ◌^◌, ◌≤◌, ◌<◌, ◌≡◌, ◌≢◌, refl, sym, ap, ◌∙◌, arith, Bool,
  true, false, ==_iff, ==-false, dec_le, le→leb, lt→leb, ℕ_discrete,
}
use pimlex_fast.Lut.Prefix.{longest_common_prefix-IsSplit}
use pimlex_fast.Lut.Defs.{
  longest_common_prefix, LutModel, max_range, table_key, table_pos, with_end, lut_model,
  lut_position, lut_range,
}

max_range_lem : (pos : ℕ → ℕ) (n i : ℕ) → i < n → pos (i + 1) - pos i ≤ max_range pos n
max_range_lem pos zero i h = absurd (omega arith)
max_range_lem pos (suc n) i h = elim (ℕ_discrete i n) [
  | yes e ↦ rw e (omega arith)
  | no ne ↦ omega (arith, max_range_lem pos n i (omega (arith, ne)))
]

within_step : (x : ℕ) {y z range : ℕ} → z ≤ y → y - x ≤ range → z ≤ x + range
within_step x h k = omega (arith, h, k)

pow_positive : (k : ℕ) → 0 < 2 ^ k
pow_positive zero = omega arith
pow_positive (suc k) = omega (arith, two-pow-succ k, pow_positive k)

div_mono : (q x y : ℕ) → 0 < q → x ≤ y → x / q ≤ y / q
div_mono q x y pos h = (le-div_iff_mul-le pos).1 (omega (arith, div-mul-le_self x q))

-- Numbers that agree in all but the last `shift_len + 4` digits are fewer than 16 entries apart.
within_table : (k x y : ℕ) → x ≤ y → x / 2 ^ (k + 4) ≡ y / 2 ^ (k + 4) → y / 2 ^ k < x / 2 ^ k + 16
within_table k x y h e =
    let four : k + 4 ≡ suc (suc (suc (suc k))) = omega arith in
    let sixteen : 2 ^ (k + 4) ≡ 2 ^ k * 16 = rw four (
      omega (
        arith,
        two-pow-succ k,
        two-pow-succ (suc k),
        two-pow-succ (suc (suc k)),
        two-pow-succ (suc (suc (suc k))),
      )) in
    let split_x = div-div-eq-div-mul x (2 ^ k) 16 ∙ ap (λ m. x / m) (sym sixteen) in
    let split_y = div-div-eq-div-mul y (2 ^ k) 16 ∙ ap (λ m. y / m) (sym sixteen) in
    let before = div_mono (2 ^ k) x y (pow_positive k) h in
    omega (arith, split_x, split_y, e, before)

module _ (predict : ℕ → ℕ) (cheaper : ℕ → Bool) (key intercept next_key next_intercept : ℕ)
    (fits : next_key < 2 ^ 64)
    (growing : (x y : ℕ) → key ≤ x → x ≤ y → y < next_key → predict x ≤ predict y)
    (from : (x : ℕ) → key ≤ x → x < next_key → intercept ≤ predict x)
    (upto : (x : ℕ) → key ≤ x → x < next_key → predict x ≤ next_intercept) (searching_for : ℕ)
    (low : key ≤ searching_for) (high : searching_for < next_key) where
  abbrev table : ℕ → ℕ → ℕ
  table shift_len =
      with_end predict cheaper key intercept next_key next_intercept
        (table_pos predict cheaper key intercept next_key next_intercept shift_len)

  -- An entry for a key up to the one searched for is no more than its position.
  entry_low :
      (shift_len j : ℕ)
      → j < 16
      → table_key key shift_len j ≤ searching_for
      → table shift_len j ≤ predict searching_for
  unfolding table_pos
  entry_low shift_len j l h =
      rw (==-false j 16 (omega arith)) (elim (dec_le (table_key key shift_len j) key) [
        | yes b ↦ rw (le→leb (table_key key shift_len j) key b) (from searching_for low high)
        | no b ↦
            rw
              (
                lt→leb (table_key key shift_len j) key (omega arith),
                lt→leb next_key (table_key key shift_len j) (omega arith),
              )
              (growing (table_key key shift_len j) searching_for (omega arith) h high)
      ])

  -- An entry for a later key, or the last one, is no less.
  entry_high :
      (shift_len j : ℕ)
      → (j ≢ 16 → searching_for < table_key key shift_len j)
      → predict searching_for ≤ table shift_len j
  unfolding table_pos
  entry_high shift_len j h = elim (ℕ_discrete j 16) [
    | yes e ↦ rw ((==_iff j 16).1 e) (upto searching_for low high)
    | no ne ↦
        let later = h ne in
        rw (==-false j 16 ne, lt→leb (table_key key shift_len j) key (omega arith))
          (elim (dec_le next_key (table_key key shift_len j)) [
            | yes b ↦
                rw (le→leb next_key (table_key key shift_len j) b) (upto searching_for low high)
            | no b ↦
                rw (lt→leb next_key (table_key key shift_len j) (omega arith)) (
                  growing searching_for (table_key key shift_len j) low (omega arith) (omega arith))
          ])
  ]

  -- With the table of the model, before a model that shares at most 60 digits with it.
  position_near :
      (shift_len : ℕ)
      → searching_for / 2 ^ shift_len < key / 2 ^ shift_len + 16
      → (searching_for / 2 ^ shift_len + 1) * 2 ^ shift_len < 2 ^ 64
      → (off : ℕ) → off ≡ (searching_for / 2 ^ shift_len + 2 ^ 64 - key / 2 ^ shift_len) % 2 ^ 64
      → (off < 16)
        × (table shift_len off ≤ predict searching_for)
        × (predict searching_for ≤ table shift_len (off + 1))
  unfolding table_key
  position_near shift_len near whole off e =
      let q : ℕ = 2 ^ shift_len in
      let u : ℕ = searching_for / q in
      let v : ℕ = key / q in
      let pos = pow_positive shift_len in
      let vu : v ≤ u = div_mono q key searching_for pos low in
      let small : u ≤ searching_for = div-le_self searching_for q in
      let at : off ≡ u - v = omega (arith, e, vu, small, near, high, fits) in
      let inside : off < 16 = omega (arith, at, near, vu) in
      let here : v + off ≡ u = omega (arith, at, vu) in
      let next : v + (off + 1) ≡ u + 1 = omega (arith, at, vu) in
      let below : u * q ≤ searching_for = div-mul-le_self searching_for q in
      let above : searching_for < u * q + q = lt-div-mul-add pos in
      let one : (u + 1) * q ≡ u * q + q = add-mul u 1 q ∙ ap (λ x. u * q + x) (omega arith) in
      let lower = entry_low shift_len off inside (rw here (omega (arith, below))) in
      let upper =
        entry_high shift_len (off + 1) (λ ne. rw next (omega (arith, one, above, whole))) in
      (inside, lower, upper)

  -- What the entries at and behind the place of a key say of its position.
  pub record Around (lut : LutModel) : Type 0 where
    pub entry :
        lut_position (predict searching_for) key lut searching_for
        ≡ (lut_range (predict searching_for) key lut searching_for).0
    pub from_entry :
        (lut_range (predict searching_for) key lut searching_for).0 ≤ predict searching_for
    pub to_next :
        predict searching_for ≤ (lut_range (predict searching_for) key lut searching_for).1
    pub near_entry :
        predict searching_for
        ≤ (lut_range (predict searching_for) key lut searching_for).0 + max_range lut.pos 16

  position_of :
      (lut : LutModel) (shift_len : ℕ)
      → lut.use_lut ≡ true
      → lut.shift_len ≡ shift_len
      → lut.pos ≡ table shift_len
      → searching_for / 2 ^ shift_len < key / 2 ^ shift_len + 16
      → (searching_for / 2 ^ lut.shift_len + 1) * 2 ^ lut.shift_len < 2 ^ 64
      → Around lut
  unfolding lut_position lut_range
  position_of lut shift_len used len entries near whole =
      let off : ℕ = (searching_for / 2 ^ shift_len + 2 ^ 64 - key / 2 ^ shift_len) % 2 ^ 64 in
      let p = position_near shift_len near (rw len at whole) off refl in
      let step = max_range_lem (table shift_len) 16 off p.0 in
      record {
        entry = rw (used, len, entries, lt→leb 16 off p.0) refl;
        from_entry = rw (len, entries, lt→leb 16 off p.0) (p.1);
        to_next = rw (len, entries, lt→leb 16 off p.0) (p.2);
        near_entry = rw (len, entries, lt→leb 16 off p.0) (within_step _ p.2 step);
      }

  -- The shared digits keep the key inside the table.
  prefix_near :
      longest_common_prefix key next_key ≤ 60
      → searching_for / 2 ^ (64 - longest_common_prefix key next_key - 4)
        < key / 2 ^ (64 - longest_common_prefix key next_key - 4) + 16
  prefix_near h =
      let prefix_len : ℕ = longest_common_prefix key next_key in
      let split =
        (longest_common_prefix-IsSplit key next_key (omega (arith, low, high, fits)) fits).0.same in
      let digits : 64 - prefix_len - 4 + 4 ≡ 64 - prefix_len = omega (arith, h) in
      let pos = pow_positive (64 - prefix_len) in
      let above = div_mono (2 ^ (64 - prefix_len)) key searching_for pos low in
      let below =
        div_mono (2 ^ (64 - prefix_len)) searching_for next_key pos (omega (arith, high)) in
      let same : key / 2 ^ (64 - prefix_len) ≡ searching_for / 2 ^ (64 - prefix_len) =
        omega (arith, split, above, below) in
      within_table (64 - prefix_len - 4) key searching_for low (rw digits same)

  abbrev lut : LutModel → LutModel
  lut unset = lut_model predict cheaper key intercept next_key next_intercept unset

  pub lut_model-Around :
      (unset : LutModel)
      → (lut unset).use_lut ≡ true
      → (searching_for / 2 ^ (lut unset).shift_len + 1) * 2 ^ (lut unset).shift_len < 2 ^ 64
      → Around (lut unset)
  unfolding lut_model
  lut_model-Around unset used whole = elim (dec_le (longest_common_prefix key next_key) 60) [
    | yes h ↦
        let built = le→leb (longest_common_prefix key next_key) 60 h in
        position_of (lut unset) (64 - longest_common_prefix key next_key - 4) used (rw built refl)
          (rw built refl) (prefix_near h) whole
    | no h ↦
        let off : false ≡ true =
          rw (lt→leb (longest_common_prefix key next_key) 60 (omega arith)) at used in
        absurd (cc)
  ]

  -- For a key from the model's own on and before the next model's, on 64-bit keys, with positions that
  -- grow with the keys from the model's own to the next one's: a table that is used answers the position
  -- of the model, less at most the widest step of the table, when the step behind the key does not wrap.
  pub lut_position-near :
      (unset : LutModel)
      → (lut unset).use_lut ≡ true
      → (searching_for / 2 ^ (lut unset).shift_len + 1) * 2 ^ (lut unset).shift_len < 2 ^ 64
      → (lut_position (predict searching_for) key (lut unset) searching_for ≤ predict searching_for)
        × (predict searching_for
            ≤ lut_position (predict searching_for) key (lut unset) searching_for
              + max_range (lut unset).pos 16)
  lut_position-near unset used whole =
      let a = lut_model-Around unset used whole in rw (a.entry) (a.from_entry, a.near_entry)
