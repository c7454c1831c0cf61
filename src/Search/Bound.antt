-- ===== src/Search/Bound.antt =====
-- What the `while(l < r)` bisection leaves in `l`.
use pimlex_fast.Base.{
  ℕ, zero, suc, ◌+◌, ◌-◌, ◌/◌, ◌≤◌, ◌<◌, ◌≡◌, refl, ltb, leb, if◌then◌else◌, arith, dec_lt, dec_le,
  le→ltb, lt→ltb, le→leb, lt→leb, ◌∙◌,
}
use pimlex_fast.Search.{upper_bound_loop, upper_bound}

abbrev pub SortedOn : (ℕ → ℕ) → ℕ → ℕ → Type 0
SortedOn at l r = (i j : ℕ) → l ≤ i → i ≤ j → j < r → at i ≤ at j

-- `p` splits [l, r) into the keys up to `key` and the greater ones.
pub record IsBound (at : ℕ → ℕ) (key l r p : ℕ) : Type 0 where
  pub from : l ≤ p
  pub upto : p ≤ r
  pub below : (i : ℕ) → l ≤ i → i < p → at i ≤ key
  pub above : (i : ℕ) → p ≤ i → i < r → key < at i

module _ (at : ℕ → ℕ) (key : ℕ) where
  -- The two ways a round goes on, and the way the loop ends.
  pub go_right :
      {l m r p : ℕ}
      → l ≤ m
      → m < r
      → at m ≤ key
      → SortedOn at l r
      → IsBound at key (m + 1) r p
      → IsBound at key l r p
  go_right {l} {m} {r} {p} lm mr low sorted b = record {
    from = omega (arith, b.from);
    upto = b.upto;
    below = λ i li ip. elim (dec_lt m i) [
      | yes h ↦ b.below i (omega arith) ip
      | no h ↦ omega (arith, sorted i m li (omega arith) mr)
    ];
    above = b.above;
  }

  pub go_left :
      {l m r p : ℕ}
      → m < r
      → l ≤ m
      → key < at m
      → SortedOn at l r
      → IsBound at key l m p
      → IsBound at key l r p
  go_left {l} {m} {r} {p} mr lm high sorted b = record {
    from = b.from;
    upto = omega (arith, b.upto);
    below = b.below;
    above = λ i pi ir. elim (dec_lt i m) [
      | yes h ↦ b.above i pi h
      | no h ↦ omega (arith, sorted m i lm (omega arith) ir)
    ];
  }

  pub SortedOn-sub : {l r l' r' : ℕ} → l ≤ l' → r' ≤ r → SortedOn at l r → SortedOn at l' r'
  SortedOn-sub a b s i j p q t = s i j (omega arith) q (omega arith)

  -- One round, with the loop's own recursion shut.
  stop : (fuel l r : ℕ) → r ≤ l → upper_bound_loop at key fuel l r ≡ l
  unfolding upper_bound_loop
  stop zero l r h = refl
  stop (suc fuel) l r h = rw (upper_bound_loop, le→ltb l r h)

  right :
      (fuel l r : ℕ)
      → l < r
      → at (l + (r - l) / 2) ≤ key
      → upper_bound_loop at key (suc fuel) l r
        ≡ upper_bound_loop at key fuel (l + (r - l) / 2 + 1) r
  unfolding upper_bound_loop
  right fuel l r h low = rw (upper_bound_loop, lt→ltb l r h, le→leb _ _ low)

  left :
      (fuel l r : ℕ)
      → l < r
      → key < at (l + (r - l) / 2)
      → upper_bound_loop at key (suc fuel) l r ≡ upper_bound_loop at key fuel l (l + (r - l) / 2)
  unfolding upper_bound_loop
  left fuel l r h high = rw (upper_bound_loop, lt→ltb l r h, lt→leb _ _ high)

  empty : (l r : ℕ) → r ≤ l → l ≤ r → IsBound at key l r l
  empty l r h k = record {
    from = omega arith;
    upto = k;
    below = λ i p q. absurd (omega arith);
    above = λ i p q. absurd (omega arith);
  }

  upper_bound_loop-IsBound :
      (fuel l r : ℕ)
      → r - l ≤ fuel
      → l ≤ r
      → SortedOn at l r
      → IsBound at key l r (upper_bound_loop at key fuel l r)
  upper_bound_loop-IsBound zero l r enough ordered sorted =
      rw (stop zero l r (omega arith)) (empty l r (omega arith) ordered)
  upper_bound_loop-IsBound (suc fuel) l r enough ordered sorted = elim (dec_lt l r) [
    | no h ↦ rw (stop (suc fuel) l r (omega arith)) (empty l r (omega arith) ordered)
    | yes h ↦
        let m : ℕ = l + (r - l) / 2 in
        elim (dec_le (at m) key) [
          | yes low ↦ rw (right fuel l r h low) (
              go_right (omega arith) (omega arith) low sorted (
                upper_bound_loop-IsBound fuel (m + 1) r (omega arith) (omega arith)
                  (SortedOn-sub (omega arith) (omega arith) sorted)))
          | no high ↦ rw (left fuel l r h (omega arith)) (
              go_left (omega arith) (omega arith) (omega arith) sorted (
                upper_bound_loop-IsBound fuel l m (omega arith) (omega arith)
                  (SortedOn-sub (omega arith) (omega arith) sorted)))
        ]
  ]

  -- On sorted keys the loop stops at the one index that splits the range at the key: every key
  -- before it in the range is at most the key, and every key from it on is greater.
  pub upper_bound-IsBound :
      (l r : ℕ) → l ≤ r → SortedOn at l r → IsBound at key l r (upper_bound at key l r)
  unfolding upper_bound
  upper_bound-IsBound l r = upper_bound_loop-IsBound (r - l) l r (omega arith)

  -- Any fuel that covers the width gives the same result.
  loop_fuel :
      (f g l r : ℕ)
      → r - l ≤ f
      → r - l ≤ g
      → upper_bound_loop at key f l r ≡ upper_bound_loop at key g l r
  loop_fuel zero g l r a b = rw (stop zero l r (omega arith), stop g l r (omega arith))
  loop_fuel (suc f) zero l r a b = rw (stop (suc f) l r (omega arith), stop zero l r (omega arith))
  loop_fuel (suc f) (suc g) l r a b = elim (dec_lt l r) [
    | no h ↦ rw (stop (suc f) l r (omega arith), stop (suc g) l r (omega arith))
    | yes h ↦ elim (dec_le (at (l + (r - l) / 2)) key) [
      | yes low ↦
          rw (right f l r h low, right g l r h low)
            (loop_fuel f g (l + (r - l) / 2 + 1) r (omega arith) (omega arith))
      | no high ↦
          rw (left f l r h (omega arith), left g l r h (omega arith))
            (loop_fuel f g l (l + (r - l) / 2) (omega arith) (omega arith))
    ]
  ]

  -- The loop ends for every range: the result obeys the loop's own equation, with no fuel in it.
  pub upper_bound_lem :
      (l r : ℕ)
      → upper_bound at key l r ≡ (
          if ltb l r
          then (if leb (at (l + (r - l) / 2)) key
              then upper_bound at key (l + (r - l) / 2 + 1) r
              else upper_bound at key l (l + (r - l) / 2))
          else l)
  unfolding upper_bound
  upper_bound_lem l r = elim (dec_lt l r) [
    | no h ↦ rw (stop (r - l) l r (omega arith), le→ltb l r (omega arith))
    | yes h ↦
        let more : upper_bound_loop at key (r - l) l r ≡ upper_bound_loop at key (suc (r - l)) l r =
          loop_fuel (r - l) (suc (r - l)) l r (omega arith) (omega arith) in
        elim (dec_le (at (l + (r - l) / 2)) key) [
          | yes low ↦
              rw (lt→ltb l r h, le→leb _ _ low)
                (more
                  ∙ right (r - l) l r h low
                  ∙ loop_fuel (r - l) (r - (l + (r - l) / 2 + 1)) (l + (r - l) / 2 + 1) r
                      (omega arith) (omega arith))
          | no high ↦
              rw (lt→ltb l r h, lt→leb (at (l + (r - l) / 2)) key (omega arith))
                (more
                  ∙ left (r - l) l r h (omega arith)
                  ∙ loop_fuel (r - l) (l + (r - l) / 2 - l) l (l + (r - l) / 2) (omega arith)
                      (omega arith))
        ]
  ]

-- The loop reads only cells of its range: two arrays that agree there give the same result.
module _ (at other : ℕ → ℕ) (key : ℕ) where
  loop_reads :
      (f l r : ℕ)
      → ((i : ℕ) → l ≤ i → i < r → at i ≡ other i)
      → upper_bound_loop at key f l r ≡ upper_bound_loop other key f l r
  unfolding upper_bound_loop
  loop_reads zero l r same = refl
  loop_reads (suc f) l r same = elim (dec_lt l r) [
    | no h ↦ rw (stop at key (suc f) l r (omega arith), stop other key (suc f) l r (omega arith))
    | yes h ↦
        let m : ℕ = l + (r - l) / 2 in
        let e : at m ≡ other m = same m (omega arith) (omega arith) in
        elim (dec_le (at m) key) [
          | yes low ↦
              rw (right at key f l r h low, right other key f l r h (omega arith))
                (loop_reads f (m + 1) r (λ i p q. same i (omega arith) q))
          | no high ↦
              rw (left at key f l r h (omega arith), left other key f l r h (omega arith))
                (loop_reads f l m (λ i p q. same i p (omega arith)))
        ]
  ]

  -- The bisection reads only cells of its range, whatever they hold: two arrays that agree on
  -- [l, r) give the same result.
  pub upper_bound_reads :
      (l r : ℕ)
      → ((i : ℕ) → l ≤ i → i < r → at i ≡ other i)
      → upper_bound at key l r ≡ upper_bound other key l r
  unfolding upper_bound
  upper_bound_reads l r same = loop_reads (r - l) l r same

-- There is only one such index.
pub IsBound-unique :
    {at : ℕ → ℕ} {key l r p q : ℕ} → IsBound at key l r p → IsBound at key l r q → p ≡ q
IsBound-unique {p} {q} a b =
    ground (arith, a.from, b.from, a.upto, b.upto, a.below q, b.below p, a.above p, b.above q)
