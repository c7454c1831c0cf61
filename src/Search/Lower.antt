-- ===== src/Search/Lower.antt =====
-- What the `do … while` bisections of a tree node return (support/opt_overflow_tree.h).
use pimlex_fast.Base.{ℕ, zero, suc, ◌+◌, ◌-◌, ◌/◌, ◌≤◌, ◌<◌, ◌≡◌, arith, dec_lt, le→ltb, lt→ltb}
use pimlex_fast.Search.{lower_bound_loop, lower_bound, lower_bound_inner}
use pimlex_fast.Search.Bound.{
  IsBound, SortedOn, upper_bound-IsBound, go_left, go_right, SortedOn-sub,
}

abbrev pub StrictOn : (ℕ → ℕ) → ℕ → ℕ → Type 0
StrictOn at l r = (i j : ℕ) → l ≤ i → i < j → j < r → at i < at j

-- `p` splits [l, r) into the keys below `k` and the others.
pub record IsLower (at : ℕ → ℕ) (k l r p : ℕ) : Type 0 where
  pub from : l ≤ p
  pub upto : p ≤ r
  pub below : (i : ℕ) → l ≤ i → i < p → at i < k
  pub above : (i : ℕ) → p ≤ i → i < r → k ≤ at i

pub StrictOn→SortedOn : {at : ℕ → ℕ} {l r : ℕ} → StrictOn at l r → SortedOn at l r
StrictOn→SortedOn s i j p q h = elim (dec_lt i j) [
  | yes lt ↦ omega (arith, s i j p lt h)
  | no ge ↦ let e : i ≡ j = omega arith in rw e (omega arith)
]

module _ (at : ℕ → ℕ) (k : ℕ) where
  StrictOn-sub : {l r l' r' : ℕ} → l ≤ l' → r' ≤ r → StrictOn at l r → StrictOn at l' r'
  StrictOn-sub a b s i j p q t = s i j (omega arith) q (omega arith)

  go_left_lower :
      {l m r p : ℕ}
      → l ≤ m
      → m < r
      → k < at m
      → StrictOn at l r
      → IsLower at k l m p
      → IsLower at k l r p
  go_left_lower {l} {m} {r} {p} lm mr high s b = record {
    from = b.from;
    upto = omega (arith, b.upto);
    below = b.below;
    above = λ i pi ir. elim (dec_lt i m) [
      | yes h ↦ b.above i pi h
      | no h ↦ omega (arith, StrictOn→SortedOn s m i lm (omega arith) ir)
    ];
  }

  go_right_lower :
      {l m r p : ℕ}
      → l ≤ m
      → m < r
      → at m < k
      → StrictOn at l r
      → IsLower at k (m + 1) r p
      → IsLower at k l r p
  go_right_lower {l} {m} {r} {p} lm mr low s b = record {
    from = omega (arith, b.from);
    upto = b.upto;
    below = λ i li ip. elim (dec_lt m i) [
      | yes h ↦ b.below i (omega arith) ip
      | no h ↦ omega (arith, StrictOn→SortedOn s i m li (omega arith) mr)
    ];
    above = b.above;
  }

  hit_lower : {l m r : ℕ} → l ≤ m → m < r → at m ≡ k → StrictOn at l r → IsLower at k l r m
  hit_lower {l} {m} {r} lm mr e s = record {
    from = lm;
    upto = omega arith;
    below = λ i li im. omega (arith, s i m li im mr);
    above = λ i mi ir. omega (arith, StrictOn→SortedOn s m i lm mi ir);
  }

  empty_lower : (l r : ℕ) → l ≡ r → IsLower at k l r l
  empty_lower l r e = record {
    from = omega arith;
    upto = omega arith;
    below = λ i p q. absurd (omega arith);
    above = λ i p q. absurd (omega arith);
  }

  lower_bound_loop-IsLower :
      (fuel l u : ℕ)
      → u - l ≤ fuel
      → l < u
      → StrictOn at l u
      → IsLower at k l u (lower_bound_loop at k fuel l u)
  unfolding lower_bound_loop
  lower_bound_loop-IsLower zero l u enough h s = absurd (omega arith)
  lower_bound_loop-IsLower (suc fuel) l u enough h s =
      let m : ℕ = (u - l) / 2 + l in
      elim (dec_lt k (at m)) [
        | yes high ↦ elim (dec_lt l m) [
          | yes lm ↦
              rw (lower_bound_loop, lt→ltb k (at m) high, lt→ltb l m lm)
                (go_left_lower (omega arith) (omega arith) high s (
                  lower_bound_loop-IsLower fuel l m (omega arith) lm
                    (StrictOn-sub (omega arith) (omega arith) s)))
          | no lm ↦
              rw (lower_bound_loop, lt→ltb k (at m) high, le→ltb l m (omega arith))
                (go_left_lower (omega arith) (omega arith) high s (empty_lower l m (omega arith)))
        ]
        | no high ↦ elim (dec_lt (at m) k) [
          | yes low ↦ elim (dec_lt (m + 1) u) [
            | yes mu ↦
                rw
                  (
                    lower_bound_loop,
                    le→ltb k (at m) (omega arith),
                    lt→ltb (at m) k low,
                    lt→ltb (m + 1) u mu,
                  )
                  (go_right_lower (omega arith) (omega arith) low s (
                    lower_bound_loop-IsLower fuel (m + 1) u (omega arith) mu
                      (StrictOn-sub (omega arith) (omega arith) s)))
            | no mu ↦
                rw
                  (
                    lower_bound_loop,
                    le→ltb k (at m) (omega arith),
                    lt→ltb (at m) k low,
                    le→ltb (m + 1) u (omega arith),
                  )
                  (go_right_lower (omega arith) (omega arith) low s
                    (empty_lower (m + 1) u (omega arith)))
          ]
          | no low ↦
              rw (lower_bound_loop, le→ltb k (at m) (omega arith), le→ltb (at m) k (omega arith))
                (hit_lower (omega arith) (omega arith) (omega arith) s)
        ]
      ]

  -- On a node whose keys ascend strictly, and that has one, `lowerBound` returns the index that
  -- splits the keys into those below `k` and the others; so a key that is present is hit.
  pub lower_bound-IsLower :
      (count : ℕ) → 0 < count → StrictOn at 0 count → IsLower at k 0 count (lower_bound at k count)
  unfolding lower_bound
  lower_bound-IsLower count h = lower_bound_loop-IsLower (suc count) 0 count (omega arith) h

  -- On a node whose keys ascend, and that has one, `lowerBoundInner` returns the index that splits
  -- the keys into those up to `k` and the greater ones.
  pub lower_bound_inner-IsBound :
      (count : ℕ)
      → 0 < count
      → SortedOn at 0 count
      → IsBound at k 0 count (lower_bound_inner at k count)
  unfolding lower_bound_inner
  lower_bound_inner-IsBound count h s =
      let m : ℕ = (count - 0) / 2 + 0 in
      elim (dec_lt k (at m)) [
        | yes high ↦
            rw (lower_bound_inner, lt→ltb k (at m) high)
              (go_left at k (omega arith) (omega arith) high s (
                upper_bound-IsBound at k 0 m (omega arith)
                  (SortedOn-sub at k (omega arith) (omega arith) s)))
        | no low ↦
            rw (lower_bound_inner, le→ltb k (at m) (omega arith))
              (go_right at k (omega arith) (omega arith) (omega arith) s (
                upper_bound-IsBound at k (m + 1) count (omega arith)
                  (SortedOn-sub at k (omega arith) (omega arith) s)))
      ]
