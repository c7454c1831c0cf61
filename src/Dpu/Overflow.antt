-- ===== src/Dpu/Overflow.antt =====
-- What the DPU answers to a query on the sampled keys of the overflow tree (op type 2).
use pimlex_fast.Base.{
  ℕ, zero, suc, ◌+◌, ◌-◌, ◌/◌, ◌≤◌, ◌<◌, ◌≡◌, refl, arith, ltb, leb, if◌then◌else◌, dec_lt, dec_le,
  ◌%◌, ◌^◌, ◌&&◌, le→leb, lt→leb, lt→ltb, le→ltb,
}
use pimlex_fast.Search.Bound.{SortedOn, IsBound, go_left, go_right, SortedOn-sub, IsBound-unique}
use pimlex_fast.Dpu.Defs.{DpuArguments, invaild_pos, overflow_loop, overflow_query, last_index}

module _ (at : ℕ → ℕ) (key : ℕ) where
  loop_stop : (fuel l r : ℕ) → r ≤ l → overflow_loop at key fuel l r ≡ r
  unfolding overflow_loop
  loop_stop zero l r h = refl
  loop_stop (suc fuel) l r h = rw (overflow_loop, le→ltb l r h)

  loop_left :
      (fuel l r : ℕ)
      → l < r
      → key < at (l + (r - 1 - l) / 2)
      → overflow_loop at key (suc fuel) l r ≡ overflow_loop at key fuel l (l + (r - 1 - l) / 2)
  unfolding overflow_loop
  loop_left fuel l r h high = rw (overflow_loop, lt→ltb l r h, lt→ltb _ _ high)

  loop_right :
      (fuel l r : ℕ)
      → l < r
      → at (l + (r - 1 - l) / 2) ≤ key
      → overflow_loop at key (suc fuel) l r ≡ overflow_loop at key fuel (l + (r - 1 - l) / 2 + 1) r
  unfolding overflow_loop
  loop_right fuel l r h low = rw (overflow_loop, lt→ltb l r h, le→ltb _ _ low)

  stopped : (fuel l r : ℕ) → l ≤ r → r ≤ l → IsBound at key l r (overflow_loop at key fuel l r)
  stopped fuel l r lr h = rw (loop_stop fuel l r h) (record {
    from = omega arith;
    upto = omega arith;
    below = λ i p q. absurd (omega arith);
    above = λ i p q. absurd (omega arith);
  })

  -- With fuel for the width of the range, the loop that keeps `r` finds the index that splits the
  -- range at the key.
  overflow_loop-IsBound :
      (fuel l r : ℕ)
      → r - l ≤ fuel
      → l ≤ r
      → SortedOn at l r
      → IsBound at key l r (overflow_loop at key fuel l r)
  overflow_loop-IsBound zero l r enough ordered sorted = stopped 0 l r ordered (omega arith)
  overflow_loop-IsBound (suc fuel) l r enough ordered sorted = elim (dec_lt l r) [
    | no h ↦ stopped (suc fuel) l r ordered (omega arith)
    | yes h ↦
        let m : ℕ = l + (r - 1 - l) / 2 in
        elim (dec_le (at m) key) [
          | yes low ↦ rw (loop_right fuel l r h low) (
              go_right at key (omega arith) (omega arith) low sorted (
                overflow_loop-IsBound fuel (m + 1) r (omega arith) (omega arith)
                  (SortedOn-sub at key (omega arith) (omega arith) sorted)))
          | no high ↦ rw (loop_left fuel l r h (omega arith)) (
              go_left at key (omega arith) (omega arith) (omega arith) sorted (
                overflow_loop-IsBound fuel l m (omega arith) (omega arith)
                  (SortedOn-sub at key (omega arith) (omega arith) sorted)))
        ]
  ]

-- On keys that ascend, and for a DPU that has sampled keys, with `p` keys of the overflow tree up to
-- the query: the answer is a miss for no such key or when the last of them is out of the DPU's
-- sampled keys, and the pointer beside it otherwise.
pub overflow_query_lem :
    (keys pointers : ℕ → ℕ) (overflow_len : ℕ) (a : DpuArguments) (key p : ℕ)
    → 0 < a.input_size
    → a.input_size < 2 ^ 64
    → overflow_len < 2 ^ 31
    → SortedOn keys 0 overflow_len
    → IsBound keys key 0 overflow_len p
    → overflow_query keys pointers overflow_len a key
      ≡ (if ltb 0 p && leb p a.input_size then pointers (p - 1) else invaild_pos)
unfolding overflow_query
overflow_query_lem keys pointers n a key p some_key small short sorted b =
    let e : overflow_loop keys key n 0 n ≡ p =
      IsBound-unique (overflow_loop-IsBound keys key n 0 n (omega arith) (omega arith) sorted) b in
    let after : ℕ = (p + 2 ^ 64 - 1) % 2 ^ 64 in
    elim (dec_lt 0 p) [
      | no h ↦ rw (e, le→ltb 0 p (omega arith), lt→ltb (last_index a) after (omega arith))
      | yes h ↦
          let back : after ≡ p - 1 = omega (arith, b.upto) in
          elim (dec_le p a.input_size) [
            | yes k ↦ rw (
              e,
              lt→ltb 0 p h,
              le→leb p a.input_size k,
              back,
              le→ltb (last_index a) (p - 1) (omega arith),
            )
            | no k ↦ rw (
              e,
              lt→ltb 0 p h,
              lt→leb p a.input_size (omega arith),
              back,
              lt→ltb (last_index a) (p - 1) (omega arith),
            )
          ]
    ]
