-- ===== src/Dpu/Init.antt =====
-- The level that a DPU starts its searches at (op type 0).
use pimlex_fast.Base.{
  ℕ, zero, suc, ◌+◌, ◌-◌, ◌*◌, ◌≤◌, ◌<◌, arith, lt→ltb, dec_lt, le→ltb, ℕ_discrete,
}
use pimlex_fast.Dpu.Defs.{
  DpuArguments, offset_at, fast_log2, access_wram_cost, prediction_cost, start_level_from,
  init_start_level,
}

module _ (a : DpuArguments) where
  -- Going one level down by a model and a bounded scan costs less than a bisection of the level.
  abbrev pub Costly : ℕ → ℕ → Type 0
  Costly level up =
      prediction_cost + access_wram_cost * fast_log2 (2 * a.set_epsilon)
      < access_wram_cost * fast_log2 (offset_at a up - offset_at a level)

  -- `p` is the first of `n` levels from `level` on that is cheap to bisect, if there is one.
  pub record IsStart (level n p : ℕ) : Type 0 where
    pub from : level ≤ p
    pub upto : p ≤ level + n
    pub above : (i : ℕ) → level ≤ i → i < p → Costly i (i + 1)
    pub stop :
        p < level + n
        → access_wram_cost * fast_log2 (offset_at a (p + 1) - offset_at a p)
          ≤ prediction_cost + access_wram_cost * fast_log2 (2 * a.set_epsilon)

  start_level_from-IsStart : (n level : ℕ) → IsStart level n (start_level_from a n level level)
  unfolding start_level_from
  start_level_from-IsStart zero level = record {
    from = omega arith;
    upto = omega arith;
    above = λ i p q. absurd (omega arith);
    stop = λ p. absurd (omega arith);
  }
  start_level_from-IsStart (suc n) level =
      let ih = start_level_from-IsStart n (level + 1) in
      let cheap : ℕ = prediction_cost + access_wram_cost * fast_log2 (2 * a.set_epsilon) in
      let cost : ℕ = access_wram_cost * fast_log2 (offset_at a (level + 1) - offset_at a level) in
      elim (dec_lt cheap cost) [
        | yes h ↦
            rw (start_level_from, lt→ltb cheap cost h)
              (record {
                from = omega (arith, ih.from);
                upto = omega (arith, ih.upto);
                above = λ i p q. elim (ℕ_discrete i level) [
                  | yes e ↦ rw e h
                  | no ne ↦ ih.above i (omega arith) q
                ];
                stop = λ p. ih.stop (omega arith);
              })
        | no h ↦
            rw (start_level_from, le→ltb cheap cost (omega arith))
              (record {
                from = omega arith;
                upto = omega arith;
                above = λ i p q. absurd (omega arith);
                stop = λ p. omega arith;
              })
      ]

  -- The start level is the first level, from the bottom, that costs no more to bisect than to enter
  -- from above, or the number of levels if there is none.
  pub init_start_level-IsStart : IsStart 0 a.max_levels (init_start_level a)
  unfolding init_start_level
  init_start_level-IsStart = start_level_from-IsStart a.max_levels 0
