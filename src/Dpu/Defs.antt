-- ===== src/Dpu/Defs.antt =====
-- The kernel's data and its steps. The floating-point products of the models are a parameter. The
-- word of MRAM before the keys, which `l - 1` reads when `l` is 0, is an argument.
use pimlex_fast.Base.{
  ℕ, zero, suc, ◌+◌, ◌-◌, ◌*◌, ◌/◌, ◌%◌, ◌^◌, List, [], ◌∷◌, Option, none, some, true, false, ◌&&◌,
  get_or, ltb, leb, ◌==◌, if◌then◌else◌,
}
use pimlex_fast.Base.Int.{ℤ, pos, ◌+ℤ◌, ltb_ℤ, pos_part}
use pimlex_fast.Search.{upper_bound}

abbrev pub invaild_pos : ℕ
invaild_pos = 1_000_000_000

abbrev pub epsilon_recursive_dpu : ℕ
epsilon_recursive_dpu = 64

-- `dpu_arguments_t`
pub record DpuArguments : Type 0 where
  pub input_size : ℕ
  pub max_levels : ℕ
  pub level_offset : List ℕ
  pub start_pos : ℕ
  pub set_epsilon : ℕ

-- The floating-point type of a slope `f`, with the two conversions that the kernel makes of a key
-- distance `d`: `(long)(f * d + intercept)` and `(int)(f * d)`.
pub record Slopes : Type 1 where
  pub Slope : Type 0
  pub scaled_sum : Slope → ℕ → ℤ → ℤ
  pub scaled : Slope → ℕ → ℤ

-- `pgm_model_t`
pub record PgmModel (S : Type 0) : Type 0 where
  pub key : ℕ
  pub slope : S
  pub intercept : ℤ

abbrev pub offset_at : DpuArguments → ℕ → ℕ
offset_at a i = get_or a.level_offset i 0

-- `start_level` at the start. `fast_log2` is `FastLog2` of an int from 1 up to 2 ^ 24, where the
-- conversion to float is exact: the exponent is the position of the top bit.
unfoldable pub fast_log2_fuel : ℕ → ℕ → ℕ
fast_log2_fuel zero x = 0
fast_log2_fuel (suc fuel) x =
    let rest = suc (fast_log2_fuel fuel (x / 2)) in if leb x 1 then 0 else rest

unfoldable pub fast_log2 : ℕ → ℕ
unfolding fast_log2_fuel
fast_log2 x = fast_log2_fuel x x

abbrev pub access_wram_cost : ℕ
access_wram_cost = 4

abbrev pub prediction_cost : ℕ
prediction_cost = 45

-- The loop of the op type 0: `n` levels from `level` on, up to the first that is cheap to bisect.
unfoldable pub start_level_from : DpuArguments → ℕ → ℕ → ℕ → ℕ
start_level_from a zero level start_level = start_level
start_level_from a (suc n) level start_level =
    let rest = start_level_from a n (level + 1) (start_level + 1) in
    if ltb (prediction_cost + access_wram_cost * fast_log2 (2 * a.set_epsilon))
      (access_wram_cost * fast_log2 (offset_at a (level + 1) - offset_at a level))
    then rest
    else start_level

unfoldable pub init_start_level : DpuArguments → ℕ
unfolding start_level_from
init_start_level a = start_level_from a a.max_levels 0 0

-- `for(; cur + 1 < last && key(cur + 1) <= searching_for; cur++)`, with fuel `last - cur`.
unfoldable pub scan_forward : (ℕ → ℕ) → ℕ → ℕ → ℕ → ℕ → ℕ
scan_forward at last searching_for zero cur = cur
scan_forward at last searching_for (suc fuel) cur =
    let rest = scan_forward at last searching_for fuel (cur + 1) in
    if ltb (cur + 1) last && leb (at (cur + 1)) searching_for then rest else cur

module _ (F : Slopes) (model_array : ℕ → PgmModel (F.Slope)) (a : DpuArguments) where
  abbrev model_key : ℕ → ℕ
  model_key i = (model_array i).key

  -- A key distance is `searching_for - key` on uint64_t.
  abbrev distance : ℕ → ℕ → ℕ
  distance searching_for i = (searching_for + 2 ^ 64 - (model_array i).key) % 2 ^ 64

  -- The bisection of the start level, and the model before what it finds; `none` is the model -1.
  unfoldable pub top_model : ℕ → ℕ → Option ℕ
  top_model start_level searching_for =
      let l =
        upper_bound (λ i. (model_array i).key) searching_for (offset_at a start_level)
          (offset_at a (start_level + 1) - 1) in
      if l == 0 then none else some (l - 1)

  abbrev zero_if_negative : ℤ → ℤ
  zero_if_negative z = if ltb_ℤ z (pos 0) then pos 0 else z

  abbrev capped : ℕ → ℤ → ℤ
  capped cur z =
      if ltb cur (offset_at a a.max_levels) && ltb_ℤ ((model_array (cur + 1)).intercept) z
      then (model_array (cur + 1)).intercept
      else z

  -- `pos - EpsilonRecursive_dpu - 1`, or 0.
  abbrev lowered : ℤ → ℕ
  lowered z =
      if ltb_ℤ (pos (epsilon_recursive_dpu + 1)) z
      then pos_part z - epsilon_recursive_dpu - 1
      else 0

  -- One level down: the predicted position in the level, lowered by the error, then a scan.
  unfoldable pub next_model : ℕ → ℕ → ℕ → ℕ
  unfolding scan_forward
  next_model searching_for cur_level cur =
      let z : ℤ = zero_if_negative (
        F.scaled_sum (model_array cur).slope (distance searching_for cur)
          (model_array cur).intercept) in
      let lo : ℕ = offset_at a cur_level + lowered (capped cur z) in
      scan_forward (λ i. (model_array i).key) (offset_at a a.max_levels) searching_for
        (offset_at a a.max_levels - lo) lo

  -- The levels from `cur_level - 1` down to 0.
  unfoldable pub descend : ℕ → ℕ → ℕ → ℕ
  descend searching_for zero cur = cur
  descend searching_for (suc level) cur =
      descend searching_for level (next_model searching_for level cur)

  abbrev predicted : ℕ → ℕ → ℤ
  predicted searching_for cur =
      F.scaled (model_array cur).slope (distance searching_for cur) +ℤ (model_array cur).intercept

  abbrev capped_prediction : ℕ → ℕ → ℤ
  capped_prediction searching_for cur =
      if ltb (cur + 1) (offset_at a 1 - 1)
        && ltb_ℤ ((model_array (cur + 1)).intercept) (predicted searching_for cur)
      then (model_array (cur + 1)).intercept
      else predicted searching_for cur

  -- The window of sampled keys: `l` and `r`. `r` is computed on size_t, where a negative
  -- prediction wraps.
  unfoldable pub window : ℕ → ℕ → ℕ × ℕ
  window searching_for cur =
      let p : ℤ = capped_prediction searching_for cur in
      let l : ℕ = if ltb_ℤ (pos a.set_epsilon) p then pos_part p - a.set_epsilon else 0 in
      let r : ℤ = p +ℤ pos (a.set_epsilon + 2) in
      (
        l,
        if ltb_ℤ r (pos 0)
            then a.input_size
            else (if leb a.input_size (pos_part r) then a.input_size else pos_part r),
      )

-- `input_size - 1` on uint64_t.
abbrev pub last_index : DpuArguments → ℕ
last_index a = (a.input_size + 2 ^ 64 - 1) % 2 ^ 64

-- The tail of the search, on the keys of the partition: the bisection of the window, and the
-- answer for the host: the position in the full key array of the sampled key below, or INVAILD_POS.
unfoldable pub locate : (ℕ → ℕ) → ℕ → DpuArguments → ℕ → ℕ → ℕ → ℕ
locate mram before a searching_for l r =
    let p = upper_bound mram searching_for l r in
    let slot : ℕ = (p + a.start_pos + 2 ^ 64 - 1) % 2 ^ 32 * 8 % 2 ^ 32 in
    let check : ℕ = if p == 0 then before else mram (p - 1) in
    if ltb (last_index a) p
    then invaild_pos
    else (if leb check searching_for && ltb searching_for (mram p)
        then slot
        else (if p == last_index a then slot else invaild_pos))

-- One query of the op type 1; `none` is a read before the models.
module _ (F : Slopes) (model_array : ℕ → PgmModel (F.Slope)) (a : DpuArguments) where
  -- The query from the model that the start level gives.
  unfoldable pub search_from : (ℕ → ℕ) → ℕ → ℕ → ℕ → ℕ → ℕ
  unfolding descend window locate
  search_from mram before start_level searching_for top =
      let cur = descend F model_array a searching_for start_level top in
      let w = window F model_array a searching_for cur in locate mram before a searching_for w.0 w.1

  unfoldable pub search_query : (ℕ → ℕ) → ℕ → ℕ → ℕ → Option ℕ
  unfolding top_model search_from
  search_query mram before start_level searching_for =
      elim (top_model F model_array a start_level searching_for) [
        | none ↦ none
        | some top ↦ some (search_from mram before start_level searching_for top)
      ]

-- The first query of a tasklet, and how many it answers, in the op type 1: both are even, since
-- answers are written in pairs of 8 bytes.
unfoldable pub first_query : ℕ → ℕ → ℕ → ℕ
first_query nr_tasklets num_task tasklet_id =
    let current = tasklet_id * (num_task / nr_tasklets) in
    if current % 2 == 0 then current else current - 1

unfoldable pub total_ops : ℕ → ℕ → ℕ → ℕ
unfolding first_query
total_ops nr_tasklets num_task tasklet_id =
    let current = tasklet_id * (num_task / nr_tasklets) in
    let ops = if current % 2 == 0 then num_task / nr_tasklets else num_task / nr_tasklets + 1 in
    let all =
      if tasklet_id == nr_tasklets - 1
      then num_task - first_query nr_tasklets num_task tasklet_id
      else ops in
    if all % 2 == 0 then all else all + 1

abbrev pub write : (ℕ → ℕ) → ℕ → ℕ → ℕ → ℕ
write buffer i v j = if j == i then v else buffer j

-- The answers of `n` queries from `current` on, written to the receive buffer.
unfoldable pub answer_from : (ℕ → ℕ) → (ℕ → ℕ) → ℕ → ℕ → (ℕ → ℕ) → ℕ → ℕ
answer_from answer sbuffer zero current rbuffer = rbuffer
answer_from answer sbuffer (suc n) current rbuffer =
    answer_from answer sbuffer n (current + 1) (write rbuffer current (answer (sbuffer current)))

unfoldable pub run_tasklet : (ℕ → ℕ) → (ℕ → ℕ) → ℕ → ℕ → ℕ → (ℕ → ℕ) → ℕ → ℕ
unfolding answer_from
run_tasklet answer sbuffer nr_tasklets num_task tasklet_id rbuffer =
    answer_from answer sbuffer (total_ops nr_tasklets num_task tasklet_id)
      (first_query nr_tasklets num_task tasklet_id) rbuffer

-- The tasklets of a DPU, in the order in which they finish.
unfoldable pub run_tasklets : (ℕ → ℕ) → (ℕ → ℕ) → ℕ → ℕ → List ℕ → (ℕ → ℕ) → ℕ → ℕ
unfolding run_tasklet
run_tasklets answer sbuffer nr_tasklets num_task [] rbuffer = rbuffer
run_tasklets answer sbuffer nr_tasklets num_task (t ∷ ts) rbuffer =
    run_tasklets answer sbuffer nr_tasklets num_task ts
      (run_tasklet answer sbuffer nr_tasklets num_task t rbuffer)

-- The op type 2: `while(l <= r)` with `mid = l + (r - l) / 2`. `r` starts at -1 for no keys and can
-- end there, so the loop runs on `r + 1`.
unfoldable pub overflow_loop : (ℕ → ℕ) → ℕ → ℕ → ℕ → ℕ → ℕ
overflow_loop at searching_for zero l after_r = after_r
overflow_loop at searching_for (suc fuel) l after_r =
    let mid = l + (after_r - 1 - l) / 2 in
    elim (ltb l after_r) [
      | true ↦ elim (ltb searching_for (at mid)) [
        | true ↦ overflow_loop at searching_for fuel l mid
        | false ↦ overflow_loop at searching_for fuel (mid + 1) after_r
      ]
      | false ↦ after_r
    ]

-- The answer to one query: the pointer beside the last key up to it. `r > input_size - 1` compares
-- on uint64_t, where the `r` of no key, -1, is the greatest number.
unfoldable pub overflow_query : (ℕ → ℕ) → (ℕ → ℕ) → ℕ → DpuArguments → ℕ → ℕ
unfolding overflow_loop
overflow_query keys pointers overflow_len a searching_for =
    let r = (overflow_loop keys searching_for overflow_len 0 overflow_len + 2 ^ 64 - 1) % 2 ^ 64 in
    if ltb (last_index a) r then invaild_pos else pointers r
