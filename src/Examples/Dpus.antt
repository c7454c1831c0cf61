-- ===== src/Examples/Dpus.antt =====
-- A DPU with four sampled keys, 0, 2, 4 and 6, the first of them the host's sampled key 8.
use pimlex_fast.Base.{
  ℕ, zero, suc, ◌+◌, ◌*◌, ◌≤◌, ◌<◌, ◌≡◌, ◌≢◌, ◌⊎◌, refl, List, [], ◌∷◌, arith, ltb, leb, ◌&&◌,
  if◌then◌else◌,
}
use pimlex_fast.Search.{upper_bound, upper_bound_loop}
use pimlex_fast.Search.Bound.{IsBound}
use pimlex_fast.Dpu.Defs.{
  DpuArguments, invaild_pos, locate, run_tasklets, run_tasklet, answer_from, first_query, total_ops,
  overflow_query, init_start_level, start_level_from, fast_log2, fast_log2_fuel,
}
use pimlex_fast.Dpu.Lookup.{slot_of, IsLoaded, Covers, locate_exact, locate_sound}
use pimlex_fast.Dpu.Tasklets.{Occurs, here, there, run_tasklets-answer}
use pimlex_fast.Dpu.Overflow.{overflow_query_lem}

abbrev double : ℕ → ℕ
double i = 2 * i

abbrev four : DpuArguments
four = record {
  input_size = 4;
  max_levels = 2;
  level_offset = 0 ∷ 1_000_000 ∷ 1_000_002 ∷ [];
  start_pos = 8;
  set_epsilon = 2;
}

four-IsLoaded : IsLoaded double 0 four 5
four-IsLoaded = record {
  some_key = omega arith;
  sorted = λ i j p q r. omega arith;
  fits = omega arith;
}

five-IsBound : IsBound double 5 0 4 3
five-IsBound = record {
  from = omega arith;
  upto = omega arith;
  below = λ i p q. omega arith;
  above = λ i p q. omega arith;
}

five-Covers : Covers double 0 four 5 1 4 3
five-Covers = record {
  left = omega arith;
  right = omega arith;
  inside = omega arith;
  split = five-IsBound;
}

locate_run : locate double 0 four 5 1 4 ≡ 80
unfolding locate upper_bound upper_bound_loop
locate_run = refl

-- The last sampled key is a miss.
locate_last_run : locate double 0 four 6 1 4 ≡ invaild_pos
unfolding locate upper_bound upper_bound_loop
locate_last_run = refl

locate_exact_example :
    locate double 0 four 5 1 4 ≡ (if ltb 3 4 then slot_of four 2 else invaild_pos)
locate_exact_example = locate_exact double 0 four 5 four-IsLoaded 1 4 3 five-Covers (omega arith)

locate-hit : locate double 0 four 5 1 4 ≢ invaild_pos
locate-hit e = omega (arith, locate_run, e)

bound-pos : 0 < upper_bound double 5 1 4
unfolding upper_bound upper_bound_loop
bound-pos = omega arith

locate_sound_example :
    (i : ℕ) × (locate double 0 four 5 1 4 ≡ slot_of four i)
    × (suc i < 4)
    × ((suc (suc i) ≡ 4) ⊎ ((double i ≤ 5) × (5 < double (suc i))))
locate_sound_example =
    locate_sound double 0 four 5 four-IsLoaded 1 4 (omega arith) (omega arith) locate-hit bound-pos

abbrev finish_order : List ℕ
finish_order = 2 ∷ 0 ∷ 1 ∷ []

finish_order-all : (t : ℕ) → t < 3 → Occurs t finish_order
finish_order-all zero h = there here
finish_order-all (suc zero) h = there (there here)
finish_order-all (suc (suc zero)) h = here
finish_order-all (suc (suc (suc t))) h = absurd (omega arith)

run_tasklets_run : run_tasklets (λ k. k + 1) double 3 7 finish_order (λ j. 0) 5 ≡ 11
unfolding run_tasklets run_tasklet answer_from first_query total_ops
run_tasklets_run = refl

run_tasklets-answer_example :
    run_tasklets (λ k. k + 1) double 3 7 finish_order (λ j. 0) 5 ≡ double 5 + 1
run_tasklets-answer_example =
    run_tasklets-answer (λ k. k + 1) double 3 7 (omega arith) finish_order finish_order-all (λ j. 0)
      5 (omega arith)

overflow_query_lem_example :
    overflow_query double (λ r. 100 + r) 4 four 5
    ≡ (if ltb 0 3 && leb 3 4 then 102 else invaild_pos)
overflow_query_lem_example =
    overflow_query_lem double (λ r. 100 + r) 4 four 5 3 (omega arith) (omega arith) (omega arith)
      (λ i j p q r. omega arith) five-IsBound

-- A million models are entered from above, and two are bisected.
init_start_level_run : init_start_level four ≡ 1
unfolding init_start_level start_level_from fast_log2 fast_log2_fuel
init_start_level_run = refl
