-- ===== src/Examples/Threads.antt =====
-- Runs of the insertion threads.
use pimlex_fast.Base.{ℕ, ◌+◌, ◌<◌, ◌^◌, ◌≡◌, refl, ltb, Bool, true, false, arith}
use pimlex_fast.Lock.{test_lock_version_change}
use pimlex_fast.Rounds.Defs.{
  Shared, Place, Reachable, begun, turn, lock_shard, unlock_shard, test_free, unchanged, fetch_add,
  try_open, exchanged, own_shard, drained, merging, writing,
}
use pimlex_fast.Rounds.Exclusion.{owns, merge_exclusion, unchanged-current}
use pimlex_fast.Rounds.Writers.{writes, writers, thread_in_write_lem, drained-writes}
use pimlex_fast.Rounds.Overlap.{overlap}

-- More keys than the index holds ask for a merge.
abbrev over : ℕ → ℕ → Bool
over n size = ltb size n

abbrev at_check : (g : Shared) × (places : ℕ → Place) × Reachable 10 over 5 g places
unfolding pimlex_fast.Base.ℕ_discrete
at_check =
    let a = turn 3 begun (omega arith) (lock_shard refl) in
    let b = turn 3 a (omega arith) unlock_shard in (_, _, turn 3 b (omega arith) (test_free refl))

unchanged-current_example : (0 ≡ at_check.0.generation) × ((j : ℕ) → owns (at_check.1 j) ≡ false)
unfolding pimlex_fast.Base.ℕ_discrete test_lock_version_change
unchanged-current_example = unchanged-current at_check.2 (omega arith) 3 0 0 refl refl

-- Thread 3 has counted its round; thread 4 finds more than 5 keys, and waits for the writers.
abbrev waiting : (g : Shared) × (places : ℕ → Place) × Reachable 10 over 5 g places
unfolding pimlex_fast.Base.ℕ_discrete test_lock_version_change
waiting =
    let a = turn 3 at_check.2 (omega arith) (unchanged refl) in
    let b = turn 3 a (omega arith) fetch_add in
    let c = turn 4 b (omega arith) (lock_shard refl) in
    let d = turn 4 c (omega arith) unlock_shard in
    let e = turn 4 d (omega arith) (test_free refl) in
    let f = turn 4 e (omega arith) (unchanged refl) in
    let g = turn 4 f (omega arith) fetch_add in
    let h = turn 4 g (omega arith) (try_open refl refl) in
    let i = turn 4 h (omega arith) (exchanged refl) in
    (_, _, turn 4 i (omega arith) (own_shard refl))

merge_exclusion_example : owns (waiting.1 3) ≡ false
unfolding pimlex_fast.Base.ℕ_discrete test_lock_version_change
merge_exclusion_example = merge_exclusion waiting.2 (omega arith) 4 3 (omega arith) refl

drained-writes_example : writes (waiting.1 3) ≡ false
unfolding pimlex_fast.Base.ℕ_discrete test_lock_version_change
drained-writes_example = drained-writes waiting.2 4 (drained refl) 3 (omega arith)

thread_in_write_lem_example : waiting.0.thread_in_write ≡ writers 32 waiting.1
thread_in_write_lem_example = thread_in_write_lem waiting.2

overlap_example :
    (g : Shared) × (places : ℕ → Place) × Reachable 10 over 5 g places
    × (places 2 ≡ writing g.generation)
    × (places 1 ≡ merging)
overlap_example = overlap 10 5 over 2 1 (omega arith) (omega arith) (omega arith) refl refl
