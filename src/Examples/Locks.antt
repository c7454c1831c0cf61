-- ===== src/Examples/Locks.antt =====
-- Two threads on one lock: one takes it, the other finds it taken.
use pimlex_fast.Base.{ℕ, ◌≡◌, refl, arith, ℕ_discrete}
use pimlex_fast.Lock.{acquired}
use pimlex_fast.Lock.Progress.{Steps, hand_over}
use pimlex_fast.Lock.Exclusion.{
  Pc, spin, loaded, holding, get_lock, spin_set, spin_free, cas_win, System, pick, update, Reach,
  init, next, start, mutual_exclusion,
}

abbrev moved : System → ℕ → ℕ → Pc → System
moved s i w p = record { lock_ = w; pc = update s.pc i p }

abbrev taken : System
taken = moved (moved (moved start 0 0 spin) 0 0 (loaded 0)) 0 (acquired 0) holding

abbrev contended : System
contended = moved (moved taken 1 (acquired 0) spin) 1 (acquired 0) spin

contended-Reach : Reach contended
unfolding ℕ_discrete
contended-Reach =
    next
      (next
        (next (next (next init (pick 0 get_lock)) (pick 0 (spin_free refl)))
          (pick 0 (cas_win refl)))
        (pick 1 get_lock))
      (pick 1 (spin_set refl))

mutual_exclusion_example : ◌≡◌ {A = ℕ} 0 0
unfolding ℕ_discrete
mutual_exclusion_example = mutual_exclusion contended-Reach 0 0 refl refl

taken-Reach : Reach taken
unfolding ℕ_discrete
taken-Reach =
    next (next (next init (pick 0 get_lock)) (pick 0 (spin_free refl))) (pick 0 (cas_win refl))

-- Thread 1 takes the lock from thread 0.
hand_over_example : (t : System) × Steps 1 0 taken t × (t.pc 1 ≡ holding)
unfolding ℕ_discrete
hand_over_example = hand_over taken 1 0 taken-Reach refl refl (omega arith)
