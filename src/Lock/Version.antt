-- ===== src/Lock/Version.antt =====
-- What one acquire and one release do to the word of `ol_lock`.
use pimlex_fast.Base.{ℕ, suc, ◌+◌, ◌-◌, ◌^◌, ◌<◌, ◌≡◌, ◌↔◌, true, false, arith, zero}
use pimlex_fast.Lock.{
  lock_set, is_set, masked, acquired, try_get_lock, release_lock, test_lock_set,
  test_lock_version_change,
}

-- `n` times: the lock is taken when it is free, and released.
abbrev pub cycles : ℕ → ℕ → ℕ
cycles zero v = v
cycles (suc n) v = release_lock (acquired (cycles n v))

-- On a free word that is not the last version, taking the lock sets the bit and keeps the
-- version, and the release clears the bit and adds one to the version.
pub release_lock-acquired :
    (v : ℕ)
    → v < 2 ^ 31 - 1
    → (is_set (acquired v) ≡ true)
      × (masked (acquired v) ≡ v)
      × (is_set (release_lock (acquired v)) ≡ false)
      × (release_lock (acquired v) ≡ v + 1)
unfolding release_lock
release_lock-acquired v h = (ground arith, omega arith, ground arith, omega arith)

-- After the last version, 2 ^ 31 - 1, the release leaves the lock bit set and the version 0: no
-- thread holds the lock, and every later `try_get_lock` on the word fails.
release_lock_stuck :
    (v : ℕ)
    → v ≡ 2 ^ 31 - 1
    → (is_set (release_lock (acquired v)) ≡ true)
      × (try_get_lock (release_lock (acquired v)) ≡ (false, release_lock (acquired v)))
unfolding release_lock try_get_lock
release_lock_stuck v e = (ground arith, ground arith)

-- `try_get_lock` succeeds exactly on a free word, and then stores the word with the bit set; it
-- leaves the word alone when it fails.
pub try_get_lock_lem :
    (v : ℕ)
    → v < 2 ^ 32
    → (((try_get_lock v).0 ≡ true) ↔ (is_set v ≡ false))
      × ((try_get_lock v).0 ≡ true → (try_get_lock v).1 ≡ v + lock_set)
      × ((try_get_lock v).0 ≡ false → (try_get_lock v).1 ≡ v)
unfolding try_get_lock
try_get_lock_lem v h =
    ((λ e. ground arith, λ e. ground arith), λ e. ground arith, λ e. ground arith)

cycles-eq : (n v : ℕ) → v + n < 2 ^ 31 → cycles n v ≡ v + n
unfolding release_lock
cycles-eq zero v h = omega arith
cycles-eq (suc n) v h = omega (arith, cycles-eq n v (omega arith))

-- A reader that noted the version of a free word sees a change after any number of critical
-- sections from one on, as long as the version does not pass 2 ^ 31 - 1; with none, it sees none.
pub test_lock_version_change-cycles :
    (n v : ℕ)
    → v + n < 2 ^ 31
    → ((test_lock_version_change (cycles n v) (test_lock_set v).1 ≡ false) ↔ (n ≡ 0))
unfolding test_lock_version_change test_lock_set
test_lock_version_change-cycles n v h =
    let e : cycles n v ≡ v + n = cycles-eq n v h in (λ p. ground arith, λ p. ground arith)
