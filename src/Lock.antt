-- ===== src/Lock.antt =====
-- The versioned spin lock of support/concurrent.h (`ol_lock`); `buf_page` of host/dram_index.h
-- repeats its functions. The word is a uint32_t: bit 31 is the lock, the low 31 bits count releases.
-- `& lockSet`, `& lockMask` and `| lockSet` are written as the arithmetic that they are on a word.
pub mod Version
pub mod Exclusion
pub mod Progress
use pimlex_fast.Base.{ℕ, ◌+◌, ◌-◌, ◌%◌, ◌^◌, ◌/◌, Bool, true, false, not, ◌==◌, if◌then◌else◌}

abbrev pub lock_set : ℕ
lock_set = 2 ^ 31

abbrev pub word : ℕ
word = 2 ^ 32

-- `(v & lockSet) != 0`
abbrev pub is_set : ℕ → Bool
is_set v = v / 2 ^ 31 % 2 == 1

-- `v & lockMask`
abbrev pub masked : ℕ → ℕ
masked v = v % 2 ^ 31

-- The word that a successful `get_lock` stores when it has read `v`: the masked value with the bit.
abbrev pub acquired : ℕ → ℕ
acquired v = masked v + lock_set

-- `try_get_lock` with no other thread between its load and its compare-exchange: the result, and
-- the word afterwards.
unfoldable pub try_get_lock : ℕ → Bool × ℕ
try_get_lock v =
    if is_set v then (false, v) else (if v == masked v then (true, acquired v) else (false, v))

-- `release_lock`: `v + 1 - lockSet` on uint32_t.
unfoldable pub release_lock : ℕ → ℕ
release_lock v = (v + 1 + word - lock_set) % word

-- `test_lock_set`: the test, and the version that it leaves in its argument.
unfoldable pub test_lock_set : ℕ → Bool × ℕ
test_lock_set v = (is_set v, v)

unfoldable pub test_lock_version_change : ℕ → ℕ → Bool
test_lock_version_change v old_version = not (old_version == v)
