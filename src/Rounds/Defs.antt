-- ===== src/Rounds/Defs.antt =====
-- The threads of an insertion run in `main`: their rounds, from IRETRY on, and the merge that one of
-- them does, one access to a shared variable at a time, in any order. A thread that is through with its
-- second round does not move any more. The slotting and the search on the DPUs change nothing shared
-- with the merge but what the thread itself owns.
use pimlex_fast.Base.{ℕ, ◌+◌, ◌-◌, ◌≡◌, ◌≢◌, ◌<◌, Bool, true, false, ℕ_discrete}
use mathlib.Core.Logic.{ite}
use pimlex_fast.Lock.{is_set, masked, acquired, release_lock, test_lock_version_change}
use pimlex_fast.Batch.Defs.{thread_num}

-- The variables that the threads share. `generation` counts the merges: it stands for the index.
pub record Shared : Type 0 where
  pub merge_lock_ : ℕ
  pub merge_shard_lock : Bool
  pub thread_in_write : ℕ
  pub current_write_num : ℕ
  pub total_size : ℕ
  pub generation : ℕ

-- Where a thread stands. `routed` is the generation of the index whose levels its slotting began to
-- read, and whose slices the DPUs then search.
pub data Place : Type 0 where
  retry : Place
  in_shard : Place  -- between `merge_shard_lock.lock()` and `unlock()` at IRETRY
  testing : Place  -- before a `test_lock_set`
  slotting : (version routed : ℕ) → Place  -- before `test_lock_version_change`
  searching : (routed : ℕ) → Place  -- until `current_write_num.fetch_add`
  counted : (fetch_write_num routed : ℕ) → Place  -- before the test of the number
  trying : (old : ℕ) → Place  -- before the compare-exchange of `try_get_lock`
  owning : Place  -- before `merge_shard_lock.lock()`
  draining : Place  -- in `while(thread_in_write.load() != 0)`
  merging : Place  -- in `merge_and_retrain`
  merged : Place  -- before `current_write_num.store(0)`
  stored : Place  -- before `merge_shard_lock.unlock()`
  leaving : Place  -- before the load of `release_lock`
  storing : (v : ℕ) → Place  -- before its store
  entering : (routed : ℕ) → Place  -- before `thread_in_write++`
  writing : (routed : ℕ) → Place  -- in `insert_payload`

abbrev pub moved : (ℕ → Place) → ℕ → Place → ℕ → Place
moved places i p j = ite (ℕ_discrete i j) p (places j)

-- The number of requests of a round, and the test `(double)fetch_write_num > (double)total_size * 0.45`.
module _ (per_round_ops : ℕ) (over : ℕ → ℕ → Bool) where
  -- One access of a thread: where it stands, the shared variables afterwards, and where it stands then.
  pub data Access (g : Shared) : Place → Shared → Place → Type 0 where
    lock_shard :
        g.merge_shard_lock ≡ false → Access g retry (record g { merge_shard_lock = true }) in_shard
    unlock_shard : Access g in_shard (record g { merge_shard_lock = false }) testing
    test_set : is_set g.merge_lock_ ≡ true → Access g testing g testing
    test_free :
        is_set g.merge_lock_ ≡ false → Access g testing g (slotting g.merge_lock_ g.generation)
    overtaken :
        {version routed : ℕ}
        → test_lock_version_change g.merge_lock_ version ≡ true
        → Access g (slotting version routed) g retry
    unchanged :
        {version routed : ℕ}
        → test_lock_version_change g.merge_lock_ version ≡ false
        → Access g (slotting version routed) g (searching routed)
    fetch_add :
        {routed : ℕ}
        → Access g
            (searching routed)
            (record g { current_write_num = g.current_write_num + per_round_ops })
            (counted g.current_write_num routed)
    few :
        {fetch_write_num routed : ℕ}
        → over fetch_write_num g.total_size ≡ false
        → Access g (counted fetch_write_num routed) g (entering routed)
    try_taken :
        {fetch_write_num routed : ℕ}
        → over fetch_write_num g.total_size ≡ true
        → is_set g.merge_lock_ ≡ true
        → Access g (counted fetch_write_num routed) g retry
    try_open :
        {fetch_write_num routed : ℕ}
        → over fetch_write_num g.total_size ≡ true
        → is_set g.merge_lock_ ≡ false
        → Access g (counted fetch_write_num routed) g (trying (masked g.merge_lock_))
    exchanged :
        {old : ℕ}
        → g.merge_lock_ ≡ old
        → Access g (trying old) (record g { merge_lock_ = acquired old }) owning
    beaten : {old : ℕ} → g.merge_lock_ ≢ old → Access g (trying old) g retry
    own_shard :
        g.merge_shard_lock ≡ false → Access g owning (record g { merge_shard_lock = true }) draining
    drain : g.thread_in_write ≢ 0 → Access g draining g draining
    drained : g.thread_in_write ≡ 0 → Access g draining g merging
    merge :
        (size : ℕ)
        → Access g merging (record g { total_size = size; generation = g.generation + 1 }) merged
    store_zero : Access g merged (record g { current_write_num = 0 }) stored
    leave_shard : Access g stored (record g { merge_shard_lock = false }) leaving
    load_lock : Access g leaving g (storing g.merge_lock_)
    store_lock : {v : ℕ} → Access g (storing v) (record g { merge_lock_ = release_lock v }) retry
    enter :
        {routed : ℕ}
        → Access g
            (entering routed)
            (record g { thread_in_write = g.thread_in_write + 1 })
            (writing routed)
    leave :
        {routed : ℕ}
        → Access g (writing routed) (record g { thread_in_write = g.thread_in_write - 1 }) retry

  pub data Reachable (size : ℕ) : Shared → (ℕ → Place) → Type 0 where
    begun :
        Reachable size
          (record {
            merge_lock_ = 0;
            merge_shard_lock = false;
            thread_in_write = 0;
            current_write_num = 0;
            total_size = size;
            generation = 0;
          })
          (λ i. retry)
    turn :
        {g h : Shared} {places : ℕ → Place} {p : Place} (i : ℕ)
        → Reachable size g places
        → i < thread_num
        → Access g (places i) h p
        → Reachable size h (moved places i p)
