-- ===== src/Rounds/Overlap.antt =====
-- A run in which a thread inserts while another one merges.
use pimlex_fast.Base.{
  ℕ, ◌+◌, ◌<◌, ◌≡◌, ◌≢◌, refl, sym, subst, ◌∙◌, ==_iff, Bool, true, false, arith,
}
use pimlex_fast.Lock.{is_set, masked, acquired, test_lock_version_change}
use pimlex_fast.Batch.Defs.{thread_num}
use pimlex_fast.Rounds.Defs.{
  Shared, Place, Access, moved, Reachable, begun, turn, retry, counted, writing, trying, merging,
  lock_shard, unlock_shard, test_free, unchanged, fetch_add, few, try_open, exchanged, own_shard,
  drained, enter,
}

module _ (per_round_ops size : ℕ) (over : ℕ → ℕ → Bool) where
  -- A state that thread `i` alone has brought about from the places `before`.
  record Ahead (i : ℕ) (before : ℕ → Place) (g : Shared) (p : Place) : Type 0 where
    places : ℕ → Place
    reached : Reachable per_round_ops over size g places
    here : places i ≡ p
    rest : (j : ℕ) → i ≢ j → places j ≡ before j

  stay :
      {g : Shared} {before : ℕ → Place} {i : ℕ} {p : Place}
      → Reachable per_round_ops over size g before
      → before i ≡ p
      → Ahead i before g p
  stay {before = before} r e = record {
    places = before;
    reached = r;
    here = e;
    rest = λ j ne. refl;
  }

  moved_self : (f : ℕ → Place) (i : ℕ) (p : Place) → moved f i p i ≡ p
  moved_self f i p = ground arith

  moved_other : (f : ℕ → Place) (i j : ℕ) (p : Place) → i ≢ j → moved f i p j ≡ f j
  moved_other f i j p h = ground (arith, h)

  ahead :
      {g h : Shared} {before : ℕ → Place} {i : ℕ} {p q : Place}
      → i < thread_num
      → Ahead i before g p
      → Access per_round_ops over g p h q
      → Ahead i before h q
  ahead {g = g} {h = h} {i = i} {q = q} l a mv = record {
    places = moved a.places i q;
    reached = turn i a.reached l (subst (λ x. Access per_round_ops over g x h q) (sym a.here) mv);
    here = moved_self a.places i q;
    rest = λ j ne. moved_other a.places i j q ne ∙ a.rest j ne;
  }

  -- From IRETRY to the number that `fetch_add` returns.
  to_counted :
      {g : Shared} {before : ℕ → Place} {i : ℕ}
      → i < thread_num
      → Reachable per_round_ops over size g before
      → before i ≡ retry
      → g.merge_shard_lock ≡ false
      → is_set g.merge_lock_ ≡ false
      → Ahead i before
          (record g {
            merge_shard_lock = false;
            current_write_num = g.current_write_num + per_round_ops;
          })
          (counted g.current_write_num g.generation)
  unfolding test_lock_version_change
  to_counted {g = g} l r e open_shard unset =
      ahead l
        (ahead l
          (ahead l (ahead l (ahead l (stay r e) (lock_shard open_shard)) unlock_shard)
            (test_free unset))
          (unchanged (rw ((==_iff g.merge_lock_ g.merge_lock_).1 refl) refl)))
        fetch_add

  -- From there to the merge, with the merge lock free and no thread in `insert_payload`.
  to_merging :
      {g : Shared} {before : ℕ → Place} {j n routed : ℕ}
      → j < thread_num
      → Ahead j before g (counted n routed)
      → over n g.total_size ≡ true
      → g.merge_lock_ ≡ 0
      → g.merge_shard_lock ≡ false
      → g.thread_in_write ≡ 0
      → Ahead j before (record g { merge_lock_ = acquired 0; merge_shard_lock = true }) merging
  to_merging {g = g} {n = n} {routed = routed} l a many unset open_shard none_there =
      let unset_bit : is_set g.merge_lock_ ≡ false = rw unset refl in
      let try : Access per_round_ops over g (counted n routed) g (trying 0) =
        subst (λ x. Access per_round_ops over g (counted n routed) g (trying (masked x))) unset
          (try_open many unset_bit) in
      ahead l (ahead l (ahead l (ahead l a try) (exchanged unset)) (own_shard open_shard))
        (drained none_there)

  -- With a number of inserted keys that asks for a merge after one round and not before, two threads can
  -- be at the same time the one in `insert_payload` and the other in `merge_and_retrain`.
  pub overlap :
      (i j : ℕ)
      → i ≢ j
      → i < thread_num
      → j < thread_num
      → over 0 size ≡ false
      → over per_round_ops size ≡ true
      → (g : Shared) × (places : ℕ → Place) × Reachable per_round_ops over size g places
        × (places i ≡ writing g.generation)
        × (places j ≡ merging)
  overlap i j ne l m low high =
      let high_sum : 0 + per_round_ops ≡ per_round_ops = omega arith in
      let a = ahead l (to_counted l begun refl refl refl) (few low) in
      let b =
        to_merging m (to_counted m a.reached (a.rest j ne) refl refl) (rw high_sum high) refl refl
          refl in
      let c = ahead l (stay b.reached (b.rest i (λ e. ne (sym e)) ∙ a.here)) enter in
      (_, c.places, c.reached, c.here, c.rest j ne ∙ b.here)
