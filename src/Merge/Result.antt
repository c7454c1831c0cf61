-- ===== src/Merge/Result.antt =====
-- The index that `merge_and_retrain` leaves.
use pimlex_fast.Base.{
  ◌^◌, ℕ, zero, suc, ◌+◌, ◌/◌, ◌≤◌, ◌<◌, ◌≡◌, refl, sym, ap, ◌∙◌, arith, List, [], ◌∷◌, some,
  length, get_or, get_elem?, get_elem?-eq-get_or, lt→ltb, le→ltb,
}
use pimlex_fast.Payload.{StringPayload}
use pimlex_fast.Page.{Entry, BufPage, init}
use pimlex_fast.Tree.Defs.{clear}
use pimlex_fast.Tree.Collect.{get_all_data_empty}
use pimlex_fast.Dpu.Tasklets.{Occurs}
use pimlex_fast.Routing.Defs.{ReplicasInfo, nr_partition, get_start_dpu_id}
use pimlex_fast.Host.Index.{Index}
use pimlex_fast.Host.Bound.{IsLoaded}
use pimlex_fast.Host.Load.{load_hot_replica}
use pimlex_fast.Host.Fresh.{length-low_bounds, low_bounds_lem}
use pimlex_fast.Merge.Defs.{merge_thread_num, num_buf_pages, old_entry, new_total_size}
use pimlex_fast.Merge.Spec.{old_list, page_list, merge, Chain}
use pimlex_fast.Merge.Ranges.{new_total_size_lem}
use pimlex_fast.Merge.Chains.{IsMergeable, large, edge, top}
use pimlex_fast.Merge.Parts.{merged-Chain}
use pimlex_fast.Merge.Threads.{length-whole, merge_threads-merge}
use pimlex_fast.Merge.Install.{
  sample_threads, set_dindex, clear_trees, collect_overflow_keys, reinsert, install,
  merge_and_retrain,
}
use pimlex_fast.Merge.Sample.{sample_threads-sampled}

Chain-from-first :
    (lo hi : ℕ) (xs : List Entry) (j : ℕ) (e : Entry)
    → Chain lo hi xs
    → j < length xs
    → lo ≤ (get_or xs j e).buf_key
Chain-from-first lo hi [] j e c h = absurd (omega arith)
Chain-from-first lo hi (x ∷ xs) zero e c h = c.0
Chain-from-first lo hi (x ∷ xs) (suc j) e c h =
    omega (arith, c.0, Chain-from-first (suc x.buf_key) hi xs j e c.1 (omega arith))

Chain-ascends :
    (lo hi : ℕ) (xs : List Entry) (i j : ℕ) (e : Entry)
    → Chain lo hi xs
    → i < j
    → j < length xs
    → (get_or xs i e).buf_key < (get_or xs j e).buf_key
Chain-ascends lo hi [] i j e c h k = absurd (omega arith)
Chain-ascends lo hi (x ∷ xs) i zero e c h k = absurd (omega arith)
Chain-ascends lo hi (x ∷ xs) zero (suc j) e c h k =
    Chain-from-first (suc x.buf_key) hi xs j e c.1 (omega arith)
Chain-ascends lo hi (x ∷ xs) (suc i) (suc j) e c h k =
    Chain-ascends (suc x.buf_key) hi xs i j e c.1 (omega arith) (omega arith)

collect_overflow_keys-empty : (d : Index) (p n : ℕ) → collect_overflow_keys d p n ≡ []
collect_overflow_keys-empty d p zero = refl
collect_overflow_keys-empty d p (suc n) =
    rw (get_all_data_empty (d.opt_overflow_trees p), collect_overflow_keys-empty d (p + 1) n) refl

module _ (counts : List ℕ) (made : ReplicasInfo) (behind : ℕ → BufPage) (vals : ℕ → StringPayload)
    (pgm_search : ℕ → ℕ → ℕ × ℕ) (d : Index) where
  install_lem :
      (partial_keys : ℕ → ℕ) (new : ℕ → Entry) (samplers : List ℕ)
      → install counts made behind vals pgm_search d partial_keys new samplers
        ≡ clear_trees (
            set_dindex counts made behind new
              (sample_threads (new_total_size d) new samplers partial_keys)
              d)
  unfolding install reinsert
  install_lem partial_keys new samplers =
      rw
        (collect_overflow_keys-empty
          (set_dindex counts made behind new
            (sample_threads (new_total_size d) new samplers partial_keys) d)
          0 nr_partition)
        refl

  -- What `merge_and_retrain` leaves: the merge of the array with the pages, loaded, and no more.
  pub record IsMerged (d' : Index) : Type 0 where
    pub loaded : IsLoaded d'
    pub total : d'.total_size ≡ new_total_size d
    pub exact : d'.partial_total_size ≡ d'.total_size / 8
    pub entries :
        (j : ℕ)
        → j < new_total_size d
        → get_elem? (merge (old_list d 0 d.total_size) (page_list d 0 (num_buf_pages d))) j
          ≡ some (old_entry d' j)
    pub pages : (j : ℕ) → j < num_buf_pages d' → d'.buffer_pages j ≡ init
    pub outside : (j : ℕ) → num_buf_pages d' ≤ j → d'.buffer_pages j ≡ behind j
    pub trees : (p : ℕ) → p < nr_partition → d'.opt_overflow_trees p ≡ clear

  module _ (loaded : IsLoaded d) (m : IsMergeable d) (partial_keys : ℕ → ℕ) (new : ℕ → Entry)
      (samplers : List ℕ) (small : new_total_size d + 8 ≤ 2 ^ 31)
      (few : (t : ℕ) → Occurs t samplers → t < merge_thread_num)
      (all : (t : ℕ) → t < merge_thread_num → Occurs t samplers) (unset : Entry)
      (right : (j : ℕ)
        → j < new_total_size d
        → new j
          ≡ get_or
              (merge (old_list d 0 d.total_size) (page_list d 0 (num_buf_pages d)))
              j
              unset) where
    abbrev whole : List Entry
    whole = merge (old_list d 0 d.total_size) (page_list d 0 (num_buf_pages d))

    abbrev sampled : ℕ → ℕ
    sampled = sample_threads (new_total_size d) new samplers partial_keys

    grown : d.total_size ≤ new_total_size d
    grown = omega (arith, new_total_size_lem d loaded.small (large d loaded m))

    installed-IsLoaded : IsLoaded (clear_trees (set_dindex counts made behind new sampled d))
    unfolding set_dindex load_hot_replica get_start_dpu_id
    installed-IsLoaded = record {
      sorted = λ i j h k l.
          rw (right i (omega arith), right j l)
            (Chain-ascends (edge d loaded m 0) (top d loaded m) whole i j unset
              (merged-Chain d loaded m) k (omega (arith, length-whole d loaded m, l)));
      sampled = λ i h.
          sample_threads-sampled (new_total_size d) new small samplers partial_keys i few all
            (omega (arith, h));
      whole = omega arith;
      small = m.fits;
      slices = omega (arith, grown, large d loaded m);
      partitions = length-low_bounds sampled (new_total_size d / 8 / 128) 0 128;
      bounds = λ p h.
          low_bounds_lem sampled (new_total_size d / 8 / 128) 0 128 p h ∙ ap sampled (omega arith);
    }

    installed-IsMerged : IsMerged (clear_trees (set_dindex counts made behind new sampled d))
    unfolding set_dindex
    installed-IsMerged = record {
      loaded = installed-IsLoaded;
      total = refl;
      exact = refl;
      entries = λ j h.
          get_elem?-eq-get_or whole j unset (omega (arith, length-whole d loaded m, h))
          ∙ ap some (sym (right j h));
      pages = λ j h. rw (lt→ltb j (new_total_size d / 8 + 1) h) refl;
      outside = λ j h. rw (le→ltb j (new_total_size d / 8 + 1) h) refl;
      trees = λ p h. rw (lt→ltb p nr_partition h) refl;
    }

  pub merge_and_retrain-IsMerged :
      (readable : ℕ) (unset : ℕ → Entry) (mergers samplers : List ℕ) (new : ℕ → Entry)
      (partial_keys : ℕ → ℕ)
      → IsLoaded d
      → IsMergeable d
      → new_total_size d + 8 ≤ 2 ^ 31
      → num_buf_pages d < readable
      → ((t : ℕ) → Occurs t mergers → t < merge_thread_num)
      → ((t : ℕ) → t < merge_thread_num → Occurs t mergers)
      → ((t : ℕ) → Occurs t samplers → t < merge_thread_num)
      → ((t : ℕ) → t < merge_thread_num → Occurs t samplers)
      → (d' : Index) × (merge_and_retrain counts made behind vals pgm_search readable unset mergers
            samplers new partial_keys d
          ≡ some d')
        × IsMerged d'
  unfolding merge_and_retrain
  merge_and_retrain-IsMerged readable unset mergers samplers new partial_keys loaded m small inside
        few all few' all' =
      let r = merge_threads-merge d loaded m readable inside unset (unset 0) mergers new few all in
      (
        clear_trees (
            set_dindex counts made behind r.0
              (sample_threads (new_total_size d) r.0 samplers partial_keys) d),
        rw (merge_and_retrain, r.1, install_lem partial_keys r.0 samplers) refl,
        installed-IsMerged loaded m partial_keys r.0 samplers small few' all' (unset 0) r.2,
      )
