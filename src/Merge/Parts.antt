-- ===== src/Merge/Parts.antt =====
-- The merge of the whole array with all pages is what the threads' merges are, one behind the other.
use pimlex_fast.Base.{
  ℕ, ◌+◌, ◌-◌, ◌*◌, ◌/◌, ◌≤◌, ◌<◌, ◌≡◌, refl, ap, ◌∙◌, arith, List, ◌++◌, length, dec_lt,
  ℕ_discrete, lt→ltb, le→ltb,
}
use pimlex_fast.Page.{Entry}
use pimlex_fast.Host.Index.{Index}
use pimlex_fast.Host.Bound.{IsLoaded, times_le}
use pimlex_fast.Merge.Defs.{merge_thread_num, num_buf_pages}
use pimlex_fast.Merge.Spec.{
  old_list, page_list, merge, Chain, merge-append, merge-Chain, Chain-range, Chain-upto,
  length-merge, length-old_list, old_list-split, page_list-split,
}
use pimlex_fast.Merge.Ranges.{
  start_page, start_old, start_page-first, start_page-upto, start_old-upto, first_page-upto,
}
use pimlex_fast.Merge.Chains.{
  IsMergeable, large, lists-Apart, top, keys-top, edge, edge-upto-top, edge-sampled, edge-top,
  page_list-Chain, old_list-Chain,
}

-- What the threads before `t` merge, and the threads from `t` up to, and without, `u`.
abbrev pub merged : Index → ℕ → List Entry
merged d t = merge (old_list d 0 (start_old d t)) (page_list d 0 (start_page d t))

abbrev pub part : Index → ℕ → ℕ → List Entry
part d t u =
    merge (old_list d (start_old d t) (start_old d u - start_old d t))
      (page_list d (start_page d t) (start_page d u - start_page d t))

module _ (d : Index) (loaded : IsLoaded d) (m : IsMergeable d) where
  sampled-start : (t : ℕ) → t < merge_thread_num → start_page d t < d.partial_total_size
  sampled-start t h = rw (start_page-first d loaded.small (large d loaded m) t h) (
      omega
        (arith, first_page-upto d loaded.small (large d loaded m) t h, m.exact, large d loaded m))

  edge-start :
      (t : ℕ) → t < merge_thread_num → edge d loaded m (start_page d t) ≡ d.keys (start_old d t)
  edge-start t h =
      rw (edge-sampled d loaded m (start_page d t) (sampled-start t h), lt→ltb t merge_thread_num h)
        refl

  edge-end : (t : ℕ) → merge_thread_num ≤ t → edge d loaded m (start_page d t) ≡ top d loaded m
  edge-end t h =
      edge-top d loaded m (start_page d t)
        (rw (le→ltb t merge_thread_num h) (omega (arith, m.exact)))

  before-edge : (t j : ℕ) → j < start_old d t → d.keys j < edge d loaded m (start_page d t)
  before-edge t j h = elim (dec_lt t merge_thread_num) [
    | yes k ↦ rw (edge-start t k) (
        loaded.sorted j (start_old d t) (omega arith) h (
          rw (lt→ltb t merge_thread_num k) (
            omega
              (arith, first_page-upto d loaded.small (large d loaded m) t k, large d loaded m))))
    | no k ↦ rw (edge-end t (omega arith)) (
        keys-top d loaded m j
          (omega (arith, h, start_old-upto d loaded.small (large d loaded m) t)))
  ]

  from-edge :
      (t j : ℕ) → start_old d t ≤ j → j < d.total_size → edge d loaded m (start_page d t) ≤ d.keys j
  from-edge t j h k = elim (dec_lt t merge_thread_num) [
    | yes l ↦ rw (edge-start t l) (elim (ℕ_discrete (start_old d t) j) [
      | yes e ↦ rw e (omega arith)
      | no ne ↦
          omega (arith, loaded.sorted (start_old d t) j (omega arith) (omega (arith, h, ne)) k)
    ])
    | no l ↦ absurd (omega (arith, k, (rw (le→ltb t merge_thread_num (omega arith)) at h)))
  ]

  start_page_mono : (t u : ℕ) → t ≤ u → start_page d t ≤ start_page d u
  start_page_mono t u h = elim (dec_lt u merge_thread_num) [
    | yes k ↦
        rw (lt→ltb u merge_thread_num k, lt→ltb t merge_thread_num (omega arith))
          (times_le (num_buf_pages d / merge_thread_num) t u h)
    | no k ↦
        rw (le→ltb u merge_thread_num (omega arith))
          (start_page-upto d loaded.small (large d loaded m) t)
  ]

  start_old_mono : (t u : ℕ) → t ≤ u → start_old d t ≤ start_old d u
  start_old_mono t u h = elim (dec_lt u merge_thread_num) [
    | yes k ↦
        rw (lt→ltb u merge_thread_num k, lt→ltb t merge_thread_num (omega arith))
          (omega (arith, times_le (num_buf_pages d / merge_thread_num) t u h))
    | no k ↦
        rw (le→ltb u merge_thread_num (omega arith))
          (start_old-upto d loaded.small (large d loaded m) t)
  ]

  bufs-Chain :
      (t u : ℕ)
      → t ≤ u
      → Chain
          (edge d loaded m (start_page d t))
          (edge d loaded m (start_page d u))
          (page_list d (start_page d t) (start_page d u - start_page d t))
  bufs-Chain t u h =
      let e : start_page d t + (start_page d u - start_page d t) ≡ start_page d u =
        omega (arith, start_page_mono t u h) in
      rw e at (
        page_list-Chain d loaded m (start_page d t) (start_page d u - start_page d t)
          (omega (arith, e, start_page-upto d loaded.small (large d loaded m) u)))

  olds-Chain :
      (t u : ℕ)
      → t ≤ u
      → Chain
          (edge d loaded m (start_page d t))
          (edge d loaded m (start_page d u))
          (old_list d (start_old d t) (start_old d u - start_old d t))
  olds-Chain t u h =
      let b = bufs-Chain t u h in
      let e : start_old d t + (start_old d u - start_old d t) ≡ start_old d u =
        omega (arith, start_old_mono t u h) in
      let upto = start_old-upto d loaded.small (large d loaded m) u in
      old_list-Chain d loaded m (edge d loaded m (start_page d t))
        (edge d loaded m (start_page d u)) (start_old d t) (start_old d u - start_old d t)
        (Chain-range (edge d loaded m (start_page d t)) (edge d loaded m (start_page d u))
          (page_list d (start_page d t) (start_page d u - start_page d t)) b)
        (omega (arith, e, upto))
        (λ j k l.
          (from-edge t j k (omega (arith, e, upto, l)), before-edge u j (omega (arith, e, l))))

  olds-before :
      (t : ℕ)
      → Chain (edge d loaded m 0) (edge d loaded m (start_page d t)) (old_list d 0 (start_old d t))
  olds-before t =
      let z : num_buf_pages d / merge_thread_num * 0 ≡ 0 = omega arith in
      let e : start_old d t - 0 ≡ start_old d t = omega arith in
      rw (z, e) at (olds-Chain 0 t (omega arith))

  bufs-before :
      (t : ℕ)
      → Chain
          (edge d loaded m 0)
          (edge d loaded m (start_page d t))
          (page_list d 0 (start_page d t))
  bufs-before t =
      let z : num_buf_pages d / merge_thread_num * 0 ≡ 0 = omega arith in
      let e : start_page d t - 0 ≡ start_page d t = omega arith in
      rw (z, e) at (bufs-Chain 0 t (omega arith))

  -- The merge splits at the start of every thread.
  pub merged-split : (t u : ℕ) → t ≤ u → merged d u ≡ merged d t ++ part d t u
  merged-split t u h =
      rw
        (
          old_list-split d (start_old d t) (start_old d u) (start_old_mono t u h),
          page_list-split d (start_page d t) (start_page d u) (start_page_mono t u h),
        )
        (merge-append (edge d loaded m 0) (edge d loaded m 0) (edge d loaded m (start_page d t))
          (edge d loaded m (start_page d u)) (edge d loaded m (start_page d u))
          (old_list d 0 (start_old d t)) (page_list d 0 (start_page d t))
          (old_list d (start_old d t) (start_old d u - start_old d t))
          (page_list d (start_page d t) (start_page d u - start_page d t)) (olds-before t)
          (bufs-before t) (olds-Chain t u h) (bufs-Chain t u h))

  pub length-merged :
      (t : ℕ) → length (merged d t) ≡ start_old d t + length (page_list d 0 (start_page d t))
  length-merged t =
      length-merge (old_list d 0 (start_old d t)) (page_list d 0 (start_page d t))
      ∙ ap (λ n. n + length (page_list d 0 (start_page d t))) (length-old_list d 0 (start_old d t))

  -- The whole merge ascends strictly.
  pub merged-Chain : Chain (edge d loaded m 0) (top d loaded m) (merged d merge_thread_num)
  merged-Chain =
      Chain-upto (edge d loaded m 0) (edge d loaded m (start_page d 32)) (top d loaded m)
        (merged d 32) (edge-upto-top d loaded m (start_page d 32))
        (merge-Chain (edge d loaded m 0) (edge d loaded m (start_page d 32))
          (old_list d 0 d.total_size) (page_list d 0 (num_buf_pages d)) (olds-before 32)
          (bufs-before 32)
          (lists-Apart d loaded m 0 d.total_size 0 (num_buf_pages d) (omega arith) (omega arith)))
