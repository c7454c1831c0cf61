-- ===== src/Merge/Thread.antt =====
-- What one thread of a merge stores: the merge of its keys with the entries of its pages.
use pimlex_fast.Base.{
  ℕ, suc, ◌+◌, ◌-◌, ◌≤◌, ◌<◌, ◌≡◌, refl, sym, ap, subst, ◌∙◌, arith, List, ◌∷◌, some,
}
use pimlex_fast.Page.{Entry}
use pimlex_fast.Host.Index.{Index}
use pimlex_fast.Host.Bound.{IsLoaded}
use pimlex_fast.Merge.Defs.{
  merge_thread_num, num_buf_pages, old_entry, first_page, last_page, first_old, last_old, merge_ops,
  before_pages, merge_thread,
}
use pimlex_fast.Merge.Spec.{old_list, page_list, merge, Apart, length-old_list}
use pimlex_fast.Merge.Loop.{OldLeft, run_loop-merge}
use pimlex_fast.Merge.Ranges.{
  start_page-first, first_old_lem, last_page_lem, last_old_lem, start_old-ascends, start_page-upto,
  start_old-upto, length-page_list, first_page-upto,
}
use pimlex_fast.Merge.Chains.{IsMergeable, large, lists-Apart}
use pimlex_fast.Merge.Parts.{part}

-- One thread stores the merge of its keys with the entries of its pages.
module _ (d : Index) (loaded : IsLoaded d) (m : IsMergeable d) (readable : ℕ)
    (inside : num_buf_pages d < readable) (unset : Entry) (tid : ℕ)
    (h : tid < merge_thread_num) where
  pages-inside : last_page d tid ≤ num_buf_pages d
  pages-inside =
      rw (last_page_lem d loaded.small (large d loaded m) tid h)
        (start_page-upto d loaded.small (large d loaded m) (tid + 1))

  olds-ascend : (first_old d tid < last_old d tid) × (last_old d tid ≤ d.total_size)
  olds-ascend =
      rw
        (
          first_old_lem d loaded.small (large d loaded m) tid h,
          last_old_lem d loaded.small (large d loaded m) tid h,
        )
        (
          start_old-ascends d loaded.small (large d loaded m) tid h,
          start_old-upto d loaded.small (large d loaded m) (tid + 1),
        )

  abbrev olds : List Entry
  olds =
      old_entry d (first_old d tid)
      ∷ old_list d (first_old d tid + 1) (last_old d tid - (first_old d tid + 1))

  olds-list : olds ≡ old_list d (first_old d tid) (last_old d tid - first_old d tid)
  olds-list =
      let e : last_old d tid - first_old d tid ≡ suc (last_old d tid - (first_old d tid + 1)) =
        omega (arith, olds-ascend.0) in
      rw e refl

  before-OldLeft :
      OldLeft d readable
        (last_page d tid)
        (last_old d tid)
        (num_buf_pages d)
        pages-inside
        inside
        m.filled
        (before_pages d tid unset)
        olds
  before-OldLeft =
      let n = length-old_list d (first_old d tid + 1) (last_old d tid - (first_old d tid + 1)) in
      (refl, refl, omega (arith, n, olds-ascend.0), rw n refl)

  thread-part :
      merge olds (page_list d (first_page d tid) (last_page d tid - first_page d tid))
      ≡ part d tid (tid + 1)
  thread-part =
      rw
        (
          olds-list,
          first_old_lem d loaded.small (large d loaded m) tid h,
          last_old_lem d loaded.small (large d loaded m) tid h,
          last_page_lem d loaded.small (large d loaded m) tid h,
          start_page-first d loaded.small (large d loaded m) tid h,
        )
        refl

  olds-Apart : Apart olds (page_list d (first_page d tid) (last_page d tid - first_page d tid))
  olds-Apart =
      subst (λ xs. Apart xs (page_list d (first_page d tid) (last_page d tid - first_page d tid)))
        (sym olds-list)
        (lists-Apart d loaded m (first_old d tid) (last_old d tid - first_old d tid)
          (first_page d tid) (last_page d tid - first_page d tid)
          (omega (arith, olds-ascend.0, olds-ascend.1))
          (omega (arith, pages-inside, first_page-upto d loaded.small (large d loaded m) tid h)))

  pub merge_thread-part : merge_thread d readable unset tid ≡ some (part d tid (tid + 1))
  unfolding merge_thread
  merge_thread-part =
      let r =
        run_loop-merge d readable (last_page d tid) (last_old d tid) (num_buf_pages d) pages-inside
          inside m.filled olds-ascend.1 (merge_ops d tid) olds (before_pages d tid unset)
          (omega (
            arith,
            length-old_list d (first_old d tid + 1) (last_old d tid - (first_old d tid + 1)),
            length-page_list d (first_page d tid) (last_page d tid - first_page d tid),
            olds-ascend.0,
            olds-ascend.1,
            loaded.small,
          ))
          olds-Apart (omega (arith, first_page-upto d loaded.small (large d loaded m) tid h)) refl
          before-OldLeft in
      r ∙ ap some thread-part
