-- ===== src/Merge/Ranges.antt =====
-- The ranges of the merge threads: they follow each other, and cover the array and the pages.
use pimlex_fast.Base.{
  ℕ, zero, suc, ◌+◌, ◌-◌, ◌*◌, ◌/◌, ◌^◌, ◌≤◌, ◌<◌, ◌≡◌, refl, ap, ◌∙◌, arith, List, length,
  length-append, ltb, if◌then◌else◌, dec_lt, ℕ_discrete, lt→ltb, le→ltb, ==-false,
}
use pimlex_fast.Page.{Entry, page_count}
use pimlex_fast.Host.Index.{Index}
use pimlex_fast.Host.Bound.{times_le}
use pimlex_fast.Merge.Defs.{
  merge_thread_num, num_buf_pages, first_page, last_page, count_pages, key_count, first_old,
  last_old, merge_offset, cur_new_off, new_total_size,
}
use pimlex_fast.Merge.Spec.{page_list, page_list-split}

-- Where the pages and the keys of thread `t` start; those of thread 32 would start at the end.
abbrev pub start_page : Index → ℕ → ℕ
start_page d t = if ltb t merge_thread_num then first_page d t else num_buf_pages d

abbrev pub start_old : Index → ℕ → ℕ
start_old d t = if ltb t merge_thread_num then first_page d t * 8 else d.total_size

pub length-page_list : (d : Index) (p n : ℕ) → length (page_list d p n) ≡ count_pages d p n
length-page_list d p zero = refl
length-page_list d p (suc n) =
    length-append (d.buffer_pages p).cells (page_list d (p + 1) n)
    ∙ ap (λ m. page_count (d.buffer_pages p) + m) (length-page_list d (p + 1) n)

module _ (d : Index) (small : d.total_size < 2 ^ 32) (large : 1024 ≤ d.total_size) where
  abbrev share : ℕ
  share = num_buf_pages d / merge_thread_num

  pub first_page-upto : (t : ℕ) → t < merge_thread_num → first_page d t + share ≤ num_buf_pages d
  first_page-upto t h = omega (arith, times_le share (suc t) 32 h)

  pub start_page-first : (t : ℕ) → t < merge_thread_num → start_page d t ≡ first_page d t
  start_page-first t h = rw (lt→ltb t merge_thread_num h) refl

  pub first_old_lem : (t : ℕ) → t < merge_thread_num → first_old d t ≡ start_old d t
  first_old_lem t h = rw (lt→ltb t merge_thread_num h) (omega (arith, first_page-upto t h))

  pub last_page_lem : (t : ℕ) → t < merge_thread_num → last_page d t ≡ start_page d (t + 1)
  last_page_lem t h = elim (ℕ_discrete t 31) [
    | yes e ↦ rw e refl
    | no ne ↦ rw (==-false t 31 ne, lt→ltb (t + 1) merge_thread_num (omega arith)) refl
  ]

  pub last_old_lem : (t : ℕ) → t < merge_thread_num → last_old d t ≡ start_old d (t + 1)
  last_old_lem t h = elim (ℕ_discrete t 31) [
    | yes e ↦ rw e (omega arith)
    | no ne ↦
        rw (==-false t 31 ne, lt→ltb (t + 1) merge_thread_num (omega arith))
          (omega (arith, first_page-upto (t + 1) (omega arith)))
  ]

  -- A thread has at least a page, and 8 keys of the array less at the end.
  pub start_page-ascends : (t : ℕ) → t < merge_thread_num → start_page d t < start_page d (t + 1)
  start_page-ascends t h = elim (ℕ_discrete t 31) [
    | yes e ↦ rw e (omega arith)
    | no ne ↦
        rw (lt→ltb t merge_thread_num h, lt→ltb (t + 1) merge_thread_num (omega arith))
          (omega (arith, large))
  ]

  pub start_old-ascends : (t : ℕ) → t < merge_thread_num → start_old d t < start_old d (t + 1)
  start_old-ascends t h = elim (ℕ_discrete t 31) [
    | yes e ↦ rw e (omega (arith, large))
    | no ne ↦
        rw (lt→ltb t merge_thread_num h, lt→ltb (t + 1) merge_thread_num (omega arith))
          (omega (arith, large))
  ]

  pub start_old-upto : (t : ℕ) → start_old d t ≤ d.total_size
  start_old-upto t = elim (dec_lt t merge_thread_num) [
    | yes h ↦ rw (lt→ltb t merge_thread_num h) (omega (arith, first_page-upto t h, large))
    | no h ↦ rw (le→ltb t merge_thread_num (omega arith)) (omega arith)
  ]

  pub start_page-upto : (t : ℕ) → start_page d t ≤ num_buf_pages d
  start_page-upto t = elim (dec_lt t merge_thread_num) [
    | yes h ↦ rw (lt→ltb t merge_thread_num h) (omega (arith, first_page-upto t h))
    | no h ↦ rw (le→ltb t merge_thread_num (omega arith)) (omega arith)
  ]

  key_count_lem :
      (t : ℕ)
      → t < merge_thread_num
      → key_count d t
        ≡ length (page_list d (start_page d t) (start_page d (t + 1) - start_page d t))
  key_count_lem t h =
      rw
        (
          last_page_lem t h,
          start_page-first t h,
          length-page_list d (first_page d t) (start_page d (t + 1) - first_page d t),
        )
        refl

  pub merge_offset_lem :
      (t : ℕ) → t ≤ merge_thread_num → merge_offset d t ≡ length (page_list d 0 (start_page d t))
  merge_offset_lem zero h = let e : start_page d 0 ≡ 0 = omega arith in rw e refl
  merge_offset_lem (suc t) h =
      let e : suc t ≡ t + 1 = omega arith in
      let a : List Entry = page_list d 0 (start_page d t) in
      let b : List Entry = page_list d (start_page d t) (start_page d (t + 1) - start_page d t) in
      rw
        (
          merge_offset_lem t (omega arith),
          key_count_lem t h,
          e,
          page_list-split d (start_page d t) (start_page d (t + 1))
              (omega (arith, start_page-ascends t h)),
          length-append a b,
        )
        refl

  pub new_total_size_lem :
      new_total_size d ≡ d.total_size + length (page_list d 0 (num_buf_pages d))
  new_total_size_lem = omega (arith, merge_offset_lem 32 (omega arith))

  module _ (fits : new_total_size d < 2 ^ 32) where
    offset-upto :
        (t : ℕ) → t < merge_thread_num → merge_offset d t ≤ merge_offset d merge_thread_num
    offset-upto t h =
        let a : List Entry = page_list d 0 (start_page d t) in
        let b : List Entry = page_list d (start_page d t) (num_buf_pages d - start_page d t) in
        let e =
          ap length (page_list-split d (start_page d t) (num_buf_pages d) (start_page-upto t))
          ∙ length-append a b in
        omega (arith, merge_offset_lem t (omega arith), merge_offset_lem 32 (omega arith), e)

    -- A thread stores behind the keys and the entries of the threads before it.
    pub cur_new_off_lem :
        (t : ℕ)
        → t < merge_thread_num
        → cur_new_off d t ≡ start_old d t + length (page_list d 0 (start_page d t))
    cur_new_off_lem t h =
        rw (first_old_lem t h, ← merge_offset_lem t (omega arith))
          (omega (arith, start_old-upto t, offset-upto t h, fits))
