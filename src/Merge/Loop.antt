-- ===== src/Merge/Loop.antt =====
-- What the loop of a merge thread stores: the merge of the keys and of the entries before it.
use pimlex_fast.Base.{
  ℕ, zero, suc, ◌+◌, ◌-◌, ◌≤◌, ◌<◌, ◌≡◌, refl, sym, arith, List, [], ◌∷◌, ◌++◌, some, Bool, true,
  false, inl, inr, length, get_or, dec_lt, lt→ltb, le→ltb,
}
use pimlex_fast.Page.{Entry, page_count}
use pimlex_fast.Host.Index.{Index}
use pimlex_fast.Merge.Defs.{
  MergeState, old_entry, skip_empty, next_old, enter_page, next_buf, merge_loop, run_loop,
}
use pimlex_fast.Merge.Spec.{old_list, merge, merge_left, merge_right, Apart, Apart-tail}
use pimlex_fast.Merge.Skip.{rest_of, rest_of-next, rest_of-end, pages_from, Found, skip_empty-Found}
use pimlex_fast.Merge.Steps.{step-old, step-buf, step-less, step-greater, merge_loop-step}

-- A page at `stop`, behind the thread's, has entries and can be read.
module _ (d : Index) (readable max_page_id max_old_input_size stop : ℕ)
    (behind : max_page_id ≤ stop) (inside : stop < readable)
    (filled : 0 < page_count (d.buffer_pages stop)) where
  -- What is before the loop: the keys `xs` of the array, and the entries `ys` of the pages.
  abbrev pub OldLeft : MergeState → List Entry → Type 0
  OldLeft s [] = s.old_end_flag ≡ true
  OldLeft s (x ∷ xs) =
      (s.old_end_flag ≡ false)
      × (s.old ≡ x)
      × (s.cur_old_off + length xs ≡ max_old_input_size)
      × (xs ≡ old_list d s.cur_old_off (length xs))

  abbrev BufLeft : MergeState → List Entry → Type 0
  BufLeft s [] = s.buf_end_flag ≡ true
  BufLeft s (y ∷ ys) =
      (s.buf_end_flag ≡ false)
      × (s.buf ≡ y)
      × (s.page_id < max_page_id)
      × (ys
          ≡ rest_of (d.buffer_pages s.page_id).cells s.in_page_off
            ++ pages_from d max_page_id (s.page_id + 1))

  next_old-more :
      (s : MergeState) (limit : ℕ) (x x' : Entry) (xs : List Entry)
      → max_old_input_size ≤ limit
      → OldLeft s (x ∷ x' ∷ xs)
      → OldLeft (next_old d readable max_page_id max_old_input_size limit s) (x' ∷ xs)
  unfolding next_old
  next_old-more s limit x x' xs h o =
      let e : x' ∷ xs ≡ old_entry d s.cur_old_off ∷ old_list d (s.cur_old_off + 1) (length xs) =
        o.3 in
      rw (next_old, lt→ltb s.cur_old_off limit (omega (arith, o.2)))
        (o.0, (cc), omega (arith, o.2), (cc))

  next_old-OldLeft :
      (s : MergeState) (x : Entry) (xs : List Entry)
      → OldLeft s (x ∷ xs)
      → OldLeft (next_old d readable max_page_id max_old_input_size max_old_input_size s) xs
  unfolding next_old
  next_old-OldLeft s x [] o =
      rw (next_old, le→ltb s.cur_old_off max_old_input_size (omega (arith, o.2))) refl
  next_old-OldLeft s x (x' ∷ xs) o = next_old-more s max_old_input_size x x' xs (omega arith) o

  -- Both phases leave the other list alone.
  BufLeft-keeps :
      (s : MergeState) (off : ℕ) (old : Entry) (flag : Bool) (ys : List Entry)
      → BufLeft s ys
      → BufLeft (record s { cur_old_off = off; old = old; old_end_flag = flag }) ys
  BufLeft-keeps s off old flag [] b = b
  BufLeft-keeps s off old flag (y ∷ ys) b = b

  next_old-BufLeft :
      (s : MergeState) (limit : ℕ) (ys : List Entry)
      → BufLeft s ys
      → BufLeft (next_old d readable max_page_id max_old_input_size limit s) ys
  unfolding next_old
  next_old-BufLeft s limit ys b = elim (dec_lt s.cur_old_off limit) [
    | yes h ↦
        rw (next_old, lt→ltb s.cur_old_off limit h)
          (BufLeft-keeps s (s.cur_old_off + 1) (old_entry d s.cur_old_off) s.old_end_flag ys b)
    | no h ↦
        rw (next_old, le→ltb s.cur_old_off limit (omega arith))
          (BufLeft-keeps s s.cur_old_off s.old true ys b)
  ]

  OldLeft-keeps :
      (s : MergeState) (page off : ℕ) (buf : Entry) (flag : Bool) (xs : List Entry)
      → OldLeft s xs
      → OldLeft (record s { page_id = page; in_page_off = off; buf = buf; buf_end_flag = flag }) xs
  OldLeft-keeps s page off buf flag [] o = o
  OldLeft-keeps s page off buf flag (x ∷ xs) o = o

  -- At the page that the search stops at, the entries from its start on are left.
  enter_page-Left :
      (s : MergeState) (p q : ℕ) (xs : List Entry)
      → s.buf_end_flag ≡ false
      → Found d max_page_id p q
      → OldLeft s xs
      → (s' : MergeState) × (enter_page d readable max_page_id max_old_input_size s (some q)
          ≡ some s')
        × OldLeft s' xs
        × BufLeft s' (pages_from d max_page_id p)
  enter_page-Left s p q xs live (inl f) o = (
    record s { page_id = q; in_page_off = 1; buf = get_or (d.buffer_pages q).cells 0 s.buf },
    rw (lt→ltb q max_page_id f.0) refl,
    OldLeft-keeps s q 1 (get_or (d.buffer_pages q).cells 0 s.buf) s.buf_end_flag xs o,
    rw (f.2, rest_of-next (d.buffer_pages q).cells 0 s.buf f.1) (live, refl, f.0, refl),
  )
  enter_page-Left s p q xs live (inr f) o = (
    record s { page_id = q; in_page_off = 0; buf_end_flag = true },
    rw (le→ltb q max_page_id f.0) refl,
    OldLeft-keeps s q 0 s.buf true xs o,
    rw f.1 refl,
  )

  next_buf-Left :
      (s : MergeState) (y : Entry) (xs ys : List Entry)
      → OldLeft s xs
      → BufLeft s (y ∷ ys)
      → (s' : MergeState) × (next_buf d readable max_page_id max_old_input_size s ≡ some s')
        × OldLeft s' xs
        × BufLeft s' ys
  unfolding next_buf
  next_buf-Left s y xs ys o b =
      let cells : List Entry = (d.buffer_pages s.page_id).cells in
      elim (dec_lt s.in_page_off (page_count (d.buffer_pages s.page_id))) [
        | yes h ↦ (
          record s { in_page_off = s.in_page_off + 1; buf = get_or cells s.in_page_off s.buf },
          rw (next_buf, lt→ltb s.in_page_off (page_count (d.buffer_pages s.page_id)) h) refl,
          OldLeft-keeps s s.page_id (s.in_page_off + 1) (get_or cells s.in_page_off s.buf)
              s.buf_end_flag xs o,
          rw (b.3, rest_of-next cells s.in_page_off s.buf h)
              (
                b.0,
                refl,
                b.2,
                let e : s.in_page_off + 1 ≡ suc s.in_page_off = omega arith in rw e refl,
              ),
        )
        | no h ↦
            let r =
              skip_empty-Found d max_page_id readable stop behind inside filled
                (readable - (s.page_id + 1)) (s.page_id + 1) (omega (arith, b.2))
                (omega (arith, b.2)) in
            let next = enter_page-Left s (s.page_id + 1) r.0 xs b.0 r.2 o in
            (
              next.0,
              rw
                  (
                    next_buf,
                    le→ltb s.in_page_off (page_count (d.buffer_pages s.page_id)) (omega arith),
                    r.1,
                  )
                  next.1,
              next.2,
              rw (b.3, rest_of-end cells s.in_page_off (omega arith)) next.3,
            )
      ]

  -- One list is at its end: the loop stores the other.
  module _ (whole : max_old_input_size ≤ d.total_size) where
    merge_loop-olds :
        (xs : List Entry) (s : MergeState)
        → OldLeft s xs
        → BufLeft s []
        → merge_loop d readable max_page_id max_old_input_size (length xs) s ≡ some xs
    unfolding merge_loop
    merge_loop-olds [] s o b = refl
    merge_loop-olds (x ∷ []) s o b =
        let after : MergeState =
          next_old d readable max_page_id max_old_input_size d.total_size s in
        rw⁻¹ o.1 (
          merge_loop-step d readable max_page_id max_old_input_size 0 s after s.old []
            (step-old d readable max_page_id max_old_input_size s o.0 b) refl)
    merge_loop-olds (x ∷ x' ∷ xs) s o b =
        let limit : ℕ = d.total_size in
        let after : MergeState = next_old d readable max_page_id max_old_input_size limit s in
        rw⁻¹ o.1 (
          merge_loop-step d readable max_page_id max_old_input_size (length (x' ∷ xs)) s after s.old
            (x' ∷ xs) (step-old d readable max_page_id max_old_input_size s o.0 b)
            (merge_loop-olds (x' ∷ xs) after (next_old-more s limit x x' xs whole o)
              (next_old-BufLeft s limit [] b)))

    merge_loop-bufs :
        (ys : List Entry) (s : MergeState)
        → OldLeft s []
        → BufLeft s ys
        → merge_loop d readable max_page_id max_old_input_size (length ys) s ≡ some ys
    unfolding merge_loop
    merge_loop-bufs [] s o b = refl
    merge_loop-bufs (y ∷ ys) s o b =
        let next = next_buf-Left s y [] ys o b in
        rw⁻¹ b.1 (
          merge_loop-step d readable max_page_id max_old_input_size (length ys) s next.0 s.buf ys
            (step-buf d readable max_page_id max_old_input_size s next.0 o b.0 next.1)
            (merge_loop-bufs ys next.0 next.2 next.3))

    -- The loop stores the merge of what is before it.
    pub merge_loop-merge :
        (n : ℕ) (xs ys : List Entry) (s : MergeState)
        → n ≡ length xs + length ys
        → Apart xs ys
        → OldLeft s xs
        → BufLeft s ys
        → merge_loop d readable max_page_id max_old_input_size n s ≡ some (merge xs ys)
    unfolding merge
    merge_loop-merge n [] ys s e a o b =
        let m : n ≡ length ys = omega (arith, e) in rw m (merge_loop-bufs ys s o b)
    merge_loop-merge n (x ∷ xs) [] s e a o b =
        let m : n ≡ length (x ∷ xs) = omega (arith, e) in rw m (merge_loop-olds (x ∷ xs) s o b)
    merge_loop-merge zero (x ∷ xs) (y ∷ ys) s e a o b = absurd (omega (arith, e))
    merge_loop-merge (suc n) (x ∷ xs) (y ∷ ys) s e a o b = elim (dec_lt x.buf_key y.buf_key) [
      | yes h ↦
          let after : MergeState =
            next_old d readable max_page_id max_old_input_size max_old_input_size s in
          let less : s.old.buf_key < s.buf.buf_key = rw (o.1, b.1) h in
          rw (merge_left x y xs ys h, sym o.1)
            (merge_loop-step d readable max_page_id max_old_input_size n s after s.old
              (merge xs (y ∷ ys))
              (step-less d readable max_page_id max_old_input_size s o.0 b.0 less)
              (merge_loop-merge n xs (y ∷ ys) after (omega (arith, e)) a.1
                (next_old-OldLeft s x xs o) (next_old-BufLeft s max_old_input_size (y ∷ ys) b)))
      | no h ↦
          let next = next_buf-Left s y (x ∷ xs) ys o b in
          let greater : s.buf.buf_key < s.old.buf_key = rw (o.1, b.1) (omega (arith, a.0.0)) in
          rw (merge_right x y xs ys (omega arith), sym b.1)
            (merge_loop-step d readable max_page_id max_old_input_size n s next.0 s.buf
              (merge (x ∷ xs) ys)
              (step-greater d readable max_page_id max_old_input_size s next.0 o.0 b.0 greater
                next.1)
              (merge_loop-merge n (x ∷ xs) ys next.0 (omega (arith, e))
                (a.0.1, Apart-tail xs ys y a.1) next.2 next.3))
    ]

    -- The same from the search for the first entry on.
    pub run_loop-merge :
        (n : ℕ) (xs : List Entry) (s : MergeState)
        → n ≡ length xs + length (pages_from d max_page_id s.page_id)
        → Apart xs (pages_from d max_page_id s.page_id)
        → s.page_id ≤ stop
        → s.buf_end_flag ≡ false
        → OldLeft s xs
        → run_loop d readable max_page_id max_old_input_size n (
            enter_page d readable max_page_id max_old_input_size s
              (skip_empty d (readable - s.page_id) s.page_id))
          ≡ some (merge xs (pages_from d max_page_id s.page_id))
    run_loop-merge n xs s e a h live o =
        let r =
          skip_empty-Found d max_page_id readable stop behind inside filled (readable - s.page_id)
            s.page_id h (omega arith) in
        let next = enter_page-Left s s.page_id r.0 xs live r.2 o in
        rw (r.1, next.1)
          (merge_loop-merge n xs (pages_from d max_page_id s.page_id) next.0 e a next.2 next.3)
