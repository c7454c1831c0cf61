-- ===== src/Merge/Steps.antt =====
-- One round of the loop of a merge thread, in each of its phases.
use pimlex_fast.Base.{
  ℕ, suc, ◌<◌, ◌≡◌, refl, arith, List, [], ◌∷◌, some, true, false, lt→ltb, le→ltb, ==-false,
}
use pimlex_fast.Page.{Entry}
use pimlex_fast.Host.Index.{Index}
use pimlex_fast.Merge.Defs.{MergeState, next_old, next_buf, merge_step, merge_loop}

module _ (d : Index) (readable max_page_id max_old_input_size : ℕ) where
  -- One round of each phase.
  pub step-old :
      (s : MergeState)
      → s.old_end_flag ≡ false
      → s.buf_end_flag ≡ true
      → merge_step d readable max_page_id max_old_input_size s
        ≡ some (s.old ∷ [], next_old d readable max_page_id max_old_input_size d.total_size s)
  unfolding merge_step
  step-old s e f = simp (merge_step, e, f)

  pub step-buf :
      (s s' : MergeState)
      → s.old_end_flag ≡ true
      → s.buf_end_flag ≡ false
      → next_buf d readable max_page_id max_old_input_size s ≡ some s'
      → merge_step d readable max_page_id max_old_input_size s ≡ some (s.buf ∷ [], s')
  unfolding merge_step
  step-buf s s' e f next = simp (merge_step, e, f, next)

  pub step-less :
      (s : MergeState)
      → s.old_end_flag ≡ false
      → s.buf_end_flag ≡ false
      → s.old.buf_key < s.buf.buf_key
      → merge_step d readable max_page_id max_old_input_size s
        ≡ some (s.old ∷ [], next_old d readable max_page_id max_old_input_size max_old_input_size s)
  unfolding merge_step
  step-less s e f h = simp (merge_step, e, f, lt→ltb s.old.buf_key s.buf.buf_key h)

  pub step-greater :
      (s s' : MergeState)
      → s.old_end_flag ≡ false
      → s.buf_end_flag ≡ false
      → s.buf.buf_key < s.old.buf_key
      → next_buf d readable max_page_id max_old_input_size s ≡ some s'
      → merge_step d readable max_page_id max_old_input_size s ≡ some (s.buf ∷ [], s')
  unfolding merge_step
  step-greater s s' e f h next = simp (
    merge_step,
    e,
    f,
    le→ltb s.old.buf_key s.buf.buf_key (omega arith),
    ==-false s.old.buf_key s.buf.buf_key (omega arith),
    next,
  )

  pub merge_loop-step :
      (n : ℕ) (s s' : MergeState) (x : Entry) (out : List Entry)
      → merge_step d readable max_page_id max_old_input_size s ≡ some (x ∷ [], s')
      → merge_loop d readable max_page_id max_old_input_size n s' ≡ some out
      → merge_loop d readable max_page_id max_old_input_size (suc n) s ≡ some (x ∷ out)
  unfolding merge_loop
  merge_loop-step n s s' x out e f = rw (merge_loop, e, f) refl
