-- ===== src/Merge/Defs.antt =====
-- What one merge thread does. The buffer pages that memory has are those below `readable`: a loop that
-- looks for the next page with entries may look behind the `num_buf_pages` of the array.
use pimlex_fast.Base.{
  ℕ, zero, suc, ◌+◌, ◌-◌, ◌*◌, ◌/◌, ◌%◌, ◌^◌, List, [], ◌∷◌, ◌++◌, Option, none, some, Bool, true,
  false, get_or, ltb, ◌==◌, if◌then◌else◌,
}
use pimlex_fast.Page.{Entry, page_count}
use pimlex_fast.Host.Index.{Index, page_ratio}

abbrev pub merge_thread_num : ℕ
merge_thread_num = 32

-- A key of the array with its payload.
abbrev pub old_entry : Index → ℕ → Entry
old_entry d i = record { buf_key = d.keys i; buf_payload = d.payloads i }

-- The local variables of the loop.
pub record MergeState : Type 0 where
  pub cur_old_off : ℕ
  pub old : Entry
  pub old_end_flag : Bool
  pub page_id : ℕ
  pub in_page_off : ℕ
  pub buf : Entry
  pub buf_end_flag : Bool

-- `while(page_count == 0) page_id++` with `n` pages to read; `none` is a read behind them.
unfoldable pub skip_empty : Index → ℕ → ℕ → Option ℕ
skip_empty d zero page_id = none
skip_empty d (suc n) page_id =
    let rest = skip_empty d n (page_id + 1) in
    if page_count (d.buffer_pages page_id) == 0 then rest else some page_id

module _ (d : Index) (readable max_page_id max_old_input_size : ℕ) where
  -- The next key of the array below `limit`.
  unfoldable pub next_old : ℕ → MergeState → MergeState
  next_old limit s =
      if ltb s.cur_old_off limit
      then record s { cur_old_off = s.cur_old_off + 1; old = old_entry d s.cur_old_off }
      else record s { old_end_flag = true }

  -- At the page that the search has found.
  abbrev pub enter_page : MergeState → Option ℕ → Option MergeState
  enter_page s none = none
  enter_page s (some page_id) =
      if ltb page_id max_page_id
      then some (record s {
        page_id = page_id;
        in_page_off = 1;
        buf = get_or (d.buffer_pages page_id).cells 0 s.buf;
      })
      else some (record s { page_id = page_id; in_page_off = 0; buf_end_flag = true })

  -- The next entry of the pages.
  unfoldable pub next_buf : MergeState → Option MergeState
  next_buf s =
      if ltb s.in_page_off (page_count (d.buffer_pages s.page_id))
      then some (record s {
        in_page_off = s.in_page_off + 1;
        buf = get_or (d.buffer_pages s.page_id).cells s.in_page_off s.buf;
      })
      else enter_page s (skip_empty d (readable - (s.page_id + 1)) (s.page_id + 1))

  abbrev pub emit : Entry → Option MergeState → Option (List Entry × MergeState)
  emit e none = none
  emit e (some s) = some (e ∷ [], s)

  -- One round: what it stores at `cur_new_off`, and the variables. The last case prints an error.
  unfoldable pub merge_step : MergeState → Option (List Entry × MergeState)
  merge_step s =
      if s.old_end_flag
      then (if s.buf_end_flag then some ([], s) else emit s.buf (next_buf s))
      else (if s.buf_end_flag
          then some (s.old ∷ [], next_old d.total_size s)
          else (if ltb s.old.buf_key s.buf.buf_key
              then some (s.old ∷ [], next_old max_old_input_size s)
              else emit s.buf (
                  next_buf
                    (if s.old.buf_key == s.buf.buf_key then next_old max_old_input_size s else s))))

  abbrev pub prepend : List Entry → Option (List Entry) → Option (List Entry)
  prepend out none = none
  prepend out (some rest) = some (out ++ rest)

  unfoldable pub merge_loop : ℕ → MergeState → Option (List Entry)
  merge_loop zero s = some []
  merge_loop (suc n) s = elim (merge_step s) [
    | none ↦ none
    | some r ↦ prepend r.0 (merge_loop n r.1)
  ]

-- The pages of a thread: from `first_page` up to, and without, `last_page`.
abbrev pub num_buf_pages : Index → ℕ
num_buf_pages d = d.total_size / page_ratio + 1

abbrev pub first_page : Index → ℕ → ℕ
first_page d tid = num_buf_pages d / merge_thread_num * tid

abbrev pub last_page : Index → ℕ → ℕ
last_page d tid =
    if tid == merge_thread_num - 1
    then num_buf_pages d
    else num_buf_pages d / merge_thread_num * (tid + 1)

abbrev pub count_pages : Index → ℕ → ℕ → ℕ
count_pages d page_id zero = 0
count_pages d page_id (suc n) = page_count (d.buffer_pages page_id) + count_pages d (page_id + 1) n

-- `key_count[tid]`
abbrev pub key_count : Index → ℕ → ℕ
key_count d tid = count_pages d (first_page d tid) (last_page d tid - first_page d tid)

-- The offsets are uint32_t.
abbrev pub first_old : Index → ℕ → ℕ
first_old d tid = first_page d tid * page_ratio % 2 ^ 32

abbrev pub last_old : Index → ℕ → ℕ
last_old d tid =
    if tid == merge_thread_num - 1
    then d.total_size % 2 ^ 32
    else last_page d tid * page_ratio % 2 ^ 32

abbrev pub merge_ops : Index → ℕ → ℕ
merge_ops d tid = (last_old d tid + 2 ^ 32 - first_old d tid) % 2 ^ 32 + key_count d tid

-- The variables before the loop; the entry in `buf` is unset.
abbrev pub before_pages : Index → ℕ → Entry → MergeState
before_pages d tid unset = record {
  cur_old_off = first_old d tid + 1;
  old = old_entry d (first_old d tid);
  old_end_flag = false;
  page_id = first_page d tid;
  in_page_off = 0;
  buf = unset;
  buf_end_flag = false;
}

abbrev pub run_loop : Index → ℕ → ℕ → ℕ → ℕ → Option MergeState → Option (List Entry)
run_loop d readable max_page_id max_old_input_size n none = none
run_loop d readable max_page_id max_old_input_size n (some s) =
    merge_loop d readable max_page_id max_old_input_size n s

-- What a thread stores from its `cur_new_off` on.
unfoldable pub merge_thread : Index → ℕ → Entry → ℕ → Option (List Entry)
merge_thread d readable unset tid =
    run_loop d readable (last_page d tid) (last_old d tid) (merge_ops d tid) (
      enter_page d readable (last_page d tid) (last_old d tid) (before_pages d tid unset)
        (skip_empty d (readable - first_page d tid) (first_page d tid)))

-- `merge_offset_array[tid]`: the entries of the pages of the threads before.
abbrev pub merge_offset : Index → ℕ → ℕ
merge_offset d zero = 0
merge_offset d (suc tid) = merge_offset d tid + key_count d tid

abbrev pub cur_new_off : Index → ℕ → ℕ
cur_new_off d tid = (first_old d tid + merge_offset d tid) % 2 ^ 32

abbrev pub new_total_size : Index → ℕ
new_total_size d = merge_offset d merge_thread_num + d.total_size

-- The stores of a thread into the new arrays, from its `cur_new_off` on.
abbrev pub store_new : ℕ → List Entry → (ℕ → Entry) → ℕ → Entry
store_new off [] new = new
store_new off (x ∷ xs) new = store_new (off + 1) xs (λ j. if j == off then x else new j)

-- The threads between the second barrier and the third, in the order `tids`. `unset` is what each
-- has in `buf_key` and `buf_value` before it fetches an entry.
unfoldable pub merge_threads : Index → ℕ → (ℕ → Entry) → List ℕ → (ℕ → Entry) → Option (ℕ → Entry)
merge_threads d readable unset [] new = some new
merge_threads d readable unset (tid ∷ tids) new = elim (merge_thread d readable (unset tid) tid) [
  | none ↦ none
  | some out ↦ merge_threads d readable unset tids (store_new (cur_new_off d tid) out new)
]
