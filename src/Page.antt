-- ===== src/Page.antt =====
-- `buf_page` of host/dram_index.h: an insertion buffer of at most 16 entries in key order.
-- The cells below `page_count` are a list, so the count is its length; `memmove` and the stores at
-- `pl` are `insert_at`. A payload is copied to its own allocation, so it is kept by value.
-- A step of a page runs when its lock is free (`Lock.Exclusion` has the waiting): the word goes
-- through one acquire and one release on every path.
pub mod Insert
pub mod Lookup
use mathlib.Core.Option
use pimlex_fast.Base.{
  ℕ, zero, suc, ◌-◌, ◌+◌, List, [], ◌∷◌, Option, none, some, Bool, true, false, map, length, get_or,
  get_elem?, insert_at, set, ltb, leb, ◌==◌, if◌then◌else◌,
}
use pimlex_fast.Search.{upper_bound}
use pimlex_fast.Lock.{acquired, release_lock}
use pimlex_fast.Payload.{StringPayload}

abbrev pub buf_size : ℕ
buf_size = 16

-- `entry_t`
pub record Entry : Type 0 where
  pub buf_key : ℕ
  pub buf_payload : StringPayload

pub record BufPage : Type 0 where
  pub lock_ : ℕ
  pub cells : List Entry

abbrev pub page_count : BufPage → ℕ
page_count p = length p.cells

abbrev pub keys_of : List Entry → List ℕ
keys_of es = map (λ e. e.buf_key) es

-- `buf_key[i]`
abbrev pub buf_key_at : BufPage → ℕ → ℕ
buf_key_at p i = get_or (keys_of p.cells) i 0

unfoldable pub init : BufPage
init = record { lock_ = 0; cells = [] }

-- `release_lock` after `get_lock`, with the cells that the critical section leaves.
unfoldable pub released : BufPage → List Entry → BufPage
released p cells = record { lock_ = release_lock (acquired p.lock_); cells = cells }

-- The `pl` that the bisections of the three functions leave.
unfoldable pub position : ℕ → BufPage → ℕ
position key p = upper_bound (buf_key_at p) key 0 (page_count p)

unfoldable pub insert_page : ℕ → StringPayload → BufPage → Bool × BufPage
unfolding released position
insert_page key val p =
    let e : Entry = record { buf_key = key; buf_payload = val } in
    if leb buf_size (page_count p)
    then (false, released p p.cells)
    else (if page_count p == 0
        then (true, released p (e ∷ []))
        else (true, released p (insert_at (position key p) e p.cells)))

-- `val = buf_payload[pl - 1]` assigns the parameter, which is the function's own copy of the
-- caller's pointer: nothing of it reaches the caller.
unfoldable pub find_key_page : ℕ → BufPage → Bool × BufPage
unfolding released position
find_key_page key p =
    if page_count p == 0 then (false, released p p.cells) else (true, released p p.cells)

-- `*buf_payload[n - 1] = *val` on the cells: with `n` 0 the store goes through the cell before the
-- array, which is a fault.
abbrev pub store : ℕ → StringPayload → List Entry → Option (List Entry)
store zero val xs = none
store (suc n) val xs = elim (get_elem? xs n) [
  | none ↦ none
  | some e ↦ some (set xs n (record e { buf_payload = val }))
]

unfoldable pub update_key_page : ℕ → StringPayload → BufPage → Option (Bool × BufPage)
unfolding released position
update_key_page key val p =
    if page_count p == 0
    then some (false, released p p.cells)
    else Option.map (λ cells. (true, released p cells)) (store (position key p) val p.cells)

-- `is_sort`: neighbours from 1 to `page_count - 1`.
unfoldable pub is_sort_list : List ℕ → Bool
is_sort_list [] = true
is_sort_list (k ∷ []) = true
is_sort_list (k ∷ j ∷ ks) = if ltb j k then false else is_sort_list (j ∷ ks)

unfoldable pub is_sort : BufPage → Bool
unfolding is_sort_list
is_sort p = is_sort_list (keys_of p.cells)
