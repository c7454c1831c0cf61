-- ===== src/Host/Scan.antt =====
-- `scan_payload`: the keys that a scan from the DPU's answer collects, before they are sorted.
pub mod Pages
pub mod Collected
use pimlex_fast.Base.{
  ℕ, zero, suc, ◌+◌, ◌-◌, ◌/◌, ◌%◌, List, [], ◌∷◌, ◌++◌, Option, none, some, ltb, leb, ◌==◌, ◌&&◌,
  if◌then◌else◌, length,
}
use pimlex_fast.Page.{Entry}
use pimlex_fast.Dpu.Defs.{invaild_pos}
use pimlex_fast.Host.Index.{Index, interleave, page_ratio}
use pimlex_fast.Host.Requests.{Request}

abbrev pub max_scan_length : ℕ
max_scan_length = 100

-- The keys of the first page from `min_key` on and below `max_key`.
abbrev pub first_page_keys : ℕ → ℕ → List Entry → List ℕ
first_page_keys min_key max_key [] = []
first_page_keys min_key max_key (e ∷ es) =
    let rest = first_page_keys min_key max_key es in
    if leb min_key e.buf_key && ltb e.buf_key max_key then e.buf_key ∷ rest else rest

-- The keys of a later page: there is no test against `max_key`.
abbrev pub page_keys : ℕ → List Entry → List ℕ
page_keys min_key [] = []
page_keys min_key (e ∷ es) =
    let rest = page_keys min_key es in if ltb min_key e.buf_key then e.buf_key ∷ rest else rest

-- The walk over the keys from `cur_pos` on, with `n` positions to the end of the array; the page of
-- a block is read at its first key.
unfoldable pub walk : Index → ℕ → ℕ → ℕ → ℕ → List ℕ
walk d min_key max_key zero cur_pos = []
walk d min_key max_key (suc n) cur_pos =
    let rest = walk d min_key max_key n (cur_pos + 1) in
    let here : List ℕ =
      if cur_pos % interleave == 0
      then page_keys min_key (d.buffer_pages (cur_pos / page_ratio)).cells
      else [] in
    if leb min_key (d.keys cur_pos) && ltb (d.keys cur_pos) max_key
    then d.keys cur_pos ∷ (here ++ rest)
    else []

-- One request with its end key. The results have 100 cells: `none` is a store behind them. The
-- overflow tree adds nothing, as `Tree.Collect` shows.
unfoldable pub scan_request : Index → Request → ℕ → Option (List ℕ)
unfolding walk
scan_request d q max_key =
    if q.slot == invaild_pos
    then some []
    else (let found : List ℕ =
          first_page_keys q.key max_key (d.buffer_pages (q.slot / page_ratio)).cells
          ++ walk d q.key max_key (d.total_size - q.slot) q.slot in
        if leb (length found) max_scan_length then some found else none)
