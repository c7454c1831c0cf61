-- ===== src/Host/Index.antt =====
-- `DRAM_index` with the partition level and the payload locks, and the search that the host makes
-- itself, through its PGM-indexes. `PGMIndex::search` of a partition is a parameter: the `lo` and
-- the `hi` of its result.
use mathlib.Core.Option
use pimlex_fast.Base.{
  ℕ, zero, suc, ◌+◌, ◌-◌, ◌*◌, ◌/◌, ◌%◌, ◌^◌, Option, none, some, Bool, true, false, ◌&&◌, ltb, leb,
  ◌==◌, if◌then◌else◌,
}
use pimlex_fast.Search.{upper_bound}
use pimlex_fast.Payload.{StringPayload}
use pimlex_fast.Page.{BufPage, find_key_page, insert_page}
use pimlex_fast.Tree.Defs.{Node, lookup, insert}
use pimlex_fast.Routing.Defs.{
  DramLevel, nr_partition, search_upper_level_get_partition, clamp_partition,
}

abbrev pub interleave : ℕ
interleave = 8

abbrev pub page_ratio : ℕ
page_ratio = 8

pub record Index : Type 0 where
  pub keys : ℕ → ℕ
  pub payloads : ℕ → StringPayload
  pub total_size : ℕ
  pub partial_keys : ℕ → ℕ
  pub partial_total_size : ℕ
  pub buffer_pages : ℕ → BufPage
  pub opt_overflow_trees : ℕ → Node
  pub upper_dram_level : DramLevel
  pub lock_arr : ℕ → ℕ

abbrev pub set_page : Index → ℕ → BufPage → Index
set_page d i page = record d { buffer_pages = λ j. if j == i then page else d.buffer_pages j }

abbrev pub set_tree : Index → ℕ → Node → Index
set_tree d i tree = record d {
  opt_overflow_trees = λ j. if j == i then tree else d.opt_overflow_trees j;
}

-- `x - 1` on size_t.
abbrev pub before : ℕ → ℕ
before x = (x + 2 ^ 64 - 1) % 2 ^ 64

abbrev pub per_dpu_input_size : Index → ℕ
per_dpu_input_size d = d.partial_total_size / nr_partition

abbrev pub partition_of : Index → ℕ → ℕ
partition_of d key =
    clamp_partition nr_partition (search_upper_level_get_partition key d.upper_dram_level)

-- The first of the 8 positions from `off` on where the key stands; positions wrap at `word`.
unfoldable pub scan_block : Index → ℕ → ℕ → ℕ → ℕ → ℕ → Option ℕ
scan_block d word off key k zero = none
scan_block d word off key k (suc n) =
    let rest = scan_block d word off key (k + 1) n in
    let at : ℕ = (off + k) % word in
    if ltb at d.total_size && (d.keys at == key) then some at else rest

module _ (pgm_search : ℕ → ℕ → ℕ × ℕ) where
  abbrev pub window_lo : Index → ℕ → ℕ
  window_lo d key =
      (pgm_search (partition_of d key) key).0 + per_dpu_input_size d * partition_of d key

  abbrev pub window_hi : Index → ℕ → ℕ
  window_hi d key =
      (pgm_search (partition_of d key) key).1 + per_dpu_input_size d * partition_of d key

  -- The `l` that the bisection of the sampled keys leaves.
  unfoldable pub dram_bound : Index → ℕ → ℕ
  dram_bound d key = upper_bound d.partial_keys key (window_lo d key) (
      if leb d.partial_total_size (window_hi d key)
      then before d.partial_total_size
      else window_hi d key)

  -- `(l - 1) * INTERLEAVE` on size_t.
  unfoldable pub cur_key_off : Index → ℕ → ℕ
  cur_key_off d key = before (dram_bound d key) * interleave % 2 ^ 64

  unfoldable pub dram_hit : Index → ℕ → Option ℕ
  dram_hit d key = scan_block d (2 ^ 64) (cur_key_off d key) key 0 interleave

-- `find_key_page`, and the `lookup` of the overflow tree when it reports no hit: the two results.
abbrev pub find_result : Index → ℕ → ℕ → ℕ → Bool × BufPage → Option ((Bool × Bool) × Index)
find_result d partition_id ipos key (true, page) = some ((true, false), set_page d ipos page)
find_result d partition_id ipos key (false, page) =
    Option.map (λ there. ((false, there), set_page d ipos page))
      (lookup key (d.opt_overflow_trees partition_id))

unfoldable pub find_overflow : Index → ℕ → ℕ → ℕ → Option ((Bool × Bool) × Index)
find_overflow d partition_id ipos key =
    find_result d partition_id ipos key (find_key_page key (d.buffer_pages ipos))

-- `insert_page`, and the `insert` of the overflow tree when the page is full.
abbrev pub insert_result : Index → ℕ → ℕ → ℕ → Bool × BufPage → Index
insert_result d partition_id ipos key (true, page) = set_page d ipos page
insert_result d partition_id ipos key (false, page) =
    set_tree (set_page d ipos page) partition_id (insert key (d.opt_overflow_trees partition_id)).1

-- The guard of every insertion: the page covers the key, and it is not the last one.
abbrev pub covers : Index → ℕ → ℕ → Bool
covers d ipos key =
    ltb ipos (before d.partial_total_size)
    && (leb (d.partial_keys ipos) key && ltb key (d.partial_keys (ipos + 1)))

unfoldable pub place : StringPayload → Index → ℕ → ℕ → ℕ → Index
place val d partition_id ipos key =
    if covers d ipos key
    then insert_result d partition_id ipos key (insert_page key val (d.buffer_pages ipos))
    else d
