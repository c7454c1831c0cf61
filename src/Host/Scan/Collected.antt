-- ===== src/Host/Scan/Collected.antt =====
-- Which keys a scan collects: those of its range from the array and the first page, and of the pages of
-- the blocks that it walks over.
use mathlib.Core.List.Memᴰ
use mathlib.Core.List.{Memᴰ}
use pimlex_fast.Base.{ℕ, ◌/◌, ◌%◌, ◌≤◌, ◌<◌, ◌≡◌, List, [], ◌==◌, if◌then◌else◌, ◌⊎◌}
use pimlex_fast.Host.Index.{Index, interleave, page_ratio}
use pimlex_fast.Host.Requests.{Request}
use pimlex_fast.Host.Scan.{page_keys}
use pimlex_fast.Host.Scan.Pages.{Stored}

module _ (d : Index) (lo hi : ℕ) where
  -- From the array, or from the page of a block that begins at `j`.
  pub record IsWalked (j k : ℕ) : Type 0 where
    pub before_end : d.keys j < hi
    pub from :
        (d.keys j ≡ k)
        ⊎ ((j % interleave ≡ 0) × Stored (d.buffer_pages (j / page_ratio)).cells k × (lo < k))

  abbrev block : ℕ → List ℕ
  block at =
      if at % interleave == 0 then page_keys lo (d.buffer_pages (at / page_ratio)).cells else []

-- What a scan from the DPU's answer is to collect: the keys of its range in the first page, and when the
-- first key of the block is in the range, what the walk from there passes.
pub data Collected (d : Index) (q : Request) (max_key k : ℕ) : Type 0 where
  in_first_page :
      Stored (d.buffer_pages (q.slot / page_ratio)).cells k
      → q.key ≤ k
      → k < max_key
      → Collected d q max_key k
  in_walk :
      (j : ℕ)
      → q.key ≤ d.keys q.slot
      → q.slot ≤ j
      → j < d.total_size
      → IsWalked d q.key max_key j k
      → Collected d q max_key k
