-- ===== src/Merge/Finds.antt =====
-- What the host finds after a merge.
use pimlex_fast.Base.{ℕ, ◌<◌, ◌≡◌, List, [], ◌∷◌, some, ◌⊎◌, get_elem?}
use pimlex_fast.Page.{Entry}
use pimlex_fast.Host.Index.{Index}
use pimlex_fast.Merge.Defs.{num_buf_pages, old_entry}

-- The entry stands in the list.
abbrev In : Entry → List Entry → Type 0
In e [] = ⊥
In e (x ∷ xs) = (e ≡ x) ⊎ In e xs

-- The entry is in the array or in a page of the index.
abbrev pub IsHeld : Index → Entry → Type 0
IsHeld d e =
    ((i : ℕ) × (i < d.total_size) × (old_entry d i ≡ e))
    ⊎ ((p : ℕ) × (i : ℕ) × (p < num_buf_pages d) × (get_elem? (d.buffer_pages p).cells i ≡ some e))
