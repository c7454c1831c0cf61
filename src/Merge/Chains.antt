-- ===== src/Merge/Chains.antt =====
-- An index that can be merged: its keys and the entries of its pages ascend range by range, so that
-- the ranges of the threads can be merged apart.
use pimlex_fast.Base.{
  ℕ, zero, suc, ◌+◌, ◌-◌, ◌*◌, ◌/◌, ◌^◌, ◌≤◌, ◌<◌, ◌≡◌, refl, arith, List, [], ◌∷◌, ◌++◌, ltb,
  if◌then◌else◌, dec_lt, ℕ_discrete, lt→ltb, le→ltb,
}
use pimlex_fast.Page.{Entry, page_count}
use pimlex_fast.Host.Index.{Index}
use pimlex_fast.Host.Bound.{IsLoaded}
use pimlex_fast.Merge.Defs.{num_buf_pages, new_total_size}
use pimlex_fast.Merge.Spec.{old_list, page_list, Chain, Absent, Apart, Chain-append}

-- Every page ascends within its block, the pages from the last sampled key on are empty, and no key of
-- the array is in a page. The sizes fit in 32 bits, and the memory behind the pages reads as a page
-- with entries.
pub record IsMergeable (d : Index) : Type 0 where
  pub exact : d.partial_total_size ≡ d.total_size / 8
  pub ascends :
      (i : ℕ)
      → suc i < d.partial_total_size
      → Chain (d.partial_keys i) (d.partial_keys (i + 1)) (d.buffer_pages i).cells
  pub last :
      (i : ℕ) → d.partial_total_size ≤ suc i → i < num_buf_pages d → (d.buffer_pages i).cells ≡ []
  pub fresh :
      (i j : ℕ)
      → i < d.total_size
      → j < num_buf_pages d
      → Absent (d.keys i) (d.buffer_pages j).cells
  pub fits : new_total_size d < 2 ^ 32
  pub filled : 0 < page_count (d.buffer_pages (num_buf_pages d))

Absent-append : (k : ℕ) (xs ys : List Entry) → Absent k xs → Absent k ys → Absent k (xs ++ ys)
Absent-append k [] ys a b = b
Absent-append k (x ∷ xs) ys a b = (a.0, Absent-append k xs ys a.1 b)

module _ (d : Index) (loaded : IsLoaded d) (m : IsMergeable d) where
  pub large : 1024 ≤ d.total_size
  large = omega (arith, loaded.slices, loaded.whole)

  page_list-Absent :
      (k p n : ℕ)
      → ((j : ℕ) → j < num_buf_pages d → Absent k (d.buffer_pages j).cells)
      → p + n ≤ num_buf_pages d
      → Absent k (page_list d p n)
  page_list-Absent k p zero a h = tt
  page_list-Absent k p (suc n) a h =
      Absent-append k (d.buffer_pages p).cells (page_list d (p + 1) n) (a p (omega arith))
        (page_list-Absent k (p + 1) n a (omega arith))

  pub lists-Apart :
      (i n p l : ℕ)
      → i + n ≤ d.total_size
      → p + l ≤ num_buf_pages d
      → Apart (old_list d i n) (page_list d p l)
  lists-Apart i zero p l h k = tt
  lists-Apart i (suc n) p l h k = (
    page_list-Absent (d.keys i) p l (λ j. m.fresh i j (omega arith)) k,
    lists-Apart (i + 1) n p l (omega arith) k,
  )

  abbrev pub top : ℕ
  top = suc (d.keys (d.total_size - 1))

  pub keys-top : (i : ℕ) → i < d.total_size → d.keys i < top
  keys-top i h = elim (ℕ_discrete i (d.total_size - 1)) [
    | yes e ↦ rw e (omega arith)
    | no ne ↦
        omega (arith, loaded.sorted i (d.total_size - 1) (omega arith) (omega arith) (omega arith))
  ]

  -- The first key that may be in page `p` or behind it.
  abbrev pub edge : ℕ → ℕ
  edge p = if ltb p d.partial_total_size then d.partial_keys p else top

  pub edge-sampled : (p : ℕ) → p < d.partial_total_size → edge p ≡ d.keys (p * 8)
  edge-sampled p h = rw (lt→ltb p d.partial_total_size h) (loaded.sampled p h)

  pub edge-top : (p : ℕ) → d.partial_total_size ≤ p → edge p ≡ top
  edge-top p h = rw (le→ltb p d.partial_total_size h) refl

  pub edge-upto-top : (p : ℕ) → edge p ≤ top
  edge-upto-top p = elim (dec_lt p d.partial_total_size) [
    | yes h ↦ rw (edge-sampled p h) (omega (arith, keys-top (p * 8) (omega (arith, loaded.whole))))
    | no h ↦ rw (edge-top p (omega arith)) (omega arith)
  ]

  cells-Chain :
      (p : ℕ) → p < num_buf_pages d → Chain (edge p) (edge (p + 1)) (d.buffer_pages p).cells
  cells-Chain p h = elim (dec_lt (suc p) d.partial_total_size) [
    | yes k ↦
        rw
          (
            lt→ltb p d.partial_total_size (omega arith),
            lt→ltb (p + 1) d.partial_total_size (omega arith),
          )
          (m.ascends p k)
    | no k ↦ rw (m.last p (omega arith) h, edge-top (p + 1) (omega arith)) (edge-upto-top p)
  ]

  pub page_list-Chain :
      (p n : ℕ) → p + n ≤ num_buf_pages d → Chain (edge p) (edge (p + n)) (page_list d p n)
  page_list-Chain p zero h = let e : p + 0 ≡ p = omega arith in rw e (omega arith)
  page_list-Chain p (suc n) h =
      let e : p + suc n ≡ p + 1 + n = omega arith in
      rw e (
        Chain-append (edge p) (edge (p + 1)) (edge (p + 1 + n)) (d.buffer_pages p).cells
          (page_list d (p + 1) n) (cells-Chain p (omega arith))
          (page_list-Chain (p + 1) n (omega arith)))

  pub old_list-Chain :
      (lo hi i n : ℕ)
      → lo ≤ hi
      → i + n ≤ d.total_size
      → ((j : ℕ) → i ≤ j → j < i + n → (lo ≤ d.keys j) × (d.keys j < hi))
      → Chain lo hi (old_list d i n)
  old_list-Chain lo hi i zero h k w = h
  old_list-Chain lo hi i (suc n) h k w =
      let here = w i (omega arith) (omega arith) in
      (
        here.0,
        old_list-Chain (suc (d.keys i)) hi (i + 1) n here.1 (omega arith) (λ j u v. (
          loaded.sorted i j (omega arith) (omega arith) (omega arith),
          (w j (omega arith) (omega arith)).1,
        )),
      )
