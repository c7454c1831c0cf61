-- ===== src/Merge/Skip.antt =====
-- The search for the next page with entries, and the entries of the pages that it passes over.
use pimlex_fast.Base.{
  ℕ, zero, suc, ◌+◌, ◌-◌, ◌≤◌, ◌<◌, ◌≡◌, ◌≢◌, refl, sym, arith, List, [], ◌∷◌, ◌++◌, some, ◌⊎◌, inl,
  inr, length, length-eq-zero, get_or, dec_lt, ℕ_discrete, ==_iff, ==-false,
}
use pimlex_fast.Page.{Entry, page_count}
use pimlex_fast.Host.Index.{Index}
use pimlex_fast.Merge.Defs.{skip_empty}
use pimlex_fast.Merge.Spec.{page_list}

-- The list from position `n` on.
abbrev pub rest_of : List Entry → ℕ → List Entry
rest_of xs zero = xs
rest_of [] (suc n) = []
rest_of (x ∷ xs) (suc n) = rest_of xs n

pub rest_of-next :
    (xs : List Entry) (n : ℕ) (e : Entry)
    → n < length xs
    → rest_of xs n ≡ get_or xs n e ∷ rest_of xs (suc n)
rest_of-next [] n e h = absurd (omega arith)
rest_of-next (x ∷ xs) zero e h = refl
rest_of-next (x ∷ xs) (suc n) e h = rest_of-next xs n e (omega arith)

pub rest_of-end : (xs : List Entry) (n : ℕ) → length xs ≤ n → rest_of xs n ≡ []
rest_of-end [] zero h = refl
rest_of-end [] (suc n) h = refl
rest_of-end (x ∷ xs) zero h = absurd (omega arith)
rest_of-end (x ∷ xs) (suc n) h = rest_of-end xs n (omega arith)

module _ (d : Index) (max_page_id : ℕ) where
  -- The entries of the thread's pages from `p` on.
  abbrev pub pages_from : ℕ → List Entry
  pages_from p = page_list d p (max_page_id - p)

  pages_from-cells :
      (p : ℕ) → p < max_page_id → pages_from p ≡ (d.buffer_pages p).cells ++ pages_from (p + 1)
  pages_from-cells p h = let e : max_page_id - p ≡ suc (max_page_id - (p + 1)) = omega arith in rw e

  pages_from-end : (p : ℕ) → max_page_id ≤ p → pages_from p ≡ []
  pages_from-end p h = let e : max_page_id - p ≡ 0 = omega arith in rw e

  pages_from-empty : (p : ℕ) → page_count (d.buffer_pages p) ≡ 0 → pages_from p ≡ pages_from (p + 1)
  pages_from-empty p e = elim (dec_lt p max_page_id) [
    | yes h ↦ rw (pages_from-cells p h, length-eq-zero (d.buffer_pages p).cells e)
    | no h ↦ rw (pages_from-end p (omega arith), pages_from-end (p + 1) (omega arith))
  ]

  -- What the search for a page with entries, from page `p` on, stops at.
  abbrev pub Found : ℕ → ℕ → Type 0
  Found p q =
      ((q < max_page_id)
        × (0 < page_count (d.buffer_pages q))
        × (pages_from p ≡ (d.buffer_pages q).cells ++ pages_from (q + 1)))
      ⊎ ((max_page_id ≤ q) × (pages_from p ≡ []))

  -- A page at `stop`, behind the thread's, has entries and can be read.
  module _ (readable stop : ℕ) (behind : max_page_id ≤ stop) (inside : stop < readable)
      (filled : 0 < page_count (d.buffer_pages stop)) where
    pub skip_empty-Found :
        (n p : ℕ) → p ≤ stop → stop < p + n → (q : ℕ) × (skip_empty d n p ≡ some q) × Found p q
    unfolding skip_empty
    skip_empty-Found zero p h k = absurd (omega arith)
    skip_empty-Found (suc n) p h k = elim (ℕ_discrete (page_count (d.buffer_pages p)) 0) [
      | yes e ↦
          let other : p ≢ stop =
            λ same. let f : page_count (d.buffer_pages stop) ≡ 0 = rw (sym same) e in omega arith in
          let r = skip_empty-Found n (p + 1) (omega (arith, other)) (omega arith) in
          (
            r.0,
            rw (skip_empty, (==_iff (page_count (d.buffer_pages p)) 0).1 e) r.1,
            rw (pages_from-empty p e) r.2,
          )
      | no ne ↦ (
        p,
        rw (skip_empty, ==-false (page_count (d.buffer_pages p)) 0 ne) refl,
        elim (dec_lt p max_page_id) [
          | yes l ↦ inl (l, omega (arith, ne), pages_from-cells p l)
          | no l ↦ inr (omega arith, pages_from-end p (omega arith))
        ],
      )
    ]
