-- ===== src/Merge/Fault.antt =====
-- The search of a merge thread for a page with entries: it ends where there is one, and faults where
-- there is none.
use pimlex_fast.Base.{
  ℕ, zero, suc, ◌+◌, ◌-◌, ◌≤◌, ◌<◌, ◌≡◌, refl, sym, arith, none, some, ==_iff, ==-false, ℕ_discrete,
}
use pimlex_fast.Page.{Entry, page_count}
use pimlex_fast.Host.Index.{Index}
use pimlex_fast.Merge.Defs.{skip_empty, first_page, merge_thread}

skip_empty-none :
    (d : Index) (n p : ℕ)
    → ((i : ℕ) → p ≤ i → i < p + n → page_count (d.buffer_pages i) ≡ 0)
    → skip_empty d n p ≡ none
unfolding skip_empty
skip_empty-none d zero p empty = refl
skip_empty-none d (suc n) p empty =
    rw
      (
        skip_empty,
        (==_iff (page_count (d.buffer_pages p)) 0).1 (empty p (omega arith) (omega arith)),
      )
      (skip_empty-none d n (p + 1) (λ i h k. empty i (omega arith) (omega arith)))

-- A merge thread reads behind the pages that it may read, when all of them from its first one on are
-- empty.
pub merge_thread-none :
    (d : Index) (readable : ℕ) (unset : Entry) (tid : ℕ)
    → ((i : ℕ) → first_page d tid ≤ i → i < readable → page_count (d.buffer_pages i) ≡ 0)
    → merge_thread d readable unset tid ≡ none
unfolding merge_thread
merge_thread-none d readable unset tid empty =
    rw
      (
        merge_thread,
        skip_empty-none d (readable - first_page d tid) (first_page d tid)
            (λ i h k. empty i h (omega arith)),
      )
      refl

-- The search from page `p` on ends at the first page with entries, when one can be read.
skip_empty-first :
    (d : Index) (n p stop : ℕ)
    → p ≤ stop
    → stop < p + n
    → 0 < page_count (d.buffer_pages stop)
    → (q : ℕ) × (skip_empty d n p ≡ some q)
      × (p ≤ q)
      × (q ≤ stop)
      × (0 < page_count (d.buffer_pages q))
      × ((i : ℕ) → p ≤ i → i < q → page_count (d.buffer_pages i) ≡ 0)
unfolding skip_empty
skip_empty-first d zero p stop h k f = absurd (omega arith)
skip_empty-first d (suc n) p stop h k f = elim (ℕ_discrete (page_count (d.buffer_pages p)) 0) [
  | no ne ↦ (
    p,
    rw (skip_empty, ==-false (page_count (d.buffer_pages p)) 0 ne) refl,
    omega arith,
    h,
    omega (arith, ne),
    λ i u v. absurd (omega arith),
  )
  | yes e ↦
      let later : p < stop = elim (ℕ_discrete p stop) [
        | yes same ↦
            let g : page_count (d.buffer_pages stop) ≡ 0 = rw (sym same) e in absurd (omega arith)
        | no ne ↦ omega arith
      ] in
      let r = skip_empty-first d n (p + 1) stop (omega arith) (omega arith) f in
      (
        r.0,
        rw (skip_empty, (==_iff (page_count (d.buffer_pages p)) 0).1 e) r.1,
        omega (arith, r.2),
        r.3,
        r.4,
        λ i u v. elim (ℕ_discrete i p) [ yes same ↦ rw same e | no ne ↦ r.5 i (omega arith) v ],
      )
]
