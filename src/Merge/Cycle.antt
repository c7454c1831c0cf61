-- ===== src/Merge/Cycle.antt =====
-- What keeps an index ready for the next merge: the bulk load, the insertions, and a merge itself.
use pimlex_fast.Base.{
  ◌^◌, ℕ, zero, suc, ◌+◌, ◌/◌, ◌^◌, ◌≤◌, ◌<◌, ◌≡◌, ◌≢◌, refl, arith, List, [], ◌∷◌, Bool, true,
  false, ◌==◌, leb, Bool-cases, inl, inr, dec_lt, dec_le, ℕ_discrete, ==_iff, ==-false, lt→leb,
  le→leb, lt→ltb, le→ltb,
}
use pimlex_fast.Search.Lower.{StrictOn}
use pimlex_fast.Payload.{StringPayload}
use pimlex_fast.Page.{Entry, BufPage, page_count, init, buf_size, insert_page, released}
use pimlex_fast.Page.Insert.{IsValid, insert_after, insert_page-insert_after, insert_page-full}
use pimlex_fast.Routing.Defs.{ReplicasInfo}
use pimlex_fast.Host.Index.{
  Index, set_page, covers, insert_result, place, before, cur_key_off, page_ratio,
}
use pimlex_fast.Dpu.Defs.{invaild_pos}
use pimlex_fast.Host.Requests.{Request, val, insert_request}
use pimlex_fast.Host.Bound.{IsLoaded, partial-StrictOn}
use pimlex_fast.Host.Bulk.{bulk_load_for_dpu}
use pimlex_fast.Host.Fresh.{bulk_load_for_dpu-IsLoaded}
use pimlex_fast.Merge.Defs.{num_buf_pages, new_total_size}
use pimlex_fast.Merge.Spec.{page_list, Chain, Absent}
use pimlex_fast.Merge.Ranges.{new_total_size_lem}
use pimlex_fast.Merge.Chains.{IsMergeable}
use pimlex_fast.Merge.Result.{IsMerged}

-- With new pages, all empty.
module _ (d : Index) (loaded : IsLoaded d) (exact : d.partial_total_size ≡ d.total_size / 8)
    (pages : (j : ℕ) → j < num_buf_pages d → d.buffer_pages j ≡ init)
    (filled : 0 < page_count (d.buffer_pages (num_buf_pages d))) where
  page_list-empty : (p n : ℕ) → p + n ≤ num_buf_pages d → page_list d p n ≡ []
  unfolding init
  page_list-empty p zero h = refl
  page_list-empty p (suc n) h = rw (pages p (omega arith)) (page_list-empty (p + 1) n (omega arith))

  empty-IsMergeable : IsMergeable d
  unfolding init
  empty-IsMergeable =
      let none = page_list-empty 0 (num_buf_pages d) (omega arith) in
      let total = new_total_size_lem d loaded.small (omega (arith, loaded.slices, loaded.whole)) in
      record {
        exact = exact;
        ascends = λ i h. rw (pages i (omega (arith, exact, h))) (
            omega (
              arith,
              partial-StrictOn d loaded i (i + 1) (omega arith) (omega arith) (omega (arith, h)),
            ));
        last = λ i h k. rw (pages i k) refl;
        fresh = λ i j h k. rw (pages j k) tt;
        fits = let plain = rw none at total in omega (arith, plain, loaded.small);
        filled = filled;
      }

-- A freshly loaded index can be merged.
pub bulk_load_for_dpu-IsMergeable :
    (behind : ℕ → BufPage) (sorted : ℕ → ℕ) (n : ℕ) (partial_keys : ℕ → ℕ) (d : Index)
    → StrictOn sorted 0 n
    → 1024 ≤ n
    → n + 8 ≤ 2 ^ 31
    → 0 < page_count (behind (n / 8 + 1))
    → IsMergeable (bulk_load_for_dpu behind sorted n partial_keys d)
unfolding bulk_load_for_dpu
bulk_load_for_dpu-IsMergeable behind sorted n partial_keys d s h k f =
    empty-IsMergeable (bulk_load_for_dpu behind sorted n partial_keys d)
      (bulk_load_for_dpu-IsLoaded behind sorted n partial_keys d s h k) refl
      (λ j l. rw (lt→ltb j (n / 8 + 1) l) refl)
      (rw (le→ltb (n / 8 + 1) (n / 8 + 1) (omega arith)) f)

-- What a merge leaves can be merged again.
IsMerged-IsMergeable :
    (counts : List ℕ) (made : ReplicasInfo) (behind : ℕ → BufPage) (vals : ℕ → StringPayload)
    (trained : ℕ → ℕ → ℕ × ℕ) (d d' : Index)
    → IsMerged counts made behind vals trained d d'
    → 0 < page_count (behind (num_buf_pages d'))
    → IsMergeable d'
IsMerged-IsMergeable counts made behind vals trained d d' r f =
    empty-IsMergeable d' r.loaded r.exact r.pages
      (rw (r.outside (num_buf_pages d') (omega arith)) f)

insert_after-Chain :
    (lo hi : ℕ) (e : Entry) (xs : List Entry)
    → Chain lo hi xs
    → lo ≤ e.buf_key
    → e.buf_key < hi
    → Absent e.buf_key xs
    → Chain lo hi (insert_after e xs)
insert_after-Chain lo hi e [] c h k a = (h, k)
insert_after-Chain lo hi e (x ∷ xs) c h k a = elim (dec_le x.buf_key e.buf_key) [
  | yes l ↦
      rw (le→leb x.buf_key e.buf_key l)
        (c.0, insert_after-Chain (suc x.buf_key) hi e xs c.1 (omega (arith, a.0)) k a.1)
  | no l ↦ rw (lt→leb x.buf_key e.buf_key (omega arith)) (h, (omega arith, c.1))
]

insert_after-Absent :
    (k : ℕ) (e : Entry) (xs : List Entry)
    → k ≢ e.buf_key
    → Absent k xs
    → Absent k (insert_after e xs)
insert_after-Absent k e [] h a = (h, tt)
insert_after-Absent k e (x ∷ xs) h a = elim (Bool-cases (leb x.buf_key e.buf_key)) [
  | inl l ↦ rw l (a.0, insert_after-Absent k e xs h a.1)
  | inr l ↦ rw l (h, a)
]

-- The cells of the page that an insertion leaves.
abbrev IsFine : Index → ℕ → List Entry → Type 0
IsFine d i cells =
    Chain (d.partial_keys i) (d.partial_keys (i + 1)) cells
    × ((k : ℕ) → k < d.total_size → Absent (d.keys k) cells)

set_page-IsMergeable :
    (d : Index) (i : ℕ) (page : BufPage)
    → IsMergeable d
    → suc i < d.partial_total_size
    → IsFine d i page.cells
    → new_total_size (set_page d i page) < 2 ^ 32
    → IsMergeable (set_page d i page)
set_page-IsMergeable d i page m h fine f = record {
  exact = m.exact;
  ascends = λ j k. elim (ℕ_discrete j i) [
    | yes e ↦ rw ((==_iff j i).1 e, e) fine.0
    | no ne ↦ rw (==-false j i ne) (m.ascends j k)
  ];
  last = λ j k l. rw (==-false j i (omega arith)) (m.last j k l);
  fresh = λ k j l u. elim (ℕ_discrete j i) [
    | yes e ↦ rw ((==_iff j i).1 e) (fine.1 k l)
    | no ne ↦ rw (==-false j i ne) (m.fresh k j l u)
  ];
  fits = f;
  filled = rw (==-false (num_buf_pages d) i (omega (arith, m.exact))) m.filled;
}

insert_result-IsMergeable :
    (d : Index) (p i key : ℕ) (r : Bool × BufPage)
    → IsMergeable d
    → suc i < d.partial_total_size
    → IsFine d i r.1.cells
    → new_total_size (insert_result d p i key r) < 2 ^ 32
    → IsMergeable (insert_result d p i key r)
insert_result-IsMergeable d p i key (true, page) m h fine f =
    set_page-IsMergeable d i page m h fine f
insert_result-IsMergeable d p i key (false, page) m h fine f =
    let t = set_page-IsMergeable d i page m h fine f in
    record {
      exact = t.exact;
      ascends = t.ascends;
      last = t.last;
      fresh = t.fresh;
      fits = f;
      filled = t.filled;
    }

-- The key of an insertion is nowhere in the array or the pages.
abbrev pub IsNew : Index → ℕ → Type 0
IsNew d key =
    ((i : ℕ) → i < d.total_size → d.keys i ≢ key)
    × ((j : ℕ) → j < num_buf_pages d → Absent key (d.buffer_pages j).cells)

insert_page-IsFine :
    (d : Index) (i key : ℕ) (v : StringPayload)
    → IsMergeable d
    → IsValid (d.buffer_pages i)
    → suc i < d.partial_total_size
    → d.partial_keys i ≤ key
    → key < d.partial_keys (i + 1)
    → IsNew d key
    → IsFine d i (insert_page key v (d.buffer_pages i)).1.cells
unfolding released
insert_page-IsFine d i key v m valid h lo hi new =
    let p : BufPage = d.buffer_pages i in
    let e : Entry = record { buf_key = key; buf_payload = v } in
    let inside : i < num_buf_pages d = omega (arith, m.exact) in
    elim (dec_lt (page_count p) buf_size) [
      | yes k ↦ rw (insert_page-insert_after key v p valid k) (
        insert_after-Chain (d.partial_keys i) (d.partial_keys (i + 1)) e p.cells (m.ascends i h) lo
            hi (new.1 i inside),
        λ j l. insert_after-Absent (d.keys j) e p.cells (new.0 j l) (m.fresh j i l inside),
      )
      | no k ↦
          rw (insert_page-full key v p (omega (arith, valid.few)))
            (m.ascends i h, λ j l. m.fresh j i l inside)
    ]

place-IsMergeable :
    (v : StringPayload) (d : Index) (p i key : ℕ)
    → IsLoaded d
    → IsMergeable d
    → ((i : ℕ) → i < num_buf_pages d → IsValid (d.buffer_pages i))
    → IsNew d key
    → new_total_size (place v d p i key) < 2 ^ 32
    → IsMergeable (place v d p i key)
unfolding place
place-IsMergeable v d p i key loaded m valid new f = elim (Bool-cases (covers d i key)) [
  | inr h ↦ rw (place, h) m
  | inl h ↦
      let c : (d.partial_keys i ≤ key) × (key < d.partial_keys (i + 1)) =
        (ground (arith, h), ground (arith, h)) in
      let inner : suc i < d.partial_total_size =
        let g : i < before d.partial_total_size = ground (arith, h) in
        omega (arith, g, loaded.slices, loaded.whole, loaded.small) in
      rw (place, h)
        (insert_result-IsMergeable d p i key (insert_page key v (d.buffer_pages i)) m inner
          (insert_page-IsFine d i key v m (valid i (omega (arith, inner, m.exact))) inner c.0 c.1
            new)
          (rw (place, h) at f))
]

-- An insertion of a new key in a loaded index that can be merged, with any answers of the DPU and of
-- the PGM-indexes, leaves one that can be merged, as long as its pages are valid and the sizes fit in 32 bits.
pub insert_request-IsMergeable :
    (pgm_search : ℕ → ℕ → ℕ × ℕ) (p : ℕ) (q : Request) (d : Index)
    → IsLoaded d
    → IsMergeable d
    → ((i : ℕ) → i < num_buf_pages d → IsValid (d.buffer_pages i))
    → IsNew d q.key
    → new_total_size (insert_request pgm_search p q d) < 2 ^ 32
    → IsMergeable (insert_request pgm_search p q d)
unfolding insert_request
insert_request-IsMergeable pgm_search p q d loaded m valid new f =
    elim (Bool-cases (q.slot == invaild_pos)) [
      | inl h ↦
          rw (insert_request, h)
            (place-IsMergeable val d p (cur_key_off pgm_search d q.key / page_ratio) q.key loaded m
              valid new (rw (insert_request, h) at f))
      | inr h ↦
          rw (insert_request, h)
            (place-IsMergeable val d p (q.slot / page_ratio) q.key loaded m valid new
              (rw (insert_request, h) at f))
    ]
