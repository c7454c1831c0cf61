-- ===== src/Host/Store.antt =====
-- What the insertions of a batch keep: every page is valid, and its keys lie in its block.
use pimlex_fast.Base.{
  ℕ, ◌+◌, ◌/◌, ◌≤◌, ◌<◌, arith, List, [], ◌∷◌, Bool, true, false, ◌==◌, Bool-cases, inl, inr,
  dec_lt, dec_le, ℕ_discrete, ==_iff, ==-false, lt→leb, le→leb,
}
use pimlex_fast.Payload.{StringPayload}
use pimlex_fast.Page.{Entry, BufPage, page_count, buf_size, insert_page, released}
use pimlex_fast.Page.Insert.{
  IsValid, insert_after, insert_page-insert_after, insert_page-IsValid, insert_page-full,
}
use pimlex_fast.Dpu.Defs.{invaild_pos}
use pimlex_fast.Host.Index.{Index, set_page, covers, insert_result, place, cur_key_off, page_ratio}
use pimlex_fast.Host.Requests.{Request, val, insert_request}
use pimlex_fast.Host.Batches.{
  partition_id, insert_requests, insert_dpus, insert_payload, count_from, nr_dpus,
}

abbrev pub Within : ℕ → ℕ → List Entry → Type 0
Within lo hi [] = Unit
Within lo hi (e ∷ es) = (lo ≤ e.buf_key) × (e.buf_key < hi) × Within lo hi es

pub record IsStored (d : Index) : Type 0 where
  pub pages : (i : ℕ) → IsValid (d.buffer_pages i)
  pub blocks : (i : ℕ) → Within (d.partial_keys i) (d.partial_keys (i + 1)) (d.buffer_pages i).cells

insert_after-Within :
    (lo hi : ℕ) (e : Entry) (xs : List Entry)
    → lo ≤ e.buf_key
    → e.buf_key < hi
    → Within lo hi xs
    → Within lo hi (insert_after e xs)
insert_after-Within lo hi e [] a b w = (a, b, tt)
insert_after-Within lo hi e (x ∷ xs) a b w = elim (dec_le x.buf_key e.buf_key) [
  | yes h ↦ rw (le→leb x.buf_key e.buf_key h) (w.0, w.1, insert_after-Within lo hi e xs a b w.2)
  | no h ↦ rw (lt→leb x.buf_key e.buf_key (omega arith)) (a, b, w)
]

pub insert_page-Within :
    (lo hi key : ℕ) (v : StringPayload) (p : BufPage)
    → IsValid p
    → lo ≤ key
    → key < hi
    → Within lo hi p.cells
    → Within lo hi (insert_page key v p).1.cells
unfolding released
insert_page-Within lo hi key v p valid a b w = elim (dec_lt (page_count p) buf_size) [
  | yes h ↦
      rw (insert_page-insert_after key v p valid h)
        (insert_after-Within lo hi (record { buf_key = key; buf_payload = v }) p.cells a b w)
  | no h ↦ rw (insert_page-full key v p (omega (arith, valid.few))) w
]

-- A page is replaced by a valid one with keys in its block.
pub set_page-IsStored :
    (d : Index) (i : ℕ) (page : BufPage)
    → IsStored d
    → IsValid page
    → Within (d.partial_keys i) (d.partial_keys (i + 1)) page.cells
    → IsStored (set_page d i page)
set_page-IsStored d i page s v w = record {
  pages = λ j. elim (ℕ_discrete j i) [
    | yes e ↦ rw ((==_iff j i).1 e) v
    | no ne ↦ rw (==-false j i ne) (s.pages j)
  ];
  blocks = λ j. elim (ℕ_discrete j i) [
    | yes e ↦ rw ((==_iff j i).1 e, e) w
    | no ne ↦ rw (==-false j i ne) (s.blocks j)
  ];
}

pub insert_result-IsStored :
    (d : Index) (p i key : ℕ) (r : Bool × BufPage)
    → IsStored d
    → IsValid r.1
    → Within (d.partial_keys i) (d.partial_keys (i + 1)) r.1.cells
    → IsStored (insert_result d p i key r)
insert_result-IsStored d p i key (true, page) s v w = set_page-IsStored d i page s v w
insert_result-IsStored d p i key (false, page) s v w =
    let t = set_page-IsStored d i page s v w in record { pages = t.pages; blocks = t.blocks }

pub place-IsStored :
    (v : StringPayload) (d : Index) (p i key : ℕ) → IsStored d → IsStored (place v d p i key)
unfolding place
place-IsStored v d p i key s = elim (Bool-cases (covers d i key)) [
  | inr h ↦ rw (place, h) s
  | inl h ↦
      let c : (d.partial_keys i ≤ key) × (key < d.partial_keys (i + 1)) =
        (ground (arith, h), ground (arith, h)) in
      rw (place, h)
        (insert_result-IsStored d p i key (insert_page key v (d.buffer_pages i)) s
          (insert_page-IsValid key v (d.buffer_pages i) (s.pages i))
          (insert_page-Within (d.partial_keys i) (d.partial_keys (i + 1)) key v (d.buffer_pages i)
            (s.pages i) c.0 c.1 (s.blocks i)))
]

module _ (pgm_search : ℕ → ℕ → ℕ × ℕ) where
  insert_request-IsStored :
      (p : ℕ) (q : Request) (d : Index) → IsStored d → IsStored (insert_request pgm_search p q d)
  unfolding insert_request
  insert_request-IsStored p q d s = elim (Bool-cases (q.slot == invaild_pos)) [
    | inl h ↦
        rw (insert_request, h)
          (place-IsStored val d p (cur_key_off pgm_search d q.key / page_ratio) q.key s)
    | inr h ↦ rw (insert_request, h) (place-IsStored val d p (q.slot / page_ratio) q.key s)
  ]

  insert_requests-IsStored :
      (i : ℕ) (qs : List Request) (d : Index)
      → IsStored d
      → IsStored (insert_requests pgm_search i qs d)
  unfolding insert_requests
  insert_requests-IsStored i [] d s = s
  insert_requests-IsStored i (q ∷ qs) d s =
      insert_requests-IsStored i qs (insert_request pgm_search (partition_id d i) q d)
        (insert_request-IsStored (partition_id d i) q d s)

  insert_dpus-IsStored :
      (requests : ℕ → List Request) (order : List ℕ) (d : Index)
      → IsStored d
      → IsStored (insert_dpus pgm_search requests order d)
  unfolding insert_dpus
  insert_dpus-IsStored requests [] d s = s
  insert_dpus-IsStored requests (i ∷ order) d s =
      insert_dpus-IsStored requests order (insert_requests pgm_search i (requests i) d)
        (insert_requests-IsStored i (requests i) d s)

  -- `insert_payload` of any batch, with any answers of the DPUs and of the PGM-indexes, keeps every
  -- page valid and its keys in its block: from the sampled key of the page up to the next.
  pub insert_payload-IsStored :
      (requests : ℕ → List Request) (d : Index)
      → IsStored d
      → IsStored (insert_payload pgm_search requests d)
  unfolding insert_payload
  insert_payload-IsStored requests d s = insert_dpus-IsStored requests (count_from 0 nr_dpus) d s
