-- ===== src/Host/Keeps.antt =====
-- What the steps of a mixed batch keep: the arrays, and that every page is valid with its keys in its block.
use pimlex_fast.Base.{
  ℕ, zero, suc, ◌+◌, ◌≡◌, refl, sym, ap, ◌∙◌, arith, List, [], ◌∷◌, Option, none, some, Bool, true,
  false, ◌==◌, length, length-map, get_elem?, set, Bool-cases, Option-cases, inl, inr,
}
use pimlex_fast.Payload.{StringPayload}
use pimlex_fast.Page.{
  Entry, BufPage, keys_of, released, store, insert_page, find_key_page, update_key_page, page_count,
  position,
}
use pimlex_fast.Page.Insert.{IsValid}
use pimlex_fast.Tree.Defs.{Node, lookup, update}
use pimlex_fast.Host.Index.{Index, set_page, set_tree, find_overflow, place, covers, insert_result}
use pimlex_fast.Host.Requests.{pret}
use pimlex_fast.Host.Mix.{write_payload, update_overflow, overflow_op}
use pimlex_fast.Host.Store.{IsStored, Within, set_page-IsStored, place-IsStored}

set-keys :
    (n : ℕ) (e : Entry) (v : StringPayload) (xs : List Entry)
    → get_elem? xs n ≡ some e
    → keys_of (set xs n (record e { buf_payload = v })) ≡ keys_of xs
set-keys n e v [] h = refl
set-keys zero e v (x ∷ xs) h =
    let same : x ≡ e = cc in ap (λ (y : Entry). y.buf_key ∷ keys_of xs) (sym same)
set-keys (suc n) e v (x ∷ xs) h = ap (λ ks. x.buf_key ∷ ks) (set-keys n e v xs h)

set-Within :
    (lo hi n : ℕ) (e : Entry) (v : StringPayload) (xs : List Entry)
    → get_elem? xs n ≡ some e
    → Within lo hi xs
    → Within lo hi (set xs n (record e { buf_payload = v }))
set-Within lo hi n e v [] h w = w
set-Within lo hi zero e v (x ∷ xs) h w =
    let same : x ≡ e = cc in rw (sym (ap (λ (y : Entry). y.buf_key) same)) w
set-Within lo hi (suc n) e v (x ∷ xs) h w = (w.0, w.1, set-Within lo hi n e v xs h w.2)

-- A page whose keys stay is as valid as before.
same_keys-IsValid : (p q : BufPage) → keys_of q.cells ≡ keys_of p.cells → IsValid p → IsValid q
same_keys-IsValid p q e valid =
    let len : page_count q ≡ page_count p =
      sym (length-map (λ (x : Entry). x.buf_key) q.cells)
      ∙ ap (λ ks. length ks) e
      ∙ length-map (λ (x : Entry). x.buf_key) p.cells in
    record { few = omega (arith, len, valid.few); sorted = rw (e, len) (valid.sorted) }

-- The arrays of the index stay, and its pages are valid with their keys in their blocks.
pub record Keeps (d d' : Index) : Type 0 where
  pub stored : IsStored d'
  pub keys : d'.keys ≡ d.keys
  pub total_size : d'.total_size ≡ d.total_size
  pub partial_keys : d'.partial_keys ≡ d.partial_keys

-- The result of a step, if it returns.
abbrev pub Returned : {X : Type 0} → Index → Option (X × Index) → Type 0
Returned d none = Unit
Returned d (some (x, d')) = Keeps d d'

pub Keeps-self : (d : Index) → IsStored d → Keeps d d
Keeps-self d s = record { stored = s; keys = refl; total_size = refl; partial_keys = refl }

pub Keeps-both : (d e f : Index) → Keeps d e → Keeps e f → Keeps d f
Keeps-both d e f k l = record {
  stored = l.stored;
  keys = l.keys ∙ k.keys;
  total_size = l.total_size ∙ k.total_size;
  partial_keys = l.partial_keys ∙ k.partial_keys;
}

set_page-Keeps :
    (d : Index) (i : ℕ) (page : BufPage)
    → IsStored d
    → IsValid page
    → Within (d.partial_keys i) (d.partial_keys (i + 1)) page.cells
    → Keeps d (set_page d i page)
set_page-Keeps d i page s v w = record {
  stored = set_page-IsStored d i page s v w;
  keys = refl;
  total_size = refl;
  partial_keys = refl;
}

-- A page with the cells that it had.
released-Keeps :
    (d : Index) (i : ℕ)
    → IsStored d
    → Keeps d (set_page d i (released (d.buffer_pages i) (d.buffer_pages i).cells))
unfolding released
released-Keeps d i s =
    set_page-Keeps d i (released (d.buffer_pages i) (d.buffer_pages i).cells) s
      (same_keys-IsValid (d.buffer_pages i) (released (d.buffer_pages i) (d.buffer_pages i).cells)
        refl (s.pages i))
      (s.blocks i)

set_tree-Keeps : (d : Index) (p : ℕ) (tree : Node) → IsStored d → Keeps d (set_tree d p tree)
set_tree-Keeps d p tree s = record {
  stored = record { pages = s.pages; blocks = s.blocks };
  keys = refl;
  total_size = refl;
  partial_keys = refl;
}

pub write_payload-Keeps : (d : Index) (cell at : ℕ) → IsStored d → Keeps d (write_payload d cell at)
unfolding write_payload
write_payload-Keeps d cell at s = record {
  stored = record { pages = s.pages; blocks = s.blocks };
  keys = refl;
  total_size = refl;
  partial_keys = refl;
}

insert_result-Keeps :
    (d : Index) (p i key : ℕ) (r : Bool × BufPage)
    → IsStored (insert_result d p i key r)
    → Keeps d (insert_result d p i key r)
insert_result-Keeps d p i key (true, page) s = record {
  stored = s;
  keys = refl;
  total_size = refl;
  partial_keys = refl;
}
insert_result-Keeps d p i key (false, page) s = record {
  stored = s;
  keys = refl;
  total_size = refl;
  partial_keys = refl;
}

pub place-Keeps :
    (v : StringPayload) (d : Index) (p i key : ℕ) → IsStored d → Keeps d (place v d p i key)
unfolding place
place-Keeps v d p i key s =
    let t = place-IsStored v d p i key s in
    elim (Bool-cases (covers d i key)) [
      | inl h ↦
          rw (place, h)
            (insert_result-Keeps d p i key (insert_page key v (d.buffer_pages i))
              (rw (place, h) at t))
      | inr h ↦ rw (place, h) (Keeps-self d s)
    ]

module _ (d : Index) (p i key : ℕ) (s : IsStored d) where
  find_overflow-Keeps : Returned d (find_overflow d p i key)
  unfolding find_overflow find_key_page
  find_overflow-Keeps = elim (Bool-cases (page_count (d.buffer_pages i) == 0)) [
    | inr h ↦ rw (find_overflow, h) (released-Keeps d i s)
    | inl h ↦ elim (Option-cases (lookup key (d.opt_overflow_trees p))) [
      | inl e ↦ rw (find_overflow, h, e) tt
      | inr (there, e) ↦ rw (find_overflow, h, e) (released-Keeps d i s)
    ]
  ]

  -- The cells of an update hold the keys that they held.
  store-Keeps :
      (n : ℕ) (v : StringPayload) (cells : List Entry)
      → store n v (d.buffer_pages i).cells ≡ some cells
      → Keeps d (set_page d i (released (d.buffer_pages i) cells))
  unfolding released
  store-Keeps zero v cells h = absurd (cc)
  store-Keeps (suc n) v cells h = elim (Option-cases (get_elem? (d.buffer_pages i).cells n)) [
    | inl e ↦
        let wrong : ◌≡◌ {A = Option (List Entry)} none (some cells) = rw (store, e) at h in
        absurd (cc)
    | inr (x, e) ↦
        let stored : ◌≡◌ {A = Option (List Entry)}
            (some (set (d.buffer_pages i).cells n (record x { buf_payload = v }))) (some cells) =
          rw (store, e) at h in
        let same : set (d.buffer_pages i).cells n (record x { buf_payload = v }) ≡ cells = cc in
        rw (sym same) (
          set_page-Keeps d i
            (released (d.buffer_pages i)
              (set (d.buffer_pages i).cells n (record x { buf_payload = v })))
            s
            (same_keys-IsValid (d.buffer_pages i) _ (set-keys n x v (d.buffer_pages i).cells e)
              (s.pages i))
            (set-Within (d.partial_keys i) (d.partial_keys (i + 1)) n x v (d.buffer_pages i).cells e
              (s.blocks i)))
  ]

  update_overflow-Keeps : Returned d (update_overflow d p i key)
  unfolding update_overflow update_key_page
  update_overflow-Keeps = elim (Bool-cases (page_count (d.buffer_pages i) == 0)) [
    | inl h ↦ elim (Option-cases (update key (d.opt_overflow_trees p))) [
      | inl e ↦ rw (update_overflow, h, e) tt
      | inr ((there, tree), e) ↦
          let k = released-Keeps d i s in
          let d' = set_page d i (released (d.buffer_pages i) (d.buffer_pages i).cells) in
          rw (update_overflow, h, e)
            (Keeps-both d d' (set_tree d' p tree) k (set_tree-Keeps d' p tree k.stored))
    ]
    | inr h ↦
        elim (Option-cases
          (store (position key (d.buffer_pages i)) pret (d.buffer_pages i).cells)) [
            | inl e ↦ rw (update_overflow, h, e) tt
            | inr (cells, e) ↦
                rw (update_overflow, h, e)
                  (store-Keeps (position key (d.buffer_pages i)) pret cells e)
          ]
  ]

  pub overflow_op-Keeps : (op : ℕ) → Returned d (overflow_op op d p i key)
  unfolding overflow_op
  overflow_op-Keeps op = elim (Bool-cases (op == 0)) [
    | inl h ↦ rw (overflow_op, h) find_overflow-Keeps
    | inr h ↦ elim (Bool-cases (op == 1)) [
      | inl k ↦ rw (overflow_op, h, k) update_overflow-Keeps
      | inr k ↦ rw (overflow_op, h, k) (Keeps-self d s)
    ]
  ]
