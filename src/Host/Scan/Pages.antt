-- ===== src/Host/Scan/Pages.antt =====
-- The keys that a scan takes from a page.
use mathlib.Core.List.Memᴰ
use mathlib.Core.List.{Memᴰ}
use pimlex_fast.Base.{
  ℕ, ◌≤◌, ◌<◌, ◌≡◌, refl, sym, ap, ◌∙◌, arith, List, [], ◌∷◌, le→leb, lt→leb, lt→ltb, le→ltb,
  dec_le, dec_lt, inl, inr,
}
use pimlex_fast.Page.{Entry}
use pimlex_fast.Host.Scan.{first_page_keys, page_keys}

-- A key of the cells of a page.
abbrev pub Stored : List Entry → ℕ → Type 0
Stored cells k = (e : Entry) × Memᴰ e cells × (e.buf_key ≡ k)

Stored-more : (x : Entry) (cells : List Entry) (k : ℕ) → Stored cells k → Stored (x ∷ cells) k
Stored-more x cells k (e, m, same) = (e, Memᴰ.tail m, same)

pub first_page_sound :
    (lo hi k : ℕ) (cells : List Entry)
    → Memᴰ k (first_page_keys lo hi cells)
    → Stored cells k × (lo ≤ k) × (k < hi)
first_page_sound lo hi k [] m = absurd (Memᴰ.not-nil m)
first_page_sound lo hi k (x ∷ xs) m =
    let more : Memᴰ k (first_page_keys lo hi xs) → Stored (x ∷ xs) k × (lo ≤ k) × (k < hi) =
      λ rest. let r = first_page_sound lo hi k xs rest in (Stored-more x xs k r.0, r.1, r.2) in
    elim (dec_le lo x.buf_key) [
      | no a ↦ more (rw (lt→leb lo x.buf_key (omega arith)) at m)
      | yes a ↦ elim (dec_lt x.buf_key hi) [
        | no b ↦ more (rw (le→leb lo x.buf_key a, le→ltb x.buf_key hi (omega arith)) at m)
        | yes b ↦ elim (Memᴰ.cases_cons (rw (le→leb lo x.buf_key a, lt→ltb x.buf_key hi b) at m)) [
          | inl e ↦ ((x, Memᴰ.head refl, sym e), omega (arith, e), omega (arith, e))
          | inr rest ↦ more rest
        ]
      ]
    ]

pub first_page_complete :
    (lo hi k : ℕ) (cells : List Entry)
    → Stored cells k
    → lo ≤ k
    → k < hi
    → Memᴰ k (first_page_keys lo hi cells)
first_page_complete lo hi k [] (e, m, same) h l = absurd (Memᴰ.not-nil m)
first_page_complete lo hi k (x ∷ xs) (e, m, same) h l = elim (Memᴰ.cases_cons m) [
  | inl f ↦
      let key : x.buf_key ≡ k = ap (λ (y : Entry). y.buf_key) (sym f) ∙ same in
      rw (key, le→leb lo k h, lt→ltb k hi l) (Memᴰ.head refl)
  | inr rest ↦
      let there = first_page_complete lo hi k xs (e, rest, same) h l in
      elim (dec_le lo x.buf_key) [
        | no a ↦ rw (lt→leb lo x.buf_key (omega arith)) there
        | yes a ↦ elim (dec_lt x.buf_key hi) [
          | no b ↦ rw (le→leb lo x.buf_key a, le→ltb x.buf_key hi (omega arith)) there
          | yes b ↦ rw (le→leb lo x.buf_key a, lt→ltb x.buf_key hi b) (Memᴰ.tail there)
        ]
      ]
]

pub page_sound :
    (lo k : ℕ) (cells : List Entry) → Memᴰ k (page_keys lo cells) → Stored cells k × (lo < k)
page_sound lo k [] m = absurd (Memᴰ.not-nil m)
page_sound lo k (x ∷ xs) m =
    let more : Memᴰ k (page_keys lo xs) → Stored (x ∷ xs) k × (lo < k) =
      λ rest. let r = page_sound lo k xs rest in (Stored-more x xs k r.0, r.1) in
    elim (dec_lt lo x.buf_key) [
      | no a ↦ more (rw (le→ltb lo x.buf_key (omega arith)) at m)
      | yes a ↦ elim (Memᴰ.cases_cons (rw (lt→ltb lo x.buf_key a) at m)) [
        | inl e ↦ ((x, Memᴰ.head refl, sym e), omega (arith, e))
        | inr rest ↦ more rest
      ]
    ]

pub page_complete :
    (lo k : ℕ) (cells : List Entry) → Stored cells k → lo < k → Memᴰ k (page_keys lo cells)
page_complete lo k [] (e, m, same) h = absurd (Memᴰ.not-nil m)
page_complete lo k (x ∷ xs) (e, m, same) h = elim (Memᴰ.cases_cons m) [
  | inl f ↦
      let key : x.buf_key ≡ k = ap (λ (y : Entry). y.buf_key) (sym f) ∙ same in
      rw (key, lt→ltb lo k h) (Memᴰ.head refl)
  | inr rest ↦
      let there = page_complete lo k xs (e, rest, same) h in
      elim (dec_lt lo x.buf_key) [
        | no a ↦ rw (le→ltb lo x.buf_key (omega arith)) there
        | yes a ↦ rw (lt→ltb lo x.buf_key a) (Memᴰ.tail there)
      ]
]
