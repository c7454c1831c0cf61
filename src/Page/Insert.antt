-- ===== src/Page/Insert.antt =====
-- `insert_page` against insertion into a sorted list.
use mathlib.Core.List.{Perm}
use mathlib.Core.List.Perm
use pimlex_fast.Base.{
  ℕ, zero, suc, ◌≤◌, ◌<◌, ◌≡◌, refl, ap, List, [], ◌∷◌, true, false, arith, leb, if◌then◌else◌,
  length, get_or, insert_at, dec_lt, dec_le, le→leb, lt→leb, length-map, Bool-cases, sym, inl, inr,
  subst, ℕ_discrete, ==_iff, ==-false, length-eq-zero, get_or-insert_at_lt, get_or-insert_at_self,
  get_or-insert_at-suc, map-insert_at,
}
use pimlex_fast.Search.Bound.{SortedOn, IsBound, upper_bound-IsBound}
use pimlex_fast.Payload.{StringPayload}
use pimlex_fast.Page.{
  Entry, BufPage, buf_size, page_count, keys_of, buf_key_at, released, position, insert_page,
}

-- The cells fit the array and their keys ascend.
pub record IsValid (p : BufPage) : Type 0 where
  pub few : page_count p ≤ buf_size
  pub sorted : SortedOn (buf_key_at p) 0 (page_count p)

-- The specification: an entry goes behind all entries whose keys are up to its own.
abbrev pub insert_after : Entry → List Entry → List Entry
insert_after e [] = e ∷ []
insert_after e (x ∷ xs) = if leb x.buf_key e.buf_key then x ∷ insert_after e xs else e ∷ x ∷ xs

insert_at-eq-insert_after :
    (n : ℕ) (e : Entry) (xs : List Entry)
    → n ≤ length xs
    → ((i : ℕ) → i < n → get_or (keys_of xs) i 0 ≤ e.buf_key)
    → ((i : ℕ) → n ≤ i → i < length xs → e.buf_key < get_or (keys_of xs) i 0)
    → insert_at n e xs ≡ insert_after e xs
insert_at-eq-insert_after zero e [] h low high = refl
insert_at-eq-insert_after zero e (x ∷ xs) h low high =
    rw (lt→leb x.buf_key e.buf_key (high 0 (omega arith) (omega arith)))
insert_at-eq-insert_after (suc n) e [] h low high = absurd (omega arith)
insert_at-eq-insert_after (suc n) e (x ∷ xs) h low high =
    rw (le→leb x.buf_key e.buf_key (low 0 (omega arith))) (
      ap (λ t. x ∷ t)
        (insert_at-eq-insert_after n e xs (omega arith) (λ i p. low (suc i) (omega arith))
          (λ i p q. high (suc i) (omega arith) (omega arith))))

pub length-insert_after :
    (e : Entry) (xs : List Entry) → length (insert_after e xs) ≡ suc (length xs)
length-insert_after e [] = refl
length-insert_after e (x ∷ xs) = ground (arith, length-insert_after e xs)

-- The specification only adds the entry: the cells are a permutation of it and the old ones.
pub insert_after-perm : (e : Entry) (xs : List Entry) → Perm (insert_after e xs) (e ∷ xs)
insert_after-perm e [] = Perm.refl _
insert_after-perm e (x ∷ xs) = elim (Bool-cases (leb x.buf_key e.buf_key)) [
  | inl le ↦ rw le (Perm.trans (Perm.cons x (insert_after-perm e xs)) (Perm.swap e x xs))
  | inr gt ↦ rw gt (Perm.refl _)
]

-- A key stored between the keys up to it and the greater ones keeps a list sorted.
module _ (n k : ℕ) (ks : List ℕ) where
  abbrev at : ℕ → ℕ
  at i = get_or ks i 0

  abbrev after : ℕ → ℕ
  after i = get_or (insert_at n k ks) i 0

  insert_at-SortedOn :
      SortedOn at 0 (length ks) → IsBound at k 0 (length ks) n → SortedOn after 0 (suc (length ks))
  insert_at-SortedOn s b i j li ij jr = elim (dec_lt j n) [
    | yes jn ↦
        rw
          (
            get_or-insert_at_lt i n k 0 ks (omega arith) b.upto,
            get_or-insert_at_lt j n k 0 ks jn b.upto,
          )
          (s i j li ij (omega (arith, b.upto)))
    | no nj ↦ elim (dec_lt i n) [
      | yes i_low ↦
          rw (get_or-insert_at_lt i n k 0 ks i_low b.upto) (from_low i_low j (omega arith) jr)
      | no i_high ↦ from_high i j (omega arith) ij jr
    ]
  ]
    where
      from_low : i < n → (j : ℕ) → n ≤ j → j < suc (length ks) → at i ≤ after j
      from_low h zero nj jr = absurd (omega arith)
      from_low h (suc j) nj jr = elim (dec_le n j) [
        | yes q ↦
            rw (get_or-insert_at-suc j n k 0 ks q b.upto) (s i j li (omega arith) (omega arith))
        | no q ↦
            let e : n ≡ suc j = omega arith in
            rw (← e, get_or-insert_at_self n k 0 ks b.upto) (b.below i li h)
      ]

      from_high : (i j : ℕ) → n ≤ i → i ≤ j → j < suc (length ks) → after i ≤ after j
      from_high i zero ni ij jr = let e : i ≡ 0 = omega arith in rw e (omega arith)
      from_high zero (suc j) ni ij jr =
          let e : n ≡ 0 = omega arith in
          rw (get_or-insert_at-suc j n k 0 ks (omega arith) b.upto) (
            subst (λ t. get_or (insert_at t k ks) 0 0 ≤ at j) (sym e)
              (omega (arith, b.above j (omega arith) (omega arith))))
      from_high (suc i) (suc j) ni ij jr = elim (dec_le n i) [
        | yes q ↦
            rw
              (
                get_or-insert_at-suc i n k 0 ks q b.upto,
                get_or-insert_at-suc j n k 0 ks (omega arith) b.upto,
              )
              (s i j (omega arith) (omega arith) (omega arith))
        | no q ↦ elim (dec_lt i j) [
          | yes lt ↦
              let e : n ≡ suc i = omega arith in
              rw
                (
                  get_or-insert_at-suc j n k 0 ks (omega arith) b.upto,
                  ← e,
                  get_or-insert_at_self n k 0 ks b.upto,
                )
                (omega (arith, b.above j (omega arith) (omega arith)))
          | no ge ↦ let e : i ≡ j = omega arith in rw e (omega arith)
        ]
      ]

-- A full page refuses the entry and keeps its cells, whatever their order.
pub insert_page-full :
    (key : ℕ) (val : StringPayload) (p : BufPage)
    → page_count p ≡ buf_size
    → insert_page key val p ≡ (false, released p p.cells)
unfolding insert_page
insert_page-full key val p full = rw (le→leb buf_size (page_count p) (omega arith))

module _ (key : ℕ) (val : StringPayload) (p : BufPage) (valid : IsValid p) where
  abbrev entry : Entry
  entry = record { buf_key = key; buf_payload = val }

  pub position-IsBound : IsBound (buf_key_at p) key 0 (page_count p) (position key p)
  unfolding position
  position-IsBound =
      upper_bound-IsBound (buf_key_at p) key 0 (page_count p) (omega arith) valid.sorted

  at_position : insert_at (position key p) entry p.cells ≡ insert_after entry p.cells
  at_position =
      let b = position-IsBound in
      insert_at-eq-insert_after (position key p) entry p.cells b.upto
        (λ i q. b.below i (omega arith) q) b.above

  kept : IsValid (released p p.cells)
  unfolding released
  kept = record { few = valid.few; sorted = valid.sorted }

  inserted : page_count p < buf_size → IsValid (released p (insert_after entry p.cells))
  unfolding released
  inserted room = record {
    few = omega (arith, length-insert_after entry p.cells);
    sorted =
        rw
          (
            length-insert_after entry p.cells,
            ← at_position,
            map-insert_at (λ (e : Entry). e.buf_key) (position key p) entry p.cells,
          )
          (rw (length-map (λ (e : Entry). e.buf_key) p.cells) at (
            insert_at-SortedOn (position key p) key (keys_of p.cells)
              (rw (length-map (λ (e : Entry). e.buf_key) p.cells) valid.sorted)
              (rw (length-map (λ (e : Entry). e.buf_key) p.cells) position-IsBound)));
  }

  -- With room left, `insert_page` succeeds and its cells are those of the page with the entry put
  -- behind all entries whose keys are up to its own, the others unchanged and in their order.
  pub insert_page-insert_after :
      page_count p < buf_size
      → insert_page key val p ≡ (true, released p (insert_after entry p.cells))
  unfolding insert_page
  insert_page-insert_after room = elim (ℕ_discrete (page_count p) 0) [
    | yes e ↦ rw (
      lt→leb buf_size (page_count p) room,
      (==_iff (page_count p) 0).1 e,
      length-eq-zero p.cells e,
    )
    | no e ↦
        rw (lt→leb buf_size (page_count p) room, ==-false (page_count p) 0 e)
          (ap (λ t. (true, released p t)) at_position)
  ]

  -- On every path the page stays valid: at most 16 cells, with ascending keys.
  pub insert_page-IsValid : IsValid (insert_page key val p).1
  insert_page-IsValid = elim (dec_lt (page_count p) buf_size) [
    | yes room ↦ rw (insert_page-insert_after room) (inserted room)
    | no full ↦ rw (insert_page-full key val p (omega (arith, valid.few))) kept
  ]
