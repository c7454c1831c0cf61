-- ===== src/Page/Lookup.antt =====
-- `find_key_page`, `update_key_page` and `is_sort` of `buf_page`.
use mathlib.Core.Option
use native.Mathlib.Nat.{le_trans}
use pimlex_fast.Base.{
  length-map, ℕ, zero, suc, ◌≤◌, ◌<◌, ◌≡◌, ◌≢◌, ◌↔◌, refl, List, [], ◌∷◌, true, arith, leb,
  if◌then◌else◌, length, get_or, Option, none, some, dec_lt, le→leb, lt→leb, le→ltb, ==-false,
  get_elem?-eq-get_or,
}
use pimlex_fast.Payload.{StringPayload}
use pimlex_fast.Page.{
  Entry, BufPage, page_count, keys_of, buf_key_at, released, position, store, find_key_page,
  update_key_page, is_sort, is_sort_list,
}
use pimlex_fast.Page.Insert.{IsValid, position-IsBound}
use pimlex_fast.Search.Bound.{SortedOn}

-- The specification of an update: the last entry whose key is up to `key` gets the payload.
abbrev pub update_upto : ℕ → StringPayload → List Entry → Option (List Entry)
update_upto key val [] = none
update_upto key val (x ∷ xs) =
    if leb x.buf_key key
    then (elim (update_upto key val xs) [
      | none ↦ some (record x { buf_payload = val } ∷ xs)
      | some ys ↦ some (x ∷ ys)
    ])
    else none

store-eq-update_upto :
    (n key : ℕ) (val : StringPayload) (xs : List Entry)
    → n ≤ length xs
    → ((i : ℕ) → i < n → get_or (keys_of xs) i 0 ≤ key)
    → ((i : ℕ) → n ≤ i → i < length xs → key < get_or (keys_of xs) i 0)
    → store n val xs ≡ update_upto key val xs
store-eq-update_upto zero key val [] h low high = refl
store-eq-update_upto zero key val (x ∷ xs) h low high =
    rw (lt→leb x.buf_key key (high 0 (omega arith) (omega arith)))
store-eq-update_upto (suc n) key val [] h low high = absurd (omega arith)
store-eq-update_upto (suc zero) key val (x ∷ xs) h low high = rw (
  le→leb x.buf_key key (low 0 (omega arith)),
  ← store-eq-update_upto zero key val xs (omega arith) (λ i p. low (suc i) (omega arith))
      (λ i p q. high (suc i) (omega arith) (omega arith)),
)
store-eq-update_upto (suc (suc n)) key val (x ∷ xs) h low high =
    rw
      (
        le→leb x.buf_key key (low 0 (omega arith)),
        ← store-eq-update_upto (suc n) key val xs (omega arith) (λ i p. low (suc i) (omega arith))
            (λ i p q. high (suc i) (omega arith) (omega arith)),
      )
      (rw (get_elem?-eq-get_or xs n x (omega arith), store))

-- On a valid page that is not empty, `update_key_page` gives the payload to the last entry whose key
-- is up to `key`, whether or not that key is `key`, and leaves all else; where every key is greater,
-- it stores through the cell before the array.
update_key_page-update_upto :
    (key : ℕ) (val : StringPayload) (p : BufPage)
    → IsValid p
    → 0 < page_count p
    → update_key_page key val p
      ≡ Option.map (λ cells. (true, released p cells)) (update_upto key val p.cells)
unfolding update_key_page
update_key_page-update_upto key val p valid some_cell =
    let b = position-IsBound key val p valid in
    let e : store (position key p) val p.cells ≡ update_upto key val p.cells =
      store-eq-update_upto (position key p) key val p.cells b.upto
        (λ i q. b.below i (omega arith) q) b.above in
    rw (==-false (page_count p) 0 (omega arith), ← e)

-- `find_key_page` does not look at the keys: on every page that is not empty it reports a hit, also
-- for a key that no cell holds.
find_key_page_hit :
    (key : ℕ) (p : BufPage)
    → 0 < page_count p
    → ((i : ℕ) → i < page_count p → buf_key_at p i ≢ key)
    → (find_key_page key p).0 ≡ true
unfolding find_key_page
find_key_page_hit key p h absent = rw (==-false (page_count p) 0 (omega arith))

is_sort_head : (k j : ℕ) (ks : List ℕ) → is_sort_list (k ∷ j ∷ ks) ≡ true → k ≤ j
unfolding is_sort_list
is_sort_head k j ks h = ground arith

is_sort_tail :
    (k j : ℕ) (ks : List ℕ) → is_sort_list (k ∷ j ∷ ks) ≡ true → is_sort_list (j ∷ ks) ≡ true
unfolding is_sort_list
is_sort_tail k j ks h = elim (dec_lt j k) [
  | yes q ↦ absurd (omega (arith, is_sort_head k j ks h))
  | no q ↦ rw (is_sort_list, le→ltb j k (omega arith)) at h
]

pub is_sort_list→sorted :
    (ks : List ℕ) → is_sort_list ks ≡ true → SortedOn (λ i. get_or ks i 0) 0 (length ks)
unfolding is_sort_list
is_sort_list→sorted [] h i j p q r = absurd (omega arith)
is_sort_list→sorted (k ∷ []) h zero zero p q r = omega arith
is_sort_list→sorted (k ∷ []) h zero (suc j) p q r = absurd (omega arith)
is_sort_list→sorted (k ∷ []) h (suc i) j p q r = absurd (omega arith)
is_sort_list→sorted (k ∷ j ∷ ks) h i zero p q r = let e : i ≡ 0 = omega arith in rw e (omega arith)
is_sort_list→sorted (k ∷ m ∷ ks) h zero (suc j) p q r =
    let rest = is_sort_list→sorted (m ∷ ks) (is_sort_tail k m ks h) in
    le_trans (is_sort_head k m ks h) (rest 0 j (omega arith) (omega arith) (omega arith))
is_sort_list→sorted (k ∷ m ∷ ks) h (suc i) (suc j) p q r =
    is_sort_list→sorted (m ∷ ks) (is_sort_tail k m ks h) i j (omega arith) (omega arith)
      (omega arith)

sorted→is_sort_list :
    (ks : List ℕ) → SortedOn (λ i. get_or ks i 0) 0 (length ks) → is_sort_list ks ≡ true
unfolding is_sort_list
sorted→is_sort_list [] s = refl
sorted→is_sort_list (k ∷ []) s = refl
sorted→is_sort_list (k ∷ j ∷ ks) s =
    rw (le→ltb j k (s 0 1 (omega arith) (omega arith) (omega arith))) (
      sorted→is_sort_list (j ∷ ks)
        (λ a b la ab br. s (suc a) (suc b) (omega arith) (omega arith) (omega arith)))

-- `is_sort` answers true exactly on the pages whose keys ascend.
pub is_sort_iff : (p : BufPage) → (is_sort p ≡ true) ↔ SortedOn (buf_key_at p) 0 (page_count p)
unfolding is_sort
is_sort_iff p =
    rw (← length-map (λ (e : Entry). e.buf_key) p.cells)
      (is_sort_list→sorted (keys_of p.cells), sorted→is_sort_list (keys_of p.cells))
