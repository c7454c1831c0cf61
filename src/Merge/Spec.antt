-- ===== src/Merge/Spec.antt =====
-- The merge of two lists of entries, and the lists that a thread has to merge.
use pimlex_fast.Base.{
  ℕ, zero, suc, ◌+◌, ◌-◌, ◌≤◌, ◌<◌, ◌≡◌, ◌≢◌, refl, ap, arith, List, [], ◌∷◌, ◌++◌, true, false,
  length, ltb, dec_lt, lt→ltb, le→ltb,
}
use mathlib.Core.List.{append_assoc}
use pimlex_fast.Page.{Entry}
use pimlex_fast.Host.Index.{Index}
use pimlex_fast.Merge.Defs.{old_entry}

-- The keys of the array from position `i` on, and the cells of the pages from `i` on.
abbrev pub old_list : Index → ℕ → ℕ → List Entry
old_list d i zero = []
old_list d i (suc n) = old_entry d i ∷ old_list d (i + 1) n

abbrev pub page_list : Index → ℕ → ℕ → List Entry
page_list d i zero = []
page_list d i (suc n) = (d.buffer_pages i).cells ++ page_list d (i + 1) n

unfoldable pub merge : List Entry → List Entry → List Entry
merge [] ys = ys
merge (x ∷ xs) [] = x ∷ xs
merge (x ∷ xs) (y ∷ ys) = elim (ltb x.buf_key y.buf_key) [
  | true ↦ x ∷ merge xs (y ∷ ys)
  | false ↦ y ∷ merge (x ∷ xs) ys
]

-- The keys ascend strictly, from `lo` on and below `hi`.
abbrev pub Chain : ℕ → ℕ → List Entry → Type 0
Chain lo hi [] = lo ≤ hi
Chain lo hi (x ∷ xs) = (lo ≤ x.buf_key) × Chain (suc x.buf_key) hi xs

-- No entry of the list has the key.
abbrev pub Absent : ℕ → List Entry → Type 0
Absent k [] = Unit
Absent k (x ∷ xs) = (k ≢ x.buf_key) × Absent k xs

abbrev pub Apart : List Entry → List Entry → Type 0
Apart [] ys = Unit
Apart (x ∷ xs) ys = Absent x.buf_key ys × Apart xs ys

pub Apart-tail : (xs ys : List Entry) (y : Entry) → Apart xs (y ∷ ys) → Apart xs ys
Apart-tail [] ys y a = tt
Apart-tail (x ∷ xs) ys y a = (a.0.1, Apart-tail xs ys y a.1)

pub merge_left :
    (x y : Entry) (xs ys : List Entry)
    → x.buf_key < y.buf_key
    → merge (x ∷ xs) (y ∷ ys) ≡ x ∷ merge xs (y ∷ ys)
unfolding merge
merge_left x y xs ys h = rw (merge, lt→ltb x.buf_key y.buf_key h)

pub merge_right :
    (x y : Entry) (xs ys : List Entry)
    → y.buf_key ≤ x.buf_key
    → merge (x ∷ xs) (y ∷ ys) ≡ y ∷ merge (x ∷ xs) ys
unfolding merge
merge_right x y xs ys h = rw (merge, le→ltb x.buf_key y.buf_key h)

pub merge_nil : (xs : List Entry) → merge xs [] ≡ xs
unfolding merge
merge_nil [] = refl
merge_nil (x ∷ xs) = refl

pub length-merge : (xs ys : List Entry) → length (merge xs ys) ≡ length xs + length ys
unfolding merge
length-merge [] ys = omega arith
length-merge (x ∷ xs) [] = omega arith
length-merge (x ∷ xs) (y ∷ ys) = elim (dec_lt x.buf_key y.buf_key) [
  | yes h ↦ rw (merge_left x y xs ys h) (omega (arith, length-merge xs (y ∷ ys)))
  | no h ↦ rw (merge_right x y xs ys (omega arith)) (omega (arith, length-merge (x ∷ xs) ys))
]

-- Chains can be widened, and joined end to end.
pub Chain-from : (lo lo' hi : ℕ) (xs : List Entry) → lo' ≤ lo → Chain lo hi xs → Chain lo' hi xs
Chain-from lo lo' hi [] h c = omega arith
Chain-from lo lo' hi (x ∷ xs) h c = (omega (arith, c.0), c.1)

pub Chain-upto : (lo hi hi' : ℕ) (xs : List Entry) → hi ≤ hi' → Chain lo hi xs → Chain lo hi' xs
Chain-upto lo hi hi' [] h c = omega arith
Chain-upto lo hi hi' (x ∷ xs) h c = (c.0, Chain-upto (suc x.buf_key) hi hi' xs h c.1)

pub Chain-append :
    (lo mid hi : ℕ) (xs ys : List Entry)
    → Chain lo mid xs
    → Chain mid hi ys
    → Chain lo hi (xs ++ ys)
Chain-append lo mid hi [] ys c e = Chain-from mid lo hi ys c e
Chain-append lo mid hi (x ∷ xs) ys c e = (c.0, Chain-append (suc x.buf_key) mid hi xs ys c.1 e)

-- The merge of two chains without a common key is a chain.
pub merge-Chain :
    (lo hi : ℕ) (xs ys : List Entry)
    → Chain lo hi xs
    → Chain lo hi ys
    → Apart xs ys
    → Chain lo hi (merge xs ys)
unfolding merge
merge-Chain lo hi [] ys c e a = e
merge-Chain lo hi (x ∷ xs) [] c e a = c
merge-Chain lo hi (x ∷ xs) (y ∷ ys) c e a = elim (dec_lt x.buf_key y.buf_key) [
  | yes h ↦
      rw (merge_left x y xs ys h) (c.0, merge-Chain (suc x.buf_key) hi xs (y ∷ ys) c.1 (h, e.1) a.1)
  | no h ↦
      let apart : y.buf_key < x.buf_key = omega (arith, a.0.0) in
      rw (merge_right x y xs ys (omega arith)) (
        e.0,
        merge-Chain (suc y.buf_key) hi (x ∷ xs) ys (apart, c.1) e.1 (a.0.1, Apart-tail xs ys y a.1),
      )
]

pub Chain-range : (lo hi : ℕ) (xs : List Entry) → Chain lo hi xs → lo ≤ hi
Chain-range lo hi [] c = c
Chain-range lo hi (x ∷ xs) c = omega (arith, c.0, Chain-range (suc x.buf_key) hi xs c.1)

-- Two lists below `mid` and two from `mid` on are merged apart.
pub merge-append :
    (lo lo' mid hi hi' : ℕ) (xs ys xs' ys' : List Entry)
    → Chain lo mid xs
    → Chain lo' mid ys
    → Chain mid hi xs'
    → Chain mid hi' ys'
    → merge (xs ++ xs') (ys ++ ys') ≡ merge xs ys ++ merge xs' ys'
unfolding merge
merge-append lo lo' mid hi hi' [] [] xs' ys' a b c e = refl
merge-append lo lo' mid hi hi' [] (y ∷ ys) [] ys' a b c e = refl
merge-append lo lo' mid hi hi' [] (y ∷ ys) (x ∷ xs') ys' a b c e =
    let r = Chain-range (suc y.buf_key) mid ys b.1 in
    rw
      (
        merge_right x y xs' (ys ++ ys') (omega (arith, c.0)),
        merge-append mid (suc y.buf_key) mid hi hi' [] ys (x ∷ xs') ys' (omega arith) b.1 c e,
      )
      refl
merge-append lo lo' mid hi hi' (x ∷ xs) [] xs' [] a b c e = rw (merge_nil xs') refl
merge-append lo lo' mid hi hi' (x ∷ xs) [] xs' (y ∷ ys') a b c e =
    let r = Chain-range (suc x.buf_key) mid xs a.1 in
    rw
      (
        merge_left x y (xs ++ xs') ys' (omega (arith, e.0)),
        merge-append (suc x.buf_key) mid mid hi hi' xs [] xs' (y ∷ ys') a.1 (omega arith) c e,
        merge_nil xs,
      )
      refl
merge-append lo lo' mid hi hi' (x ∷ xs) (y ∷ ys) xs' ys' a b c e =
    elim (dec_lt x.buf_key y.buf_key) [
      | yes h ↦
          rw
            (
              merge_left x y (xs ++ xs') (ys ++ ys') h,
              merge_left x y xs ys h,
              merge-append (suc x.buf_key) lo' mid hi hi' xs (y ∷ ys) xs' ys' a.1 b c e,
            )
            refl
      | no h ↦
          rw
            (
              merge_right x y (xs ++ xs') (ys ++ ys') (omega arith),
              merge_right x y xs ys (omega arith),
              merge-append lo (suc y.buf_key) mid hi hi' (x ∷ xs) ys xs' ys' a b.1 c e,
            )
            refl
    ]

-- The entries of two stretches, and of two runs of pages.
pub old_list-append :
    (d : Index) (i m n : ℕ) → old_list d i (m + n) ≡ old_list d i m ++ old_list d (i + m) n
old_list-append d i zero n =
    let e : i + 0 ≡ i = omega arith in let f : 0 + n ≡ n = omega arith in rw (e, f) refl
old_list-append d i (suc m) n =
    let e : suc m + n ≡ suc (m + n) = omega arith in
    let f : i + suc m ≡ i + 1 + m = omega arith in rw (e, f, old_list-append d (i + 1) m n) refl

pub page_list-append :
    (d : Index) (i m n : ℕ) → page_list d i (m + n) ≡ page_list d i m ++ page_list d (i + m) n
page_list-append d i zero n =
    let e : i + 0 ≡ i = omega arith in let f : 0 + n ≡ n = omega arith in rw (e, f) refl
page_list-append d i (suc m) n =
    let e : suc m + n ≡ suc (m + n) = omega arith in
    let f : i + suc m ≡ i + 1 + m = omega arith in
    rw
      (
        e,
        f,
        page_list-append d (i + 1) m n,
        append_assoc (d.buffer_pages i).cells (page_list d (i + 1) m) (page_list d (i + 1 + m) n),
      )
      refl

pub length-old_list : (d : Index) (i n : ℕ) → length (old_list d i n) ≡ n
length-old_list d i zero = refl
length-old_list d i (suc n) = ap suc (length-old_list d (i + 1) n)

pub old_list-split :
    (d : Index) (a b : ℕ) → a ≤ b → old_list d 0 b ≡ old_list d 0 a ++ old_list d a (b - a)
old_list-split d a b h =
    let m : a + (b - a) ≡ b = omega arith in
    let z : 0 + a ≡ a = omega arith in rw (m, z) at (old_list-append d 0 a (b - a))

pub page_list-split :
    (d : Index) (a b : ℕ) → a ≤ b → page_list d 0 b ≡ page_list d 0 a ++ page_list d a (b - a)
page_list-split d a b h =
    let m : a + (b - a) ≡ b = omega arith in
    let z : 0 + a ≡ a = omega arith in rw (m, z) at (page_list-append d 0 a (b - a))
