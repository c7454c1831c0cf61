-- ===== src/Tree/Leaf.antt =====
-- The leaf operations of a tree node against a strictly ascending list.
use pimlex_fast.Base.{
  ℕ, zero, suc, ◌≤◌, ◌<◌, ◌≡◌, refl, ap, List, [], ◌∷◌, Bool, true, false, not, ◌&&◌, ◌||◌, arith,
  length, get_or, insert_at, ltb, ◌==◌, if◌then◌else◌, ==-false,
}
use pimlex_fast.Search.{lower_bound}
use pimlex_fast.Search.Lower.{StrictOn, IsLower, lower_bound-IsLower}
use pimlex_fast.Tree.Defs.{insert_leaf, search_leaf}

-- The keys ascend strictly and lie from `lo` to `hi`.
abbrev pub Ascends : ℕ → ℕ → List ℕ → Type 0
Ascends lo hi [] = Unit
Ascends lo hi (x ∷ xs) = (lo ≤ x) × (x ≤ hi) × Ascends (suc x) hi xs

abbrev pub mem : ℕ → List ℕ → Bool
mem k [] = false
mem k (x ∷ xs) = x == k || mem k xs

-- The specification of an insertion: the key in its place, once.
abbrev pub insert_sorted : ℕ → List ℕ → List ℕ
insert_sorted k [] = k ∷ []
insert_sorted k (x ∷ xs) =
    if ltb k x then k ∷ x ∷ xs else (if ltb x k then x ∷ insert_sorted k xs else x ∷ xs)

pub Ascends-below : (lo hi k : ℕ) (ks : List ℕ) → Ascends lo hi ks → k < lo → mem k ks ≡ false
Ascends-below lo hi k [] a h = refl
Ascends-below lo hi k (x ∷ xs) a h = ground (arith, Ascends-below (suc x) hi k xs a.2 (omega arith))

pub Ascends-above : (lo hi k : ℕ) (ks : List ℕ) → Ascends lo hi ks → hi < k → mem k ks ≡ false
Ascends-above lo hi k [] a h = refl
Ascends-above lo hi k (x ∷ xs) a h = ground (arith, Ascends-above (suc x) hi k xs a.2 h)

pub Ascends-le : (lo lo' hi : ℕ) (ks : List ℕ) → lo' ≤ lo → Ascends lo hi ks → Ascends lo' hi ks
Ascends-le lo lo' hi [] h a = tt
Ascends-le lo lo' hi (x ∷ xs) h a = (omega arith, a.1, a.2)

Ascends-lower : (lo hi i : ℕ) (ks : List ℕ) → Ascends lo hi ks → i < length ks → lo ≤ get_or ks i 0
Ascends-lower lo hi i [] a h = absurd (omega arith)
Ascends-lower lo hi zero (x ∷ xs) a h = a.0
Ascends-lower lo hi (suc i) (x ∷ xs) a h =
    omega (arith, Ascends-lower (suc x) hi i xs a.2 (omega arith))

pub Ascends→StrictOn :
    (lo hi : ℕ) (ks : List ℕ) → Ascends lo hi ks → StrictOn (λ i. get_or ks i 0) 0 (length ks)
Ascends→StrictOn lo hi [] a i j p q r = absurd (omega arith)
Ascends→StrictOn lo hi (x ∷ xs) a i zero p q r = absurd (omega arith)
Ascends→StrictOn lo hi (x ∷ xs) a zero (suc j) p q r =
    Ascends-lower (suc x) hi j xs a.2 (omega arith)
Ascends→StrictOn lo hi (x ∷ xs) a (suc i) (suc j) p q r =
    Ascends→StrictOn (suc x) hi xs a.2 i j (omega arith) (omega arith) (omega arith)

abbrev found : ℕ → ℕ → List ℕ → Bool
found k p ks = ltb p (length ks) && (get_or ks p 0 == k)

found-mem :
    (lo hi k p : ℕ) (ks : List ℕ)
    → Ascends lo hi ks
    → p ≤ length ks
    → ((i : ℕ) → i < p → get_or ks i 0 < k)
    → ((i : ℕ) → p ≤ i → i < length ks → k ≤ get_or ks i 0)
    → found k p ks ≡ mem k ks
found-mem lo hi k zero [] a h low high = refl
found-mem lo hi k zero (x ∷ xs) a h low high =
    ground (arith, Ascends-below (suc x) hi k xs a.2, high 0 (omega arith) (omega arith))
found-mem lo hi k (suc p) [] a h low high = absurd (omega arith)
found-mem lo hi k (suc p) (x ∷ xs) a h low high = ground (
  arith,
  low 0 (omega arith),
  found-mem (suc x) hi k p xs a.2 (omega arith) (λ i q. low (suc i) (omega arith))
      (λ i q r. high (suc i) (omega arith) (omega arith)),
)

placed :
    (lo hi k p : ℕ) (ks : List ℕ)
    → Ascends lo hi ks
    → p ≤ length ks
    → ((i : ℕ) → i < p → get_or ks i 0 < k)
    → ((i : ℕ) → p ≤ i → i < length ks → k ≤ get_or ks i 0)
    → (if found k p ks then ks else insert_at p k ks) ≡ insert_sorted k ks
placed lo hi k zero [] a h low high = refl
placed lo hi k zero (x ∷ xs) a h low high = ground (arith, high 0 (omega arith) (omega arith))
placed lo hi k (suc p) [] a h low high = absurd (omega arith)
placed lo hi k (suc p) (x ∷ xs) a h low high = ground (
  arith,
  low 0 (omega arith),
  placed (suc x) hi k p xs a.2 (omega arith) (λ i q. low (suc i) (omega arith))
      (λ i q r. high (suc i) (omega arith) (omega arith)),
)

by_test :
    (b c : Bool)
    → not b ≡ c
    → (ks ls : List ℕ) {ms : List ℕ} → (if b then ks else ls) ≡ ms
    → ◌≡◌ {A = Bool × List ℕ} (if b then (false, ks) else (true, ls)) (c, ms)
by_test b c e ks ls g = ground arith

module _ (lo hi k : ℕ) where
  bound :
      (x : ℕ) (xs : List ℕ)
      → Ascends lo hi (x ∷ xs)
      → IsLower
          (λ i. get_or (x ∷ xs) i 0)
          k
          0
          (suc (length xs))
          (lower_bound (λ i. get_or (x ∷ xs) i 0) k (suc (length xs)))
  bound x xs a =
      lower_bound-IsLower (λ i. get_or (x ∷ xs) i 0) k (suc (length xs)) (omega arith)
        (Ascends→StrictOn lo hi (x ∷ xs) a)

  -- On strictly ascending keys `searchLeaf` answers whether the key is among them.
  pub search_leaf-mem : (ks : List ℕ) → Ascends lo hi ks → search_leaf k ks ≡ mem k ks
  unfolding search_leaf
  search_leaf-mem [] a = refl
  search_leaf-mem (x ∷ xs) a =
      let b = bound x xs a in
      rw (==-false (suc (length xs)) 0 (omega arith))
        (found-mem lo hi k _ (x ∷ xs) a b.upto (λ i q. b.below i (omega arith) q) b.above)

  -- On strictly ascending keys `insertLeaf` puts a new key in its place and answers true, and leaves
  -- the keys and answers false for one that is there.
  pub insert_leaf_lem :
      (ks : List ℕ) → Ascends lo hi ks → insert_leaf k ks ≡ (not (mem k ks), insert_sorted k ks)
  unfolding insert_leaf
  insert_leaf_lem [] a = refl
  insert_leaf_lem (x ∷ xs) a =
      let b = bound x xs a in
      let pos : ℕ = lower_bound (λ i. get_or (x ∷ xs) i 0) k (suc (length xs)) in
      let f : found k pos (x ∷ xs) ≡ mem k (x ∷ xs) =
        found-mem lo hi k pos (x ∷ xs) a b.upto (λ i q. b.below i (omega arith) q) b.above in
      let g : (if found k pos (x ∷ xs) then x ∷ xs else insert_at pos k (x ∷ xs))
          ≡ insert_sorted k (x ∷ xs) =
        placed lo hi k pos (x ∷ xs) a b.upto (λ i q. b.below i (omega arith) q) b.above in
      rw (insert_leaf, ==-false (suc (length xs)) 0 (omega arith))
        (by_test (found k pos (x ∷ xs)) (not (mem k (x ∷ xs))) (ap not f) (x ∷ xs)
          (insert_at pos k (x ∷ xs)) g)

  pub insert_sorted-Ascends :
      (l : ℕ) (ks : List ℕ) → l ≤ k → k ≤ hi → Ascends l hi ks → Ascends l hi (insert_sorted k ks)
  insert_sorted-Ascends l [] p q a = (p, q, tt)
  insert_sorted-Ascends l (x ∷ xs) p q a = ground (arith, insert_sorted-Ascends (suc x) xs)

-- The keys of a leaf afterwards are the inserted one and the old ones.
pub mem-insert_sorted : (j k : ℕ) (ks : List ℕ) → mem j (insert_sorted k ks) ≡ (k == j || mem j ks)
mem-insert_sorted j k [] = refl
mem-insert_sorted j k (x ∷ xs) = ground (arith, mem-insert_sorted j k xs)

pub length-insert_sorted : (k : ℕ) (ks : List ℕ) → length (insert_sorted k ks) ≤ suc (length ks)
length-insert_sorted k [] = omega arith
length-insert_sorted k (x ∷ xs) = ground (arith, length-insert_sorted k xs)
