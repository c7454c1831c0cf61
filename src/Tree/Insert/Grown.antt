-- ===== src/Tree/Insert/Grown.antt =====
-- The 32 children that the split of a full leaf makes, and the one that the new key goes to.
use pimlex_fast.Base.{
  ℕ, zero, suc, ◌+◌, ◌≤◌, ◌<◌, ◌≡◌, refl, List, [], ◌∷◌, Bool, true, false, ◌||◌, arith, length,
  get_or, ◌==◌, lt→ltb, le→ltb, ==_iff, dec_lt, ap, ◌∙◌,
}
use pimlex_fast.Tree.Defs.{
  Children, keys_of, insert_leaf, insert_leaf_node, split_children, next_insert_child, modify_child,
}
use pimlex_fast.Tree.Leaf.{Ascends, mem, insert_leaf_lem}
use pimlex_fast.Tree.Ordered.{
  contains, contains_children, size, size_children, bound, Ordered, OrderedChildren,
}

pub keys_of-split_children : (ks : List ℕ) → keys_of (split_children ks) ≡ ks
keys_of-split_children [] = refl
keys_of-split_children (k ∷ ks) = ap (λ r. k ∷ r) (keys_of-split_children ks)

or-false : (b : Bool) → (b || false) ≡ b
or-false true = refl
or-false false = refl

pub or-true : (b : Bool) → (b || true) ≡ true
or-true true = refl
or-true false = refl

pub contains-split_children :
    (j : ℕ) (ks : List ℕ) → contains_children j (split_children ks) ≡ mem j ks
unfolding contains
contains-split_children j [] = refl
contains-split_children j (k ∷ ks) = rw (or-false (k == j), contains-split_children j ks)

bound-split_children :
    (hi x : ℕ) (ks : List ℕ) → x ≤ hi → Ascends (suc x) hi ks → x ≤ bound hi (split_children ks)
bound-split_children hi x [] h a = h
bound-split_children hi x (y ∷ ys) h a = omega (arith, a.0)

pub split_children-Ordered :
    (lo hi : ℕ) (ks : List ℕ) → Ascends lo hi ks → OrderedChildren lo hi (split_children ks)
unfolding Ordered
split_children-Ordered lo hi [] a = tt
split_children-Ordered lo hi (x ∷ xs) a = (
  a.0,
  a.1,
  ((omega arith, bound-split_children hi x xs a.1 a.2, tt), rw ((==_iff x x).1 refl), omega arith),
  split_children-Ordered (suc x) hi xs a.2,
)

-- The index that the loop leaves: the last key below `k`.
none_below :
    (lo hi k i id : ℕ) (ks : List ℕ) → Ascends lo hi ks → k ≤ lo → next_insert_child k i id ks ≡ id
none_below lo hi k i id [] a h = refl
none_below lo hi k i id (x ∷ xs) a h =
    rw (le→ltb x k (omega (arith, a.0))) (none_below (suc x) hi k (i + 1) id xs a.2 (omega arith))

-- `n` is the index of the last key below `k`.
pub record LastBelow (k n : ℕ) (ks : List ℕ) : Type 0 where
  inside : n < length ks
  low : get_or ks n 0 < k
  high : suc n < length ks → k ≤ get_or ks (suc n) 0

pub last_below :
    (hi k i x : ℕ) (xs : List ℕ)
    → x < k
    → Ascends (suc x) hi xs
    → (n : ℕ) × (next_insert_child k (i + 1) i xs ≡ i + n) × LastBelow k n (x ∷ xs)
last_below hi k i x [] h a =
    (0, omega arith, record { inside = omega arith; low = h; high = λ q. absurd (omega arith) })
last_below hi k i x (y ∷ ys) h a = elim (dec_lt y k) [
  | yes q ↦
      let (n, e, l) = last_below hi k (i + 1) y ys q a.2 in
      (
        suc n,
        rw (lt→ltb y k q) (omega (arith, e)),
        record { inside = omega (arith, l.inside); low = l.low; high = λ r. l.high (omega arith) },
      )
  | no q ↦ (
    0,
    rw (le→ltb y k (omega arith))
        (omega (arith, none_below (suc y) hi k (i + 1 + 1) i ys a.2 (omega arith))),
    record { inside = omega arith; low = h; high = λ r. omega arith },
  )
]

LastBelow-rest : {k n x : ℕ} {xs : List ℕ} → LastBelow k (suc n) (x ∷ xs) → LastBelow k n xs
LastBelow-rest l = record {
  inside = omega (arith, l.inside);
  low = l.low;
  high = λ r. l.high (omega arith);
}

-- The key goes to that child.
module _ (hi k : ℕ) (fits : k ≤ hi) where
  abbrev grown : ℕ → List ℕ → Children
  grown n ks = modify_child n (insert_leaf_node k) (split_children ks)

  one_key : (x : ℕ) → x < k → (insert_leaf k (x ∷ [])).1 ≡ x ∷ k ∷ []
  one_key x h =
      ap (λ (r : Bool × List ℕ). r.1) (insert_leaf_lem x x k (x ∷ []) (omega arith))
      ∙ rw (le→ltb k x (omega arith), lt→ltb x k h)

  bound-grown : (n : ℕ) (ks : List ℕ) → bound hi (grown n ks) ≡ bound hi (split_children ks)
  bound-grown n [] = refl
  bound-grown zero (x ∷ xs) = refl
  bound-grown (suc n) (x ∷ xs) = refl

  pub keys_of-grown : (n : ℕ) (ks : List ℕ) → keys_of (grown n ks) ≡ ks
  keys_of-grown n [] = refl
  keys_of-grown zero (x ∷ xs) = ap (λ r. x ∷ r) (keys_of-split_children xs)
  keys_of-grown (suc n) (x ∷ xs) = ap (λ r. x ∷ r) (keys_of-grown n xs)

  room : (n x : ℕ) (xs : List ℕ) → LastBelow k 0 (x ∷ xs) → k ≤ bound hi (split_children xs)
  room n x [] l = fits
  room n x (y ∷ ys) l = l.high (omega arith)

  pub grown-Ordered :
      (lo n : ℕ) (ks : List ℕ)
      → Ascends lo hi ks
      → LastBelow k n ks
      → OrderedChildren lo hi (grown n ks)
  unfolding Ordered
  grown-Ordered lo n [] a l = tt
  grown-Ordered lo zero (x ∷ xs) a l = rw (one_key x l.low) (
    a.0,
    a.1,
    (
      (
        omega arith,
        bound-split_children hi x xs a.1 a.2,
        (omega (arith, l.low), room 0 x xs l, tt),
      ),
      rw ((==_iff x x).1 refl),
      omega arith,
    ),
    split_children-Ordered (suc x) hi xs a.2,
  )
  grown-Ordered lo (suc n) (x ∷ xs) a l = (
    a.0,
    a.1,
    (
      (omega arith, rw (bound-grown n xs) (bound-split_children hi x xs a.1 a.2), tt),
      rw ((==_iff x x).1 refl),
      omega arith,
    ),
    grown-Ordered (suc x) n xs a.2 (LastBelow-rest l),
  )

  pub contains-grown :
      (j n : ℕ) (ks : List ℕ)
      → LastBelow k n ks
      → contains_children j (grown n ks) ≡ (k == j || mem j ks)
  unfolding contains
  contains-grown j n [] l = absurd (omega (arith, l.inside))
  contains-grown j zero (x ∷ xs) l =
      rw (one_key x l.low, contains-split_children j xs) (or_swap (x == j) (k == j) (mem j xs))
    where
      or_swap : (a b c : Bool) → ((a || (b || false)) || c) ≡ (b || (a || c))
      or_swap a b c = ground arith
  contains-grown j (suc n) (x ∷ xs) l =
      rw (contains-grown j n xs (LastBelow-rest l)) (or_swap (x == j) (k == j) (mem j xs))
    where
      or_swap : (a b c : Bool) → ((a || false) || (b || c)) ≡ (b || (a || c))
      or_swap a b c = ground arith

size-split_children : (ks : List ℕ) → size_children (split_children ks) ≡ length ks
unfolding size
size-split_children [] = refl
size-split_children (x ∷ xs) = omega (arith, size-split_children xs)

pub size-grown :
    (hi k : ℕ) (fits : k ≤ hi) (n : ℕ) (ks : List ℕ)
    → LastBelow k n ks
    → size_children (grown hi k fits n ks) ≡ suc (length ks)
unfolding size
size-grown hi k fits n [] l = absurd (omega (arith, l.inside))
size-grown hi k fits zero (x ∷ xs) l =
    rw (one_key hi k fits x l.low) (omega (arith, size-split_children xs))
size-grown hi k fits (suc n) (x ∷ xs) l =
    omega (arith, size-grown hi k fits n xs (LastBelow-rest l))
