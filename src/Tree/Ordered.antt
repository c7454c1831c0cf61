-- ===== src/Tree/Ordered.antt =====
-- The order of an overflow tree, and the keys that it holds.
use pimlex_fast.Base.{
  ℕ, zero, suc, ◌+◌, ◌-◌, ◌≤◌, ◌<◌, ◌≡◌, refl, Bool, true, false, ◌||◌, arith, length, dec_lt,
}
use pimlex_fast.Search.Bound.{SortedOn, IsBound}
use pimlex_fast.Search.Lower.{lower_bound_inner-IsBound}
use pimlex_fast.Tree.Defs.{
  Node, leaf, inner, Children, nil, cons, child_num, key_at, child_count, child_bound,
}
use pimlex_fast.Tree.Leaf.{Ascends, mem, Ascends-below, Ascends-above}

unfoldable mutual
  -- Whether a key stands in some leaf of the tree.
  pub contains : ℕ → Node → Bool
  contains k (leaf l ks) = mem k ks
  contains k (inner l kids) = contains_children k kids

  pub contains_children : ℕ → Children → Bool
  contains_children k nil = false
  contains_children k (cons key child rest) = contains k child || contains_children k rest

unfoldable mutual
  -- How many keys the leaves store, repeated ones counted.
  pub size : Node → ℕ
  size (leaf l ks) = length ks
  size (inner l kids) = size_children kids

  pub size_children : Children → ℕ
  size_children nil = 0
  size_children (cons key child rest) = size child + size_children rest

-- The first key of what follows a child, or the bound of the whole.
abbrev pub bound : ℕ → Children → ℕ
bound hi nil = hi
bound hi (cons key child rest) = key

unfoldable mutual
  -- Every key of the tree lies from `lo` to `hi`, and `lo` is one of them. A leaf has at most 32
  -- keys; an inner node has 32 children, and its keys are the least keys of the children.
  pub Ordered : ℕ → ℕ → Node → Type 0
  Ordered lo hi (leaf l ks) = Ascends lo hi ks × (mem lo ks ≡ true) × (length ks ≤ child_num)
  Ordered lo hi (inner l kids) =
      (child_count kids ≡ child_num) × (key_at kids 0 ≡ lo) × OrderedChildren lo hi kids

  pub OrderedChildren : ℕ → ℕ → Children → Type 0
  OrderedChildren lo hi nil = Unit {0}
  OrderedChildren lo hi (cons key child rest) =
      (lo ≤ key)
      × (key ≤ hi)
      × Ordered key (bound hi rest) child
      × OrderedChildren (suc key) hi rest

-- No key of the tree is below the lower bound, or above the upper one.
mutual
  unfolding contains Ordered

  pub contains-below : (lo hi k : ℕ) (n : Node) → Ordered lo hi n → k < lo → contains k n ≡ false
  contains-below lo hi k (leaf l ks) o h = Ascends-below lo hi k ks o.0 h
  contains-below lo hi k (inner l kids) o h = contains_children-below lo hi k kids o.2 h

  pub contains_children-below :
      (lo hi k : ℕ) (kids : Children)
      → OrderedChildren lo hi kids
      → k < lo
      → contains_children k kids ≡ false
  contains_children-below lo hi k nil o h = refl
  contains_children-below lo hi k (cons key child rest) o h =
      rw (contains-below key (bound hi rest) k child o.2 (omega arith))
        (contains_children-below (suc key) hi k rest o.3 (omega arith))

bound-le : (lo hi : ℕ) (kids : Children) → OrderedChildren lo hi kids → bound hi kids ≤ hi
unfolding Ordered
bound-le lo hi nil o = omega arith
bound-le lo hi (cons key child rest) o = o.1

mutual
  unfolding contains Ordered

  pub contains-above : (lo hi k : ℕ) (n : Node) → Ordered lo hi n → hi < k → contains k n ≡ false
  contains-above lo hi k (leaf l ks) o h = Ascends-above lo hi k ks o.0 h
  contains-above lo hi k (inner l kids) o h = contains_children-above lo hi k kids o.2 h

  pub contains_children-above :
      (lo hi k : ℕ) (kids : Children)
      → OrderedChildren lo hi kids
      → hi < k
      → contains_children k kids ≡ false
  contains_children-above lo hi k nil o h = refl
  contains_children-above lo hi k (cons key child rest) o h =
      rw
        (contains-above key (bound hi rest) k child o.2
          (omega (arith, bound-le (suc key) hi rest o.3)))
        (contains_children-above (suc key) hi k rest o.3 h)

-- The least key of a tree is in it, at the head of its first child.
mutual
  unfolding contains Ordered

  pub contains-least : (lo hi : ℕ) (n : Node) → Ordered lo hi n → contains lo n ≡ true
  contains-least lo hi (leaf l ks) o = o.1
  contains-least lo hi (inner l kids) o =
      rw (← o.1) (contains_children-least lo hi kids o.2 (omega (arith, o.0)))

  pub contains_children-least :
      (lo hi : ℕ) (kids : Children)
      → OrderedChildren lo hi kids
      → 0 < child_count kids
      → contains_children (key_at kids 0) kids ≡ true
  contains_children-least lo hi nil o h = absurd (omega arith)
  contains_children-least lo hi (cons key child rest) o h =
      rw (contains-least key (bound hi rest) child o.2)

key_at-ge :
    (lo hi i : ℕ) (kids : Children)
    → OrderedChildren lo hi kids
    → i < child_count kids
    → lo ≤ key_at kids i
unfolding Ordered
key_at-ge lo hi i nil o h = absurd (omega arith)
key_at-ge lo hi zero (cons key child rest) o h = o.0
key_at-ge lo hi (suc i) (cons key child rest) o h =
    omega (arith, o.0, key_at-ge (suc key) hi i rest o.3 (omega arith))

key_at-SortedOn :
    (lo hi : ℕ) (kids : Children)
    → OrderedChildren lo hi kids
    → SortedOn (key_at kids) 0 (child_count kids)
unfolding Ordered
key_at-SortedOn lo hi nil o i j p q r = absurd (omega arith)
key_at-SortedOn lo hi (cons key child rest) o zero zero p q r = omega arith
key_at-SortedOn lo hi (cons key child rest) o (suc i) zero p q r = absurd (omega arith)
key_at-SortedOn lo hi (cons key child rest) o zero (suc j) p q r =
    omega (arith, key_at-ge (suc key) hi j rest o.3 (omega arith))
key_at-SortedOn lo hi (cons key child rest) o (suc i) (suc j) p q r =
    key_at-SortedOn (suc key) hi rest o.3 i j (omega arith) (omega arith) (omega arith)

-- What `lowerBoundInner` returns on the keys of an inner node.
pub child_bound-IsBound :
    (lo hi k : ℕ) (kids : Children)
    → OrderedChildren lo hi kids
    → 0 < child_count kids
    → IsBound (key_at kids) k 0 (child_count kids) (child_bound k kids)
unfolding child_bound
child_bound-IsBound lo hi k kids o h =
    lower_bound_inner-IsBound (key_at kids) k (child_count kids) h (key_at-SortedOn lo hi kids o)

-- The child that a descent takes is the last one whose key is up to `k`.
pub record Takes (n k : ℕ) (kids : Children) : Type 0 where
  pub inside : n < child_count kids
  pub upto : (i : ℕ) → i ≤ n → key_at kids i ≤ k
  pub beyond : (i : ℕ) → n < i → i < child_count kids → k < key_at kids i

pub child_bound-Takes :
    (lo hi k : ℕ) (kids : Children)
    → OrderedChildren lo hi kids
    → 0 < child_count kids
    → key_at kids 0 ≤ k
    → (0 < child_bound k kids) × Takes (child_bound k kids - 1) k kids
child_bound-Takes lo hi k kids o h first =
    let b = child_bound-IsBound lo hi k kids o h in
    let some_child : 0 < child_bound k kids = elim (dec_lt 0 (child_bound k kids)) [
      | yes q ↦ q
      | no q ↦ absurd (omega (arith, b.above 0 (omega arith) h))
    ] in
    (
      some_child,
      record {
        inside = omega (arith, b.upto, b.from);
        upto = λ i q. b.below i (omega arith) (omega arith);
        beyond = λ i q r. b.above i (omega arith) r;
      },
    )

pub Takes-rest :
    {n k key : ℕ} {child : Node} {rest : Children}
    → Takes (suc n) k (cons key child rest)
    → Takes n k rest
Takes-rest t = record {
  inside = omega (arith, t.inside);
  upto = λ i q. t.upto (suc i) (omega arith);
  beyond = λ i q r. t.beyond (suc i) (omega arith) (omega arith);
}

or-true : (b : Bool) → (b || true) ≡ true
or-true true = refl
or-true false = refl

-- No key of the children behind the taken one equals `k`.
pub beyond_taken :
    (lo hi k key : ℕ) (child : Node) (rest : Children)
    → OrderedChildren lo hi (cons key child rest)
    → Takes 0 k (cons key child rest)
    → contains_children k rest ≡ false
unfolding contains Ordered
beyond_taken lo hi k key child nil o t = refl
beyond_taken lo hi k key child (cons key' child' rest) o t =
    let h : k < key' = t.beyond 1 (omega arith) (omega arith) in
    rw (contains-below key' (bound hi rest) k child' o.3.2 h)
      (contains_children-below (suc key') hi k rest o.3.3 (omega arith))

-- A key of a child before the taken one that equals `k` stands in the taken one too.
pub before_taken :
    (lo hi n k key : ℕ) (child : Node) (rest : Children)
    → OrderedChildren lo hi (cons key child rest)
    → Takes (suc n) k (cons key child rest)
    → (contains k child || contains_children k rest) ≡ contains_children k rest
unfolding contains Ordered
before_taken lo hi n k key child nil o t = absurd (omega (arith, t.inside))
before_taken lo hi n k key child (cons key' child' rest) o t = elim (dec_lt key' k) [
  | yes h ↦ rw (contains-above key key' k child o.2 h)
  | no h ↦
      let e : k ≡ key' = omega (arith, t.upto 1 (omega arith)) in
      rw (e, contains-least key' (bound hi rest) child' o.3.2) (or-true (contains key' child))
]
