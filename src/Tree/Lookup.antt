-- ===== src/Tree/Lookup.antt =====
-- `lookup` and `update` of the overflow tree against the set of its keys.
use pimlex_fast.Base.{
  ℕ, zero, suc, ◌-◌, ◌≤◌, ◌<◌, ◌≡◌, refl, none, some, Bool, true, false, ◌||◌, arith, le→ltb,
  lt→ltb,
}
use pimlex_fast.Tree.Defs.{
  Node, leaf, inner, Children, nil, cons, key_at, child_bound, lookup, lookup_child, update,
}
use pimlex_fast.Tree.Leaf.{search_leaf-mem}
use pimlex_fast.Tree.Ordered.{
  contains, contains_children, bound, Ordered, OrderedChildren, Takes, child_bound-Takes,
  Takes-rest, beyond_taken, before_taken,
}

or-false : (b : Bool) → (b || false) ≡ b
or-false true = refl
or-false false = refl

mutual
  unfolding lookup contains Ordered

  -- In an ordered tree `lookup` of a key from the least one on reaches a leaf, and answers whether
  -- the tree has the key.
  lookup_node :
      (lo hi k : ℕ) (n : Node) → Ordered lo hi n → lo ≤ k → lookup k n ≡ some (contains k n)
  lookup_node lo hi k (leaf l ks) o h = rw (search_leaf-mem lo hi k ks o.0)
  lookup_node lo hi k (inner l kids) o h =
      let t = child_bound-Takes lo hi k kids o.2 (omega (arith, o.0)) (omega (arith, o.1)) in
      rw (lookup, le→ltb k (key_at kids 0) (omega (arith, o.1)))
        (lookup_child-contains lo hi (child_bound k kids - 1) k kids o.2 t.1)

  pub lookup_child-contains :
      (lo hi n k : ℕ) (kids : Children)
      → OrderedChildren lo hi kids
      → Takes n k kids
      → lookup_child n k kids ≡ some (contains_children k kids)
  lookup_child-contains lo hi n k nil o t = absurd (omega (arith, t.inside))
  lookup_child-contains lo hi zero k (cons key child rest) o t =
      rw (beyond_taken lo hi k key child rest o t, or-false (contains k child))
        (lookup_node key (bound hi rest) k child o.2 (t.upto 0 (omega arith)))
  lookup_child-contains lo hi (suc n) k (cons key child rest) o t =
      rw (before_taken lo hi n k key child rest o t)
        (lookup_child-contains (suc key) hi n k rest o.3 (Takes-rest t))

-- In an ordered tree `lookup` of a key from the least one on meets no unassigned child, and answers
-- whether the tree has the key.
pub lookup-contains :
    (lo hi k : ℕ) (n : Node) → Ordered lo hi n → lo ≤ k → lookup k n ≡ some (contains k n)
lookup-contains lo hi k n o h = lookup_node lo hi k n o h

-- Below the least key of an inner node, `lookup` and `update` go through the unassigned `smallnode`.
lookup-below :
    (lo hi k l : ℕ) (kids : Children)
    → Ordered lo hi (inner l kids)
    → k < lo
    → (lookup k (inner l kids) ≡ none) × (update k (inner l kids) ≡ none)
unfolding lookup update Ordered
lookup-below lo hi k l kids o h =
    let low : k < key_at kids 0 = omega (arith, o.1) in
    (rw (lookup, lt→ltb k (key_at kids 0) low), rw (update, lt→ltb k (key_at kids 0) low))
